-- ===== src/Recommender/Quota/Kept.antt =====
-- What `ensure_fresh_release_quota` of crates/recommender/src/pipeline.rs keeps: the candidates, and the
-- guardrail.
use mathlib.Core.Path.{fun_ext}
use lobbytally.Base.{
  ℕ, zero, suc, ◌+◌, ◌-◌, ◌≡◌, refl, ap, subst, ◌∙◌, inl, inr, min, Bool, true, not, ◌&&◌, ◌||◌,
  some, List, [], ◌∷◌, if◌then◌else◌, length, take, drop, leb, ◌==◌, Bool-cases, Option-cases,
}
use lobbytally.Domain.{ModeFamily}
use lobbytally.Table.{count_where}
use lobbytally.Recommender.{FloatOps, RankedCandidate, explore, known_mode}
use lobbytally.Recommender.Mmr.Guardrail.{
  ModeCounts, ModeGuardrail, bump_known, has_room, available_per_mode, unknown_count, one_unknown,
  feasible_capacity, new_guardrail, stays_below, respects_mode_guardrail,
}
use lobbytally.Recommender.Mmr.Rerank.{with_reason}
use lobbytally.Recommender.Quota.{
  swap, mark_explore, promote, promote_all, destinations_from, sources_from, is_fresh_release,
  ensure_fresh_release_quota,
}
use lobbytally.Recommender.Quota.Places.{count_where-swap}

module _ {F : Type 0} (ops : FloatOps F) where
  pub count_where-mark_explore :
      (p : RankedCandidate F → Bool)
      → ((x : RankedCandidate F) → p (with_reason explore x) ≡ p x)
      → (i : ℕ) (xs : List (RankedCandidate F))
      → count_where p (mark_explore ops i xs) ≡ count_where p xs
  unfolding count_where mark_explore
  count_where-mark_explore p blind i [] = refl
  count_where-mark_explore p blind zero (x ∷ xs) = rw (blind x) refl
  count_where-mark_explore p blind (suc i) (x ∷ xs) =
      ap (λ (n : ℕ). (if p x then 1 else 0) + n) (count_where-mark_explore p blind i xs)

  pub take-mark_explore :
      (w i : ℕ) (xs : List (RankedCandidate F))
      → take w (mark_explore ops i xs) ≡ mark_explore ops i (take w xs)
  unfolding mark_explore
  take-mark_explore zero i xs = refl
  take-mark_explore (suc w) i [] = refl
  take-mark_explore (suc w) zero (x ∷ xs) = refl
  take-mark_explore (suc w) (suc i) (x ∷ xs) = ap (◌∷◌ x) (take-mark_explore w i xs)

  length-mark_explore :
      (i : ℕ) (xs : List (RankedCandidate F)) → length (mark_explore ops i xs) ≡ length xs
  unfolding mark_explore
  length-mark_explore i [] = refl
  length-mark_explore zero (x ∷ xs) = refl
  length-mark_explore (suc i) (x ∷ xs) = ap suc (length-mark_explore i xs)

  available_per_mode-mark_explore :
      (i : ℕ) (xs : List (RankedCandidate F)) (mode : ModeFamily)
      → available_per_mode (mark_explore ops i xs) mode ≡ available_per_mode xs mode
  unfolding mark_explore available_per_mode known_mode
  available_per_mode-mark_explore i [] mode = refl
  available_per_mode-mark_explore zero (x ∷ xs) mode = refl
  available_per_mode-mark_explore (suc i) (x ∷ xs) mode =
      ap (λ (counts : ModeCounts). bump_known (known_mode x) counts mode)
        (fun_ext (available_per_mode-mark_explore i xs))

  unknown_count-mark_explore :
      (i : ℕ) (xs : List (RankedCandidate F))
      → unknown_count (mark_explore ops i xs) ≡ unknown_count xs
  unfolding mark_explore unknown_count known_mode
  unknown_count-mark_explore i [] = refl
  unknown_count-mark_explore zero (x ∷ xs) = refl
  unknown_count-mark_explore (suc i) (x ∷ xs) =
      ap (λ (n : ℕ). one_unknown (known_mode x) + n) (unknown_count-mark_explore i xs)

  new_guardrail-mark_explore :
      (i : ℕ) (xs : List (RankedCandidate F))
      → new_guardrail (mark_explore ops i xs) ≡ new_guardrail xs
  unfolding new_guardrail feasible_capacity
  new_guardrail-mark_explore i xs =
      rw
        (
          fun_ext (available_per_mode-mark_explore i xs),
          unknown_count-mark_explore i xs,
          length-mark_explore i xs,
        )
        refl

  stays_below-mark_explore :
      (max_per_mode : ℕ) (counts : ModeCounts) (i : ℕ) (xs : List (RankedCandidate F))
      → stays_below max_per_mode counts (mark_explore ops i xs) ≡ stays_below max_per_mode counts xs
  unfolding mark_explore stays_below known_mode
  stays_below-mark_explore max_per_mode counts i [] = refl
  stays_below-mark_explore max_per_mode counts zero (x ∷ xs) = refl
  stays_below-mark_explore max_per_mode counts (suc i) (x ∷ xs) =
      ap (λ (b : Bool). has_room counts max_per_mode (known_mode x) && b)
        (stays_below-mark_explore max_per_mode (bump_known (known_mode x) counts) i xs)

  abbrev checked : ModeGuardrail → List (RankedCandidate F) → Bool
  checked guard xs =
      not guard.enabled || stays_below guard.max_per_mode (λ mode. 0) (take guard.top_k xs)

  respects_mode_guardrail-mark_explore :
      (i : ℕ) (xs : List (RankedCandidate F))
      → respects_mode_guardrail (mark_explore ops i xs) ≡ respects_mode_guardrail xs
  unfolding respects_mode_guardrail
  respects_mode_guardrail-mark_explore i xs =
      let guard = new_guardrail xs in
      let below =
        λ (ys : List (RankedCandidate F)). stays_below guard.max_per_mode (λ mode. 0) ys in
      ap (λ (g : ModeGuardrail). checked g (mark_explore ops i xs))
        (new_guardrail-mark_explore i xs)
      ∙ ap (λ (b : Bool). not guard.enabled || b)
          (ap below (take-mark_explore guard.top_k i xs)
            ∙ stays_below-mark_explore guard.max_per_mode (λ mode. 0) i (take guard.top_k xs))

  -- What every promotion keeps, the quota keeps.
  module _ (Good : List (RankedCandidate F) → Type 0)
      (step : (destination source : ℕ) (items : List (RankedCandidate F))
        → Good items
        → respects_mode_guardrail (swap destination source items) ≡ true
        → Good (mark_explore ops destination (swap destination source items))) where
    promote-Good :
        (source : ℕ) (destinations : List ℕ) (items items' : List (RankedCandidate F))
        → Good items
        → promote ops source destinations items ≡ some items'
        → Good items'
    unfolding promote
    promote-Good source [] items items' good h = cc
    promote-Good source (d ∷ ds) items items' good h =
        elim (Bool-cases (respects_mode_guardrail (swap d source items))) [
          | inl e ↦
              let same : some (mark_explore ops d (swap d source items)) ≡ some items' =
                rw e at h in
              let here : mark_explore ops d (swap d source items) ≡ items' = cc in
              subst Good here (step d source items good e)
          | inr e ↦ promote-Good source ds items items' good (rw e at h)
        ]

    promote_all-Good :
        (window missing promoted : ℕ) (sources : List ℕ) (items : List (RankedCandidate F))
        → Good items
        → Good (promote_all ops window missing promoted sources items)
    unfolding promote_all
    promote_all-Good window missing promoted [] items good = good
    promote_all-Good window missing promoted (source ∷ sources) items good =
        elim (Bool-cases (leb missing promoted)) [
          | inl e ↦ rw e good
          | inr e ↦
              rw e
                (elim (Option-cases
                  (promote ops source (destinations_from ops 0 (take window items)) items)) [
                    | inl nothing ↦
                        rw nothing (promote_all-Good window missing promoted sources items good)
                    | inr (items', found) ↦ rw found (
                        promote_all-Good window missing (promoted + 1) sources items' (
                          promote-Good source (destinations_from ops 0 (take window items)) items
                            items' good found))
                  ])
        ]

    ensure_fresh_release_quota-Good :
        (visible quota : ℕ) (items : List (RankedCandidate F))
        → Good items
        → Good (ensure_fresh_release_quota ops visible quota items)
    unfolding ensure_fresh_release_quota
    ensure_fresh_release_quota-Good visible quota items good =
        let window = min visible (length items) in
        let missing = min quota window - count_where (is_fresh_release ops) (take window items) in
        elim (Bool-cases (window == 0)) [
          | inl e ↦ rw e good
          | inr e ↦ rw e (
              promote_all-Good window missing 0 (sources_from ops window (drop window items)) items
                good)
        ]

  -- The quota keeps what is shown: for every test that does not read the reason of a slot, as many
  -- candidates pass it as before; and where the order respected the guardrail, it still does.
  pub ensure_fresh_release_quota-keeps :
      (visible quota : ℕ) (items : List (RankedCandidate F)) (p : RankedCandidate F → Bool)
      → ((x : RankedCandidate F) → p (with_reason explore x) ≡ p x)
      → (count_where p (ensure_fresh_release_quota ops visible quota items) ≡ count_where p items)
        × (respects_mode_guardrail items ≡ true
            → respects_mode_guardrail (ensure_fresh_release_quota ops visible quota items) ≡ true)
  ensure_fresh_release_quota-keeps visible quota items p blind = (
    ensure_fresh_release_quota-Good (λ after. count_where p after ≡ count_where p items)
        (λ d s after same e.
          count_where-mark_explore p blind d (swap d s after) ∙ count_where-swap p d s after ∙ same)
        visible quota items refl,
    ensure_fresh_release_quota-Good (λ after. respects_mode_guardrail after ≡ true)
        (λ d s after good e. respects_mode_guardrail-mark_explore d (swap d s after) ∙ e) visible
        quota items,
  )
