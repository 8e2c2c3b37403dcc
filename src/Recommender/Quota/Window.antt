-- ===== src/Recommender/Quota/Window.antt =====
-- The loops of `ensure_fresh_release_quota` in crates/recommender/src/pipeline.rs: how many fresh releases
-- they leave in the window.
use lobbytally.Base.{
  ℕ, ◌+◌, ◌-◌, ◌<◌, ◌≤◌, ◌≡◌, ◌≢◌, subst, ◌∙◌, inl, inr, min, max, some, List, [], ◌∷◌, length,
  take, drop, leb, ◌==◌, Bool-cases, Option-cases, arith, All,
}
use lobbytally.Recommender.{FloatOps, RankedCandidate}
use lobbytally.Recommender.Mmr.Guardrail.{respects_mode_guardrail}
use lobbytally.Recommender.Quota.{
  get_at, swap, mark_explore, promote, promote_all, destinations_from, sources_from,
  ensure_fresh_release_quota,
}
use lobbytally.Recommender.Quota.Promotion.{
  StaleAt, FreshAt, Ready, Promoted, fresh_in, swapped-Promoted, sources_from-Ready,
  destinations_from-All, get_at-drop,
}

module _ {F : Type 0} (ops : FloatOps F) where
  promote-Promoted :
      (w s : ℕ) (ds : List ℕ) (items items' : List (RankedCandidate F))
      → w ≤ s
      → FreshAt ops items s
      → All (StaleAt ops 0 (take w items)) ds
      → promote ops s ds items ≡ some items'
      → Promoted ops w s items items'
  unfolding promote
  promote-Promoted w s [] items items' behind fresh stale h = cc
  promote-Promoted w s (d ∷ ds) items items' behind fresh stale h =
      elim (Bool-cases (respects_mode_guardrail (swap d s items))) [
        | inl e ↦
            let same : some (mark_explore ops d (swap d s items)) ≡ some items' = rw e at h in
            let here : mark_explore ops d (swap d s items) ≡ items' = cc in
            subst (Promoted ops w s items) here
              (swapped-Promoted ops w s d items behind fresh stale.0)
        | inr e ↦ promote-Promoted w s ds items items' behind fresh stale.1 (rw e at h)
      ]

  -- The sources that are left are ready still.
  Promoted-Ready :
      (w s : ℕ) (items items' : List (RankedCandidate F)) (ss : List ℕ)
      → ((t : ℕ) → w ≤ t → s ≢ t → get_at t items' ≡ get_at t items)
      → All (λ t. s < t) ss
      → Ready ops w items ss
      → Ready ops w items' ss
  Promoted-Ready w s items items' [] kept after ready = tt
  Promoted-Ready w s items items' (t ∷ ss) kept (later, after)
        (behind, (x, found, fresh), order, ready) =
      (
        behind,
        (x, kept t behind (λ e. omega (arith, e, later)) ∙ found, fresh),
        order,
        Promoted-Ready w s items items' ss kept after ready,
      )

  promote_all-fresh_in :
      (w missing promoted : ℕ) (ss : List ℕ) (items : List (RankedCandidate F))
      → Ready ops w items ss
      → (fresh_in ops w items ≤ fresh_in ops w (promote_all ops w missing promoted ss items))
        × (fresh_in ops w (promote_all ops w missing promoted ss items)
            ≤ fresh_in ops w items + (missing - promoted))
  unfolding promote_all
  promote_all-fresh_in w missing promoted [] items ready = (omega arith, omega arith)
  promote_all-fresh_in w missing promoted (s ∷ ss) items (behind, fresh, order, ready) =
      elim (Bool-cases (leb missing promoted)) [
        | inl e ↦ rw e (omega arith, omega arith)
        | inr e ↦
            rw e
              (elim (Option-cases (promote ops s (destinations_from ops 0 (take w items)) items)) [
                | inl nothing ↦ rw nothing (promote_all-fresh_in w missing promoted ss items ready)
                | inr (items', found) ↦ rw found (
                    let (more, kept) =
                      promote-Promoted w s (destinations_from ops 0 (take w items)) items items'
                        behind fresh (destinations_from-All ops 0 (take w items)) found in
                    let (low, high) =
                      promote_all-fresh_in w missing (promoted + 1) ss items'
                        (Promoted-Ready w s items items' ss kept order ready) in
                    let room : promoted < missing = ground arith in
                    (omega (arith, more, low), omega (arith, more, high, room)))
              ])
      ]

  -- In the window, which is as long as asked for or as the list, the quota leaves at least as many fresh
  -- releases as there were, and no more than there were or than the quota asks for in that window.
  pub ensure_fresh_release_quota-fresh_in :
      (visible quota : ℕ) (items : List (RankedCandidate F))
      → (fresh_in ops (min visible (length items)) items
          ≤ fresh_in ops
              (min visible (length items))
              (ensure_fresh_release_quota ops visible quota items))
        × (fresh_in ops
              (min visible (length items))
              (ensure_fresh_release_quota ops visible quota items)
            ≤ max
                (fresh_in ops (min visible (length items)) items)
                (min quota (min visible (length items))))
  unfolding ensure_fresh_release_quota
  ensure_fresh_release_quota-fresh_in visible quota items =
      let w = min visible (length items) in
      let missing = min quota w - fresh_in ops w items in
      let sources = sources_from ops w (drop w items) in
      let bounds = promote_all-fresh_in w missing 0 sources items (
        sources_from-Ready ops w w items (drop w items) (λ k. get_at-drop w k items)
          (omega arith)) in
      elim (Bool-cases (w == 0)) [
        | inl e ↦ rw e (omega arith, omega arith)
        | inr e ↦ rw e (bounds.0, omega (arith, bounds.1))
      ]
