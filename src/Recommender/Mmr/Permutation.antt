-- ===== src/Recommender/Mmr/Permutation.antt =====
-- The re-ranking loses no candidate and makes none up.
use mathlib.Core.List.{Perm, map-append}
use mathlib.Core.List.Perm
use lobbytally.Base.{
  ℕ, ◌<◌, ◌≡◌, refl, sym, ap, subst, ◌∙◌, Option, some, List, [], ◌∷◌, ◌++◌, map, map-map, length,
  take-append-drop, min,
}
use lobbytally.Recommender.{FloatOps, unit, base, RankedCandidate}
use lobbytally.Recommender.Mmr.Choice.{RemainingCandidate}
use lobbytally.Recommender.Mmr.Rerank.{
  mmr_window_size, Selection, with_reason, Pick, raise_similarity, baseline, start,
  mmr_rerank_with_tie_seed,
}
use lobbytally.Recommender.Mmr.Rounds.{IsPick, next_state}
use lobbytally.Recommender.Mmr.Outcome.{
  remove_at-perm, map-to_remaining, window_of, tail_of, cutoff_of, mmr_rerank-keeps,
}

append-snoc : {A : Type 0} (xs : List A) (y : A) (zs : List A) → (xs ++ y ∷ []) ++ zs ≡ xs ++ y ∷ zs
append-snoc [] y zs = refl
append-snoc (x ∷ xs) y zs = ap (◌∷◌ x) (append-snoc xs y zs)

append_end : {A : Type 0} (xs : List A) → xs ++ [] ≡ xs
append_end [] = refl
append_end (x ∷ xs) = ap (◌∷◌ x) (append_end xs)

-- A candidate but for the reason of its slot.
abbrev pub unslotted : {F : Type 0} → List (RankedCandidate F) → List (RankedCandidate F)
unslotted = map (with_reason base)

module _ {F : Type 0} (ops : FloatOps F) (to_lowercase : List ℕ → List ℕ) (lambda : F)
    (slots tie_seed : ℕ) (cutoff : Option F) where
  abbrev key : RemainingCandidate F → RankedCandidate F
  key c = with_reason base c.item

  abbrev HasAll : List (RankedCandidate F) → Selection F → Type 0
  HasAll window s = Perm (unslotted window) (unslotted s.selected ++ map key s.remaining)

  next_state-HasAll :
      (window : List (RankedCandidate F)) (s : Selection F) (p : Pick) (c : RemainingCandidate F)
      (rest : List (RemainingCandidate F))
      → HasAll window s
      → IsPick ops to_lowercase lambda slots tie_seed cutoff s p c rest
      → HasAll window (next_state ops to_lowercase lambda slots tie_seed cutoff s p c rest)
  unfolding raise_similarity
  next_state-HasAll window s p c rest h pick =
      let chosen = with_reason p.reason c.item in
      let raise = raise_similarity ops to_lowercase lambda slots tie_seed cutoff chosen in
      let kept : Perm (unslotted window) (unslotted s.selected ++ key c ∷ map key rest) =
        Perm.trans h (
          Perm.append_left (unslotted s.selected)
            (Perm.map key (remove_at-perm p.best_idx s.remaining c rest pick.removed))) in
      let same : unslotted (s.selected ++ chosen ∷ []) ++ map key (map raise rest)
          ≡ unslotted s.selected ++ key c ∷ map key rest =
        rw (map-append (with_reason base) s.selected (chosen ∷ []), map-map key raise rest)
          (append-snoc (unslotted s.selected) (key c) (map key rest)) in
      subst (Perm (unslotted window)) (sym same) kept

  start-HasAll : (window : List (RankedCandidate F)) → HasAll window (start ops to_lowercase window)
  unfolding start
  start-HasAll window =
      subst (Perm (unslotted window)) (sym (map-to_remaining ops (with_reason base) window))
        Perm.rfl

  HasAll-end :
      (window : List (RankedCandidate F)) (s : Selection F)
      → HasAll window s
      → s.remaining ≡ []
      → Perm (unslotted window) (unslotted s.selected)
  HasAll-end window s h e = subst (Perm (unslotted window)) (append_end (unslotted s.selected)) (
      subst
        (λ (cs : List (RemainingCandidate F)).
          Perm (unslotted window) (unslotted s.selected ++ map key cs))
        e h)

module _ {F : Type 0} (ops : FloatOps F) (to_lowercase : List ℕ → List ℕ) (lambda : F)
    (explore_slots tie_seed : ℕ) where
  -- Of two candidates or more, the re-ranking returns those of the baseline order: it ends, it never
  -- removes at an index outside its list, and but for the reason of the slot the result is a
  -- permutation.
  pub mmr_rerank-perm :
      (items : List (RankedCandidate F))
      → 1 < length items
      → (out : List (RankedCandidate F)) × (mmr_rerank_with_tie_seed ops to_lowercase items lambda
            explore_slots tie_seed
          ≡ some out)
        × Perm (unslotted (baseline ops to_lowercase tie_seed items)) (unslotted out)
  mmr_rerank-perm items many =
      let window = window_of ops to_lowercase lambda explore_slots tie_seed items in
      let tail = tail_of ops to_lowercase lambda explore_slots tie_seed items in
      let cutoff = cutoff_of ops to_lowercase lambda explore_slots tie_seed items in
      let slots = min explore_slots 2 in
      let (s, run, all, e) =
        mmr_rerank-keeps ops to_lowercase lambda explore_slots tie_seed items
          (HasAll ops to_lowercase (unit ops lambda) slots tie_seed cutoff window) many
          (next_state-HasAll ops to_lowercase (unit ops lambda) slots tie_seed cutoff window)
          (start-HasAll ops to_lowercase (unit ops lambda) slots tie_seed cutoff window) in
      let chosen =
        HasAll-end ops to_lowercase (unit ops lambda) slots tie_seed cutoff window s all e in
      let parts : unslotted (baseline ops to_lowercase tie_seed items)
          ≡ unslotted window ++ unslotted tail =
        ap unslotted
          (sym (take-append-drop mmr_window_size (baseline ops to_lowercase tie_seed items)))
        ∙ map-append (with_reason base) window tail in
      let whole : unslotted (s.selected ++ tail) ≡ unslotted s.selected ++ unslotted tail =
        map-append (with_reason base) s.selected tail in
      (s.selected ++ tail, run, rw (parts, whole) (Perm.append_right (unslotted tail) chosen))
