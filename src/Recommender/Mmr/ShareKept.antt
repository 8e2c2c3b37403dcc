-- ===== src/Recommender/Mmr/ShareKept.antt =====
-- A round keeps the share of every mode within its bound.
use lobbytally.Base.{
  ℕ, ◌+◌, ◌≤◌, ◌<◌, ◌≡◌, refl, ◌∙◌, inl, inr, true, false, Option, List, [], ◌∷◌, ◌++◌, map, arith,
  length, length-append, take, Bool-cases, ltb, leb,
}
use lobbytally.Domain.{ModeFamily}
use lobbytally.Recommender.{FloatOps, RankedCandidate, known_mode}
use lobbytally.Recommender.Mmr.Guardrail.{
  ModeGuardrail, has_room, new_guardrail, allows, record_mode,
}
use lobbytally.Recommender.Mmr.Choice.{RemainingCandidate}
use lobbytally.Recommender.Mmr.Rerank.{Selection, with_reason, Pick, raise_similarity}
use lobbytally.Recommender.Mmr.Rounds.{IsPick, next_state}
use lobbytally.Recommender.Mmr.Tally.{
  one_of_mode, bump_known-one, has_room-one, total, total-append, total-remove_at, of_mode, of_none,
}
use lobbytally.Recommender.Mmr.Share.{take-short, take-long, IsShared, never-IsFull}

pub total-map :
    {A B : Type 0} (f : B → ℕ) (g : A → B) (xs : List A)
    → total f (map g xs) ≡ total (λ x. f (g x)) xs
unfolding total
total-map f g [] = refl
total-map f g (x ∷ xs) = omega (arith, total-map f g xs)

module _ {F : Type 0} (guard : ModeGuardrail) (item : RankedCandidate F) (n : ℕ) where
  record_mode-rest :
      ((record_mode guard item n).enabled ≡ guard.enabled)
      × ((record_mode guard item n).top_k ≡ guard.top_k)
      × ((record_mode guard item n).max_per_mode ≡ guard.max_per_mode)
  unfolding record_mode
  record_mode-rest = (ground arith, ground arith, ground arith)

  record_mode-counts :
      (mode : ModeFamily)
      → guard.enabled ≡ true
      → n < guard.top_k
      → (record_mode guard item n).selected_per_mode mode
        ≡ one_of_mode (known_mode item) mode + guard.selected_per_mode mode
  unfolding record_mode
  record_mode-counts mode still early =
      let late : leb guard.top_k n ≡ false = ground arith in
      rw (still, late) (bump_known-one (known_mode item) guard.selected_per_mode mode)

module _ {F : Type 0} (ops : FloatOps F) (to_lowercase : List ℕ → List ℕ) (lambda : F)
    (slots tie_seed : ℕ) (cutoff : Option F) (window : List (RankedCandidate F))
    (on : (new_guardrail window).enabled ≡ true) where
  -- A number of the candidates, selected and remaining together, stays as it is.
  kept_total :
      (f : RankedCandidate F → ℕ) (s : Selection F) (p : Pick) (c : RemainingCandidate F)
      (rest : List (RemainingCandidate F))
      → ((item : RankedCandidate F) → f (with_reason p.reason item) ≡ f item)
      → IsPick ops to_lowercase lambda slots tie_seed cutoff s p c rest
      → let s' = next_state ops to_lowercase lambda slots tie_seed cutoff s p c rest in
        total f s'.selected + total (λ (d : RemainingCandidate F). f d.item) s'.remaining
        ≡ total f s.selected + total (λ (d : RemainingCandidate F). f d.item) s.remaining
  unfolding total raise_similarity
  kept_total f s p c rest same pick =
      let chosen = with_reason p.reason c.item in
      omega (
        arith,
        total-append f s.selected (chosen ∷ []),
        same c.item,
        total-map (λ (d : RemainingCandidate F). f d.item)
            (raise_similarity ops to_lowercase lambda slots tie_seed cutoff chosen) rest,
        total-remove_at (λ (d : RemainingCandidate F). f d.item) p.best_idx s.remaining c rest
            pick.removed,
      )

  room_left :
      (s : Selection F) (p : Pick) (c : RemainingCandidate F) (rest : List (RemainingCandidate F))
      → IsShared ops to_lowercase window s
      → IsPick ops to_lowercase lambda slots tie_seed cutoff s p c rest
      → length s.selected < (new_guardrail window).top_k
      → has_room s.mode_guardrail.selected_per_mode
          (new_guardrail window).max_per_mode
          (known_mode c.item)
        ≡ true
  unfolding allows
  room_left s p c rest h pick early = elim pick.allowed [
    | inl ok ↦
        let late : leb (new_guardrail window).top_k (length s.selected) ≡ false = ground arith in
        rw (h.still, h.same_top, late, h.same_max) at ok
    | inr full ↦ absurd (never-IsFull ops to_lowercase window tie_seed s on h early full)
  ]

  module _ (s : Selection F) (p : Pick) (c : RemainingCandidate F)
      (rest : List (RemainingCandidate F)) (h : IsShared ops to_lowercase window s)
      (pick : IsPick ops to_lowercase lambda slots tie_seed cutoff s p c rest) where
    abbrev chosen : RankedCandidate F
    chosen = with_reason p.reason c.item

    -- One candidate more.
    more :
        (mode : ModeFamily)
        → total (of_mode mode) (s.selected ++ chosen ∷ [])
          ≡ one_of_mode (known_mode c.item) mode + total (of_mode mode) s.selected
    unfolding total known_mode
    more mode = omega (arith, total-append (of_mode mode) s.selected (chosen ∷ []))

    counted_next :
        length (s.selected ++ chosen ∷ []) ≤ (new_guardrail window).top_k
        → (mode : ModeFamily)
        → (record_mode s.mode_guardrail chosen (length s.selected)).selected_per_mode mode
          ≡ total (of_mode mode) (s.selected ++ chosen ∷ [])
    unfolding known_mode
    counted_next enough mode =
        let longer = length-append s.selected (chosen ∷ []) in
        omega (
          arith,
          record_mode-counts s.mode_guardrail chosen (length s.selected) mode h.still
              (omega (arith, longer, enough, h.same_top)),
          more mode,
          h.counted (omega (arith, longer, enough)) mode,
        )

    shared_next :
        (mode : ModeFamily)
        → total (of_mode mode) (take ((new_guardrail window).top_k) (s.selected ++ chosen ∷ []))
          ≤ (new_guardrail window).max_per_mode
    shared_next mode = elim (Bool-cases (ltb (length s.selected) (new_guardrail window).top_k)) [
      | inl e ↦
          let early : length s.selected < (new_guardrail window).top_k = ground arith in
          let longer = length-append s.selected (chosen ∷ []) in
          let short = take-short ((new_guardrail window).top_k) s.selected (omega (arith, early)) in
          let before = rw short at (h.shared mode) in
          let below : s.mode_guardrail.selected_per_mode mode
              ≤ (new_guardrail window).max_per_mode =
            rw (h.counted (omega (arith, early)) mode) before in
          let after =
            has_room-one s.mode_guardrail.selected_per_mode (new_guardrail window).max_per_mode
              (known_mode c.item) mode (room_left s p c rest h pick early) below in
          rw
            (take-short ((new_guardrail window).top_k) (s.selected ++ chosen ∷ [])
              (omega (arith, early, longer)))
            (omega (arith, more mode, after, h.counted (omega (arith, early)) mode))
      | inr e ↦
          let late : (new_guardrail window).top_k ≤ length s.selected = ground arith in
          rw (take-long ((new_guardrail window).top_k) s.selected (chosen ∷ []) late)
            (h.shared mode)
    ]

  pub next_state-IsShared :
      (s : Selection F) (p : Pick) (c : RemainingCandidate F) (rest : List (RemainingCandidate F))
      → IsShared ops to_lowercase window s
      → IsPick ops to_lowercase lambda slots tie_seed cutoff s p c rest
      → IsShared ops to_lowercase window
          (next_state ops to_lowercase lambda slots tie_seed cutoff s p c rest)
  unfolding known_mode
  next_state-IsShared s p c rest h pick =
      let (still, same_top, same_max) =
        record_mode-rest s.mode_guardrail (with_reason p.reason c.item) (length s.selected) in
      record {
        still = still ∙ h.still;
        same_top = same_top ∙ h.same_top;
        same_max = same_max ∙ h.same_max;
        modes = λ mode. kept_total (of_mode mode) s p c rest (λ item. refl) pick ∙ h.modes mode;
        unknowns = kept_total of_none s p c rest (λ item. refl) pick ∙ h.unknowns;
        counted = counted_next s p c rest h pick;
        shared = shared_next s p c rest h pick;
      }
