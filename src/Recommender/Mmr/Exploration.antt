-- ===== src/Recommender/Mmr/Exploration.antt =====
-- Exploration slots are few and stand in their window.
use lobbytally.Base.{
  ℕ, zero, suc, ◌+◌, ◌≤◌, ◌<◌, ◌≡◌, ◌≢◌, refl, subst, inl, inr, Bool, true, false, Option, some,
  List, [], ◌∷◌, ◌++◌, arith, length, drop, min, All, All-map, Bool-cases,
}
use lobbytally.Table.{count_where, count_where-append, order_by-All}
use lobbytally.Recommender.{FloatOps, unit, SlotReason, base, diversity, explore, RankedCandidate}
use lobbytally.Recommender.Mmr.Choice.{RemainingCandidate}
use lobbytally.Recommender.Mmr.Rerank.{
  mmr_window_size, contains_id, Selection, with_reason, Pick, retain_first, baseline, start,
  mmr_rerank_with_tie_seed,
}
use lobbytally.Recommender.Mmr.Rounds.{IsPick, next_state}
use lobbytally.Recommender.Mmr.Outcome.{window_of, tail_of, cutoff_of, mmr_rerank-keeps}

abbrev pub is_explore : SlotReason → Bool
is_explore explore = true
is_explore _ = false

abbrev pub is_exploration : {F : Type 0} → RankedCandidate F → Bool
is_exploration item = is_explore item.slot_reason

-- From position `n` on, every exploration slot is one of the positions 4 to 7.
abbrev pub InWindow : {F : Type 0} → ℕ → List (RankedCandidate F) → Type 0
InWindow n [] = Unit
InWindow n (x ∷ xs) = (is_exploration x ≡ true → (4 ≤ n) × (n < 8)) × InWindow (suc n) xs

module _ {F : Type 0} where
  InWindow-append :
      (n : ℕ) (xs ys : List (RankedCandidate F))
      → InWindow n xs
      → InWindow (length xs + n) ys
      → InWindow n (xs ++ ys)
  InWindow-append n [] ys h k =
      let same : 0 + n ≡ n = omega arith in subst (λ m. InWindow m ys) same k
  InWindow-append n (x ∷ xs) ys h k =
      let same : length (x ∷ xs) + n ≡ length xs + suc n = omega arith in
      (h.0, InWindow-append (suc n) xs ys h.1 (subst (λ m. InWindow m ys) same k))

  unexplored-InWindow :
      (n : ℕ) (xs : List (RankedCandidate F))
      → All (λ x. is_exploration x ≡ false) xs
      → InWindow n xs
  unexplored-InWindow n [] h = tt
  unexplored-InWindow n (x ∷ xs) h = ((λ e. let no = h.0 in cc), unexplored-InWindow (suc n) xs h.1)

  unexplored-count :
      (xs : List (RankedCandidate F))
      → All (λ x. is_exploration x ≡ false) xs
      → count_where is_exploration xs ≡ 0
  unfolding count_where
  unexplored-count [] h = refl
  unexplored-count (x ∷ xs) h = rw h.0 (omega (arith, unexplored-count xs h.1))

  retain_first-All :
      (P : RankedCandidate F → Type 0) (seen : List ℕ) (xs : List (RankedCandidate F))
      → All P xs
      → All P (retain_first seen xs)
  unfolding retain_first
  retain_first-All P seen [] h = tt
  retain_first-All P seen (x ∷ xs) h = elim (Bool-cases (contains_id seen x.app_id)) [
    | inl e ↦ rw e (retain_first-All P seen xs h.1)
    | inr e ↦ rw e (h.0, retain_first-All P (x.app_id ∷ seen) xs h.1)
  ]

  drop-All :
      (P : RankedCandidate F → Type 0) (n : ℕ) (xs : List (RankedCandidate F))
      → All P xs
      → All P (drop n xs)
  drop-All P zero xs h = h
  drop-All P (suc n) [] h = tt
  drop-All P (suc n) (x ∷ xs) h = drop-All P n xs h.1

  All-based :
      (items : List (RankedCandidate F))
      → All (λ (x : RankedCandidate F). is_exploration (with_reason base x) ≡ false) items
  All-based [] = tt
  All-based (x ∷ xs) = (refl, All-based xs)

module _ {F : Type 0} (ops : FloatOps F) (to_lowercase : List ℕ → List ℕ) where
  baseline-unexplored :
      (tie_seed : ℕ) (items : List (RankedCandidate F))
      → All (λ x. is_exploration x ≡ false) (baseline ops to_lowercase tie_seed items)
  unfolding baseline
  baseline-unexplored tie_seed items =
      retain_first-All (λ x. is_exploration x ≡ false) [] _
        (order_by-All _ (λ x. is_exploration x ≡ false) _
          (All-map (λ x. is_exploration x ≡ false) (with_reason base) items (All-based items)))

  -- What holds of the slots that are filled.
  record IsExplored (slots : ℕ) (s : Selection F) : Type 0 where
    placed : InWindow 0 s.selected
    counted : count_where is_exploration s.selected ≡ s.explored
    bounded : s.explored ≤ slots

  module _ (lambda : F) (slots tie_seed : ℕ) (cutoff : Option F) where
    next_state-IsExplored :
        (s : Selection F) (p : Pick) (c : RemainingCandidate F) (rest : List (RemainingCandidate F))
        → IsExplored slots s
        → IsPick ops to_lowercase lambda slots tie_seed cutoff s p c rest
        → IsExplored slots (next_state ops to_lowercase lambda slots tie_seed cutoff s p c rest)
    unfolding count_where
    next_state-IsExplored s p c rest h pick =
        let chosen = with_reason p.reason c.item in
        let total = count_where-append is_exploration s.selected (chosen ∷ []) in
        elim pick.why [
          | inl (why, low, high, free, more) ↦ record {
            placed =
                InWindow-append 0 s.selected (chosen ∷ []) h.placed
                  ((λ e. (omega (arith, low), omega (arith, high))), tt);
            counted =
                let one : count_where is_exploration (chosen ∷ []) ≡ 1 = rw why (omega arith) in
                omega (arith, total, one, h.counted, more);
            bounded = omega (arith, more, free);
          }
          | inr (other, same) ↦ record {
            placed =
                InWindow-append 0 s.selected (chosen ∷ []) h.placed
                  ((λ e. absurd (other (explored_reason p.reason e))), tt);
            counted =
                let one : count_where is_exploration (chosen ∷ []) ≡ 0 =
                  rw (not_explored p.reason other) (omega arith) in
                omega (arith, total, one, h.counted, same);
            bounded = omega (arith, same, h.bounded);
          }
        ]
      where
        not_explored : (r : SlotReason) → r ≢ explore → is_explore r ≡ false
        not_explored base n = refl
        not_explored diversity n = refl
        not_explored explore n = absurd (n refl)

        explored_reason : (r : SlotReason) → is_explore r ≡ true → r ≡ explore
        explored_reason base e = cc
        explored_reason diversity e = cc
        explored_reason explore e = refl

  -- Of two candidates or more, at most `explore_slots` are put in exploration slots, and at most two;
  -- each of these slots is one of the positions 4 to 7, counted from 0.
  pub mmr_rerank-exploration :
      (lambda : F) (explore_slots tie_seed : ℕ) (items : List (RankedCandidate F))
      → 1 < length items
      → (out : List (RankedCandidate F)) × (mmr_rerank_with_tie_seed ops to_lowercase items lambda
            explore_slots tie_seed
          ≡ some out)
        × (count_where is_exploration out ≤ min explore_slots 2)
        × InWindow 0 out
  unfolding start count_where
  mmr_rerank-exploration lambda explore_slots tie_seed items many =
      let slots = min explore_slots 2 in
      let tail = tail_of ops to_lowercase lambda explore_slots tie_seed items in
      let cutoff = cutoff_of ops to_lowercase lambda explore_slots tie_seed items in
      let plain =
        drop-All (λ x. is_exploration x ≡ false) mmr_window_size _
          (baseline-unexplored tie_seed items) in
      let (s, run, h, e) =
        mmr_rerank-keeps ops to_lowercase lambda explore_slots tie_seed items (IsExplored slots)
          many (next_state-IsExplored (unit ops lambda) slots tie_seed cutoff)
          (start-IsExplored slots
            (window_of ops to_lowercase lambda explore_slots tie_seed items)) in
      (
        s.selected ++ tail,
        run,
        omega (
          arith,
          count_where-append is_exploration s.selected tail,
          unexplored-count tail plain,
          h.counted,
          h.bounded,
        ),
        InWindow-append 0 s.selected tail h.placed (unexplored-InWindow _ tail plain),
      )
    where
      start-IsExplored :
          (slots : ℕ) (window : List (RankedCandidate F))
          → IsExplored slots (start ops to_lowercase window)
      start-IsExplored slots window = record { placed = tt; counted = refl; bounded = omega arith }
