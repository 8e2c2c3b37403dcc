-- ===== src/Recommender/Mmr/Choice.antt =====
-- `best_mmr_index` and `explore_candidate_index` of crates/recommender/src/mmr.rs.
use lobbytally.Base.{
  ℕ, suc, Bool, true, ◌&&◌, Option, none, some, List, [], ◌∷◌, map, leb, if◌then◌else◌,
}
use lobbytally.Table.{select_where}
use lobbytally.Recommender.{
  Ordering, then_with, reverse, is_greater, FloatOps, unit, RankedCandidate,
}
use lobbytally.Recommender.Mmr.Baseline.{relevance, compare_baseline}
use lobbytally.Recommender.Mmr.Similarity.{has_diversity_metadata}
use lobbytally.Recommender.Mmr.Guardrail.{ModeGuardrail, allows}

pub record RemainingCandidate (F : Type 0) : Type 0 where
  pub item : RankedCandidate F
  pub baseline_rank : ℕ
  pub max_similarity : F

-- `iter().enumerate()`
unfoldable pub enumerate : {A : Type 0} → List A → List (ℕ × A)
enumerate [] = []
enumerate {A} (x ∷ xs) = (0, x) ∷ map (λ (e : ℕ × A). (suc e.0, e.1)) (enumerate xs)

-- The best so far: its index, its value, and the item that stands at the index.
pub record Best (F : Type 0) : Type 0 where
  pub index : ℕ
  pub value : F
  pub item : RankedCandidate F

module _ {F : Type 0} (ops : FloatOps F) (to_lowercase : List ℕ → List ℕ) (guard : ModeGuardrail)
    (selected_len tie_seed : ℕ) where
  module _ (lambda : F) where
    unfoldable pub mmr_value : RemainingCandidate F → F
    mmr_value c =
        ops.sub (ops.mul lambda (relevance ops c.item))
          (ops.mul (ops.sub (ops.ratio 1 1) lambda) (unit ops c.max_similarity))

    unfoldable pub is_better : RemainingCandidate F → Option (Best F) → Bool
    unfolding mmr_value
    is_better c none = true
    is_better c (some best) = is_greater (
        then_with (ops.total_cmp (mmr_value c) best.value)
          (reverse (compare_baseline ops tie_seed c.item best.item)))

    unfoldable pub best_of : List (ℕ × RemainingCandidate F) → Option (Best F) → Option (Best F)
    unfolding mmr_value is_better
    best_of [] best = best
    best_of ((index, c) ∷ rest) best = best_of rest (
        if allows guard c.item selected_len && is_better c best
        then some (record { index = index; value = mmr_value c; item = c.item })
        else best)

    abbrev pub index_or_zero : Option (Best F) → ℕ
    index_or_zero none = 0
    index_or_zero (some best) = best.index

    unfoldable pub best_mmr_index : List (RemainingCandidate F) → ℕ
    unfolding best_of
    best_mmr_index remaining = index_or_zero (best_of (enumerate remaining) none)

  -- The filter of `explore_candidate_index`.
  unfoldable pub may_explore : F → ℕ × RemainingCandidate F → Bool
  may_explore cutoff (index, c) =
      let margin = ops.mul (ops.max_of (ops.abs cutoff) (ops.ratio 1 100)) (ops.ratio 10 100) in
      leb 12 c.baseline_rank
      && (allows guard c.item selected_len
          && (ops.at_least (unit ops c.item.data_confidence) (ops.ratio 45 100)
              && (ops.at_least (relevance ops c.item) (ops.sub cutoff margin)
                  && (has_diversity_metadata ops to_lowercase c.item
                      && ops.at_least (ops.sub (ops.ratio 1 1) (unit ops c.max_similarity))
                          (ops.ratio 25 100)))))

  unfoldable pub compare_novelty : RemainingCandidate F → RemainingCandidate F → Ordering
  compare_novelty a b =
      then_with
        (ops.total_cmp (ops.sub (ops.ratio 1 1) (unit ops a.max_similarity))
          (ops.sub (ops.ratio 1 1) (unit ops b.max_similarity)))
        (compare_baseline ops tie_seed b.item a.item)

  abbrev pub later_max :
      Option (ℕ × RemainingCandidate F) → ℕ × RemainingCandidate F → ℕ × RemainingCandidate F
  later_max none e = e
  later_max (some best) e = if is_greater (compare_novelty best.1 e.1) then best else e

  -- `max_by`, which returns the last of several maxima.
  unfoldable pub max_by :
      List (ℕ × RemainingCandidate F)
      → Option (ℕ × RemainingCandidate F)
      → Option (ℕ × RemainingCandidate F)
  unfolding compare_novelty
  max_by [] best = best
  max_by (e ∷ es) best = max_by es (some (later_max best e))

  abbrev pub index_of : Option (ℕ × RemainingCandidate F) → Option ℕ
  index_of none = none
  index_of (some (index, c)) = some index

  unfoldable pub explore_candidate_index : Option F → List (RemainingCandidate F) → Option ℕ
  unfolding may_explore max_by
  explore_candidate_index none remaining = none
  explore_candidate_index (some cutoff) remaining =
      index_of (max_by (select_where (may_explore cutoff) (enumerate remaining)) none)
