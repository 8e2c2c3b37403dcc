-- ===== src/Recommender/Mmr/Rerank.antt =====
-- `mmr_rerank_with_tie_seed` of crates/recommender/src/mmr.rs. The loop runs on fuel, and `none` stands
-- for a panic of `Vec::remove` and for fuel that ran out.
use lobbytally.Base.{
  ℕ, zero, suc, ◌+◌, min, Bool, true, false, not, ◌&&◌, ◌||◌, Option, none, some, List, [], ◌∷◌,
  ◌++◌, map, ltb, leb, ◌==◌, if◌then◌else◌, length, take, drop,
}
use lobbytally.Table.{order_by}
use lobbytally.Recommender.{
  is_greater, FloatOps, unit, SlotReason, base, diversity, explore, RankedCandidate,
}
use lobbytally.Recommender.Mmr.Baseline.{relevance, compare_baseline}
use lobbytally.Recommender.Mmr.Similarity.{similarity}
use lobbytally.Recommender.Mmr.Guardrail.{ModeGuardrail, new_guardrail, record_mode}
use lobbytally.Recommender.Mmr.Choice.{
  RemainingCandidate, enumerate, best_mmr_index, explore_candidate_index,
}

abbrev pub mmr_window_size : ℕ
mmr_window_size = 200

abbrev pub put_back : {A : Type 0} → A → Option (A × List A) → Option (A × List A)
put_back x none = none
put_back x (some (y, ys)) = some (y, x ∷ ys)

-- `Vec::remove`
unfoldable pub remove_at : {A : Type 0} → ℕ → List A → Option (A × List A)
remove_at index [] = none
remove_at zero (x ∷ xs) = some (x, xs)
remove_at (suc index) (x ∷ xs) = put_back x (remove_at index xs)

abbrev pub nth : {A : Type 0} → ℕ → List A → Option A
nth index [] = none
nth zero (x ∷ xs) = some x
nth (suc index) (x ∷ xs) = nth index xs

unfoldable pub contains_id : List ℕ → ℕ → Bool
contains_id [] id = false
contains_id (i ∷ ids) id = (i == id) || contains_id ids id

abbrev pub is_nil : {A : Type 0} → List A → Bool
is_nil [] = true
is_nil (x ∷ xs) = false

-- The variables of the loop.
pub record Selection (F : Type 0) : Type 0 where
  pub remaining : List (RemainingCandidate F)
  pub mode_guardrail : ModeGuardrail
  pub selected : List (RankedCandidate F)
  pub explored : ℕ

abbrev pub with_reason : {F : Type 0} → SlotReason → RankedCandidate F → RankedCandidate F
with_reason reason item = record item { slot_reason = reason }

-- `sorted.retain(|item| seen.insert(item.app_id))`
unfoldable pub retain_first :
    {F : Type 0} → List ℕ → List (RankedCandidate F) → List (RankedCandidate F)
unfolding contains_id
retain_first seen [] = []
retain_first seen (item ∷ items) =
    let rest = retain_first (item.app_id ∷ seen) items in
    let same = retain_first seen items in if contains_id seen item.app_id then same else item ∷ rest

unfoldable pub to_remaining :
    {F : Type 0} → FloatOps F → List (RankedCandidate F) → List (RemainingCandidate F)
to_remaining {F} ops items =
    map
      (λ (e : ℕ × RankedCandidate F). record {
        item = e.1;
        baseline_rank = e.0;
        max_similarity = ops.ratio 0 1;
      })
      (enumerate items)

abbrev pub relevance_of : {F : Type 0} → FloatOps F → Option (RankedCandidate F) → Option F
relevance_of ops none = none
relevance_of ops (some item) = some (relevance ops item)

-- What a round picks: the index, the reason, and the new value of `explored`.
pub record Pick : Type 0 where
  pub best_idx : ℕ
  pub reason : SlotReason
  pub explored : ℕ

module _ {F : Type 0} (ops : FloatOps F) (to_lowercase : List ℕ → List ℕ) (lambda : F)
    (explore_slots tie_seed : ℕ) (cutoff : Option F) where
  abbrev pub picked : Option ℕ → ℕ → ℕ → Pick
  picked (some index) best explored = record {
    best_idx = index;
    reason = explore;
    explored = explored + 1;
  }
  picked none best explored = record {
    best_idx = best;
    reason = if best == 0 then base else diversity;
    explored = explored;
  }

  unfoldable pub choose : Selection F → Pick
  choose s =
      let n = length s.selected in
      let in_explore_window = leb 4 n && ltb n 8 in
      let explore_idx =
        if in_explore_window && ltb s.explored explore_slots
        then explore_candidate_index ops to_lowercase s.mode_guardrail n tie_seed cutoff s.remaining
        else none in
      picked explore_idx
        (best_mmr_index ops to_lowercase s.mode_guardrail n tie_seed lambda s.remaining) s.explored

  -- `candidate.max_similarity.max(similarity(&chosen, &candidate.item))`
  unfoldable pub raise_similarity : RankedCandidate F → RemainingCandidate F → RemainingCandidate F
  raise_similarity chosen c = record c {
    max_similarity = ops.max_of c.max_similarity (similarity ops to_lowercase chosen c.item);
  }

  abbrev pub push :
      Selection F
      → Pick
      → Option (RemainingCandidate F × List (RemainingCandidate F))
      → Option (Selection F)
  push s pick none = none
  push s pick (some (c, rest)) =
      let chosen = with_reason pick.reason c.item in
      some (record {
        remaining = map (raise_similarity chosen) rest;
        mode_guardrail = record_mode s.mode_guardrail chosen (length s.selected);
        selected = s.selected ++ chosen ∷ [];
        explored = pick.explored;
      })

  -- The body of the loop.
  unfoldable pub select_next : Selection F → Option (Selection F)
  unfolding choose raise_similarity
  select_next s = push s (choose s) (remove_at ((choose s).best_idx) s.remaining)

  abbrev pub and_then :
      Option (Selection F) → (Selection F → Option (Selection F)) → Option (Selection F)
  and_then none next = none
  and_then (some s) next = next s

  unfoldable pub select_all : ℕ → Selection F → Option (Selection F)
  unfolding select_next
  select_all zero s = if is_nil s.remaining then some s else none
  select_all (suc fuel) s =
      if is_nil s.remaining then some s else and_then (select_next s) (select_all fuel)

abbrev pub selected_then :
    {F : Type 0}
    → Option (Selection F)
    → List (RankedCandidate F)
    → Option (List (RankedCandidate F))
selected_then none tail = none
selected_then (some s) tail = some (s.selected ++ tail)

module _ {F : Type 0} (ops : FloatOps F) (to_lowercase : List ℕ → List ℕ) where
  -- The candidates in the order of `compare_baseline`, the first of each App ID.
  unfoldable pub baseline : ℕ → List (RankedCandidate F) → List (RankedCandidate F)
  unfolding retain_first
  baseline tie_seed items = retain_first [] (
      order_by (λ a b. not (is_greater (compare_baseline ops tie_seed a b)))
        (map (with_reason base) items))

  -- The state before the loop.
  unfoldable pub start : List (RankedCandidate F) → Selection F
  unfolding to_remaining
  start window = record {
    remaining = to_remaining ops window;
    mode_guardrail = new_guardrail window;
    selected = [];
    explored = 0;
  }

  -- The `Vec` is not empty where the loop starts, and every round removes one of its candidates.
  unfoldable pub mmr_rerank_with_tie_seed :
      List (RankedCandidate F) → F → ℕ → ℕ → Option (List (RankedCandidate F))
  unfolding baseline start select_all
  mmr_rerank_with_tie_seed items lambda explore_slots tie_seed =
      let sorted = baseline tie_seed items in
      let window = take mmr_window_size sorted in
      let cutoff = relevance_of ops (nth 11 window) in
      if leb (length items) 1
      then some items
      else selected_then
          (select_all ops to_lowercase (unit ops lambda) (min explore_slots 2) tie_seed cutoff
            (length window) (start window))
          (drop mmr_window_size sorted)
