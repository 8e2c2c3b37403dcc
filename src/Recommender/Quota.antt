-- ===== src/Recommender/Quota.antt =====
-- `ensure_fresh_release_quota` of crates/recommender/src/pipeline.rs, which moves fresh releases into
-- the window that users see first. A swap that breaks the guardrail is undone by the same swap, so
-- that the loop goes on with the items as they were.
pub mod Places
pub mod Promotion
pub mod Kept
pub mod Window
mod Examples
use lobbytally.Base.{
  ℕ, zero, suc, ◌+◌, ◌-◌, min, Bool, true, false, not, ◌&&◌, Option, none, some, List, [], ◌∷◌,
  ◌++◌, leb, ◌==◌, if◌then◌else◌, length, take, drop,
}
use lobbytally.Table.{count_where}
use lobbytally.Recommender.{FloatOps, RankedCandidate, explore}
use lobbytally.Recommender.Mmr.Guardrail.{respects_mode_guardrail}
use lobbytally.Recommender.Mmr.Rerank.{with_reason}

module _ {A : Type 0} where
  unfoldable pub get_at : ℕ → List A → Option A
  get_at i [] = none
  get_at zero (x ∷ xs) = some x
  get_at (suc i) (x ∷ xs) = get_at i xs

  unfoldable pub set_at : ℕ → A → List A → List A
  set_at i y [] = []
  set_at zero y (x ∷ xs) = y ∷ xs
  set_at (suc i) y (x ∷ xs) = x ∷ set_at i y xs

  abbrev pub exchange : ℕ → ℕ → Option A → Option A → List A → List A
  exchange i j (some a) (some b) xs = set_at j a (set_at i b xs)
  exchange i j (some a) none xs = xs
  exchange i j none b xs = xs

  -- `slice::swap`, on indices that are in range.
  unfoldable pub swap : ℕ → ℕ → List A → List A
  unfolding get_at set_at
  swap i j xs = exchange i j (get_at i xs) (get_at j xs) xs

module _ {F : Type 0} (ops : FloatOps F) where
  -- `1.0 - FRESH_RELEASE_DAYS / 365.0`
  abbrev pub fresh_release_min_freshness : F
  fresh_release_min_freshness = ops.sub (ops.ratio 1 1) (ops.div (ops.ratio 14 1) (ops.ratio 365 1))

  abbrev pub is_fresh_release : RankedCandidate F → Bool
  is_fresh_release item = ops.at_least item.score.freshness fresh_release_min_freshness

  -- `item.score.freshness < FRESH_RELEASE_MIN_FRESHNESS`, false for NaN.
  abbrev pub is_stale : RankedCandidate F → Bool
  is_stale item =
      ops.at_least fresh_release_min_freshness item.score.freshness && not (is_fresh_release item)

  -- The indices of the fresh releases, from a first index on.
  unfoldable pub sources_from : ℕ → List (RankedCandidate F) → List ℕ
  sources_from i [] = []
  sources_from i (item ∷ items) =
      let rest = sources_from (suc i) items in if is_fresh_release item then i ∷ rest else rest

  -- The indices of the others, the last one first.
  unfoldable pub destinations_from : ℕ → List (RankedCandidate F) → List ℕ
  destinations_from i [] = []
  destinations_from i (item ∷ items) =
      destinations_from (suc i) items ++ (if is_stale item then i ∷ [] else [])

  -- `items[destination].slot_reason = SlotReason::Explore`
  unfoldable pub mark_explore : ℕ → List (RankedCandidate F) → List (RankedCandidate F)
  mark_explore i [] = []
  mark_explore zero (item ∷ items) = with_reason explore item ∷ items
  mark_explore (suc i) (item ∷ items) = item ∷ mark_explore i items

  -- The loop over the destinations: the items after the first swap that respects the guardrail.
  unfoldable pub promote : ℕ → List ℕ → List (RankedCandidate F) → Option (List (RankedCandidate F))
  unfolding swap mark_explore respects_mode_guardrail
  promote source [] items = none
  promote source (destination ∷ destinations) items =
      let swapped = swap destination source items in
      let rest = promote source destinations items in
      if respects_mode_guardrail swapped then some (mark_explore destination swapped) else rest

  -- The loop over the sources.
  unfoldable pub promote_all :
      ℕ → ℕ → ℕ → List ℕ → List (RankedCandidate F) → List (RankedCandidate F)
  unfolding promote destinations_from
  promote_all window missing promoted [] items = items
  promote_all window missing promoted (source ∷ sources) items =
      let rest : List (RankedCandidate F) =
        elim (promote source (destinations_from 0 (take window items)) items) [
          | none ↦ promote_all window missing promoted sources items
          | some items' ↦ promote_all window missing (promoted + 1) sources items'
        ] in
      if leb missing promoted then items else rest

  unfoldable pub ensure_fresh_release_quota :
      ℕ → ℕ → List (RankedCandidate F) → List (RankedCandidate F)
  unfolding promote_all sources_from
  ensure_fresh_release_quota visible quota items =
      let window = min visible (length items) in
      let current = count_where is_fresh_release (take window items) in
      let missing = min quota window - current in
      let sources = sources_from window (drop window items) in
      if window == 0 then items else promote_all window missing 0 sources items
