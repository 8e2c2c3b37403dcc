-- ===== src/Recommender/Mmr/Baseline.antt =====
-- `compare_baseline`, `stable_tie_hash` and `relevance` of crates/recommender/src/mmr.rs.
use lobbytally.Base.{ℕ, zero, suc, ◌+◌, ◌*◌, ◌/◌, ◌%◌, ◌^◌, ltb, ◌==◌, if◌then◌else◌}
use lobbytally.Recommender.{
  Ordering, less, equal, greater, then_with, FloatOps, unit, RankedCandidate,
}

-- A bitwise operation on numbers of `bits` bits.
unfoldable pub bitwise : (ℕ → ℕ → ℕ) → ℕ → ℕ → ℕ → ℕ
bitwise f zero a b = 0
bitwise f (suc bits) a b = f (a % 2) (b % 2) + 2 * bitwise f bits (a / 2) (b / 2)

-- `^`, `wrapping_mul` and `wrapping_add` on `u64`.
unfoldable pub xor : ℕ → ℕ → ℕ
unfolding bitwise
xor = bitwise (λ a b. (a + b) % 2) 64

abbrev pub wrapping_mul : ℕ → ℕ → ℕ
wrapping_mul a b = (a * b) % 2 ^ 64

abbrev pub wrapping_add : ℕ → ℕ → ℕ
wrapping_add a b = (a + b) % 2 ^ 64

unfoldable pub stable_tie_hash : ℕ → ℕ → ℕ
unfolding xor
stable_tie_hash seed app_id =
    let v0 = xor seed (wrapping_mul app_id 0x9e3779b97f4a7c15) in
    let v1 = wrapping_add v0 0x9e3779b97f4a7c15 in
    let v2 = wrapping_mul (xor v1 (v1 / 2 ^ 30)) 0xbf58476d1ce4e5b9 in
    let v3 = wrapping_mul (xor v2 (v2 / 2 ^ 27)) 0x94d049bb133111eb in xor v3 (v3 / 2 ^ 31)

unfoldable pub compare_nat : ℕ → ℕ → Ordering
compare_nat a b = if ltb a b then less else if ltb b a then greater else equal

module _ {F : Type 0} (ops : FloatOps F) where
  unfoldable pub relevance : RankedCandidate F → F
  relevance item =
      if ops.is_finite item.score.relevance_score
      then item.score.relevance_score
      else ops.neg_infinity

  unfoldable pub compare_baseline : ℕ → RankedCandidate F → RankedCandidate F → Ordering
  unfolding relevance stable_tie_hash compare_nat
  compare_baseline tie_seed a b = then_with (ops.total_cmp (relevance b) (relevance a)) (
      then_with (ops.total_cmp (unit ops b.data_confidence) (unit ops a.data_confidence)) (
        then_with (ops.total_cmp (unit ops b.score.quality) (unit ops a.score.quality)) (
          then_with (ops.total_cmp (unit ops b.score.freshness) (unit ops a.score.freshness)) (
            then_with
              (if tie_seed == 0
                then equal
                else compare_nat (stable_tie_hash tie_seed a.app_id)
                    (stable_tie_hash tie_seed b.app_id))
              (compare_nat a.app_id b.app_id)))))
