-- ===== src/Recommender/Mmr/Unique.antt =====
-- The baseline order has each App ID once.
use lobbytally.Base.{
  ℕ, ◌≡◌, ◌≢◌, Bool, false, ◌||◌, inl, inr, List, [], ◌∷◌, map, arith, All, All-imp, All-map,
  Bool-cases, ◌==◌,
}
use lobbytally.Table.{Distinct}
use lobbytally.Recommender.{FloatOps, RankedCandidate}
use lobbytally.Recommender.Mmr.Rerank.{contains_id, retain_first, baseline}

neither : (a b : Bool) → (a || b) ≡ false → (a ≡ false) × (b ≡ false)
neither a b h = (ground arith, ground arith)

differ : (m n : ℕ) → (m == n) ≡ false → n ≢ m
differ m n h = ground arith

module _ {F : Type 0} where
  abbrev pub app_ids : List (RankedCandidate F) → List ℕ
  app_ids = map (λ (x : RankedCandidate F). x.app_id)

  abbrev IsNew : List ℕ → RankedCandidate F → Type 0
  IsNew seen x = contains_id seen x.app_id ≡ false

  retain_first-Distinct :
      (seen : List ℕ) (xs : List (RankedCandidate F))
      → All (IsNew seen) (retain_first seen xs) × Distinct (app_ids (retain_first seen xs))
  unfolding retain_first contains_id
  retain_first-Distinct seen [] = (tt, tt)
  retain_first-Distinct seen (x ∷ xs) = elim (Bool-cases (contains_id seen x.app_id)) [
    | inl e ↦ rw e (retain_first-Distinct seen xs)
    | inr e ↦
        let (fresh, apart) = retain_first-Distinct (x.app_id ∷ seen) xs in
        let kept = retain_first (x.app_id ∷ seen) xs in
        let news : All (IsNew seen) kept =
          All-imp kept
            (λ (y : RankedCandidate F) n.
              (neither (x.app_id == y.app_id) (contains_id seen y.app_id) n).1)
            fresh in
        let others : All (λ j. j ≢ x.app_id) (app_ids kept) =
          All-map (λ j. j ≢ x.app_id) (λ (y : RankedCandidate F). y.app_id) kept
            (All-imp kept
              (λ (y : RankedCandidate F) n.
                differ x.app_id y.app_id
                  (neither (x.app_id == y.app_id) (contains_id seen y.app_id) n).0)
              fresh) in
        rw e ((e, news), (others, apart))
  ]

module _ {F : Type 0} (ops : FloatOps F) (to_lowercase : List ℕ → List ℕ) where
  -- In the baseline order no App ID occurs twice, however often the pool has it.
  pub baseline-Distinct :
      (tie_seed : ℕ) (items : List (RankedCandidate F))
      → Distinct (app_ids (baseline ops to_lowercase tie_seed items))
  unfolding baseline
  baseline-Distinct tie_seed items = (retain_first-Distinct [] _).1
