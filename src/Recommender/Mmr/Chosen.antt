-- ===== src/Recommender/Mmr/Chosen.antt =====
-- The index that a round picks is in range, and what stands there may be chosen.
use lobbytally.Base.{
  ℕ, suc, ◌≡◌, refl, sym, ap, ◌⊎◌, inl, inr, Bool, true, false, ◌&&◌, Option, none, some, List, [],
  ◌∷◌, arith, All, All-map, All-of_map, All-imp, subst, Bool-cases, Option-cases,
}
use lobbytally.Table.{select_where}
use lobbytally.Recommender.{FloatOps, is_greater}
use lobbytally.Recommender.Mmr.Guardrail.{ModeGuardrail, allows}
use lobbytally.Recommender.Mmr.Choice.{
  RemainingCandidate, enumerate, Best, is_better, mmr_value, best_of, index_or_zero, best_mmr_index,
  may_explore, later_max, compare_novelty, max_by, index_of, explore_candidate_index,
}
use lobbytally.Recommender.Mmr.Rerank.{remove_at, put_back}

-- The entry can be removed at its index.
abbrev pub IsAt : {A : Type 0} → List A → ℕ × A → Type 0
IsAt {A} xs (i, x) = (rest : List A) × (remove_at i xs ≡ some (x, rest))

IsAt-suc : {A : Type 0} (x : A) (xs : List A) (e : ℕ × A) → IsAt xs e → IsAt (x ∷ xs) (suc e.0, e.1)
unfolding remove_at
IsAt-suc x xs (i, y) (rest, h) = (x ∷ rest, ap (put_back x) h)

enumerate-IsAt : {A : Type 0} (xs : List A) → All (IsAt xs) (enumerate xs)
unfolding enumerate remove_at
enumerate-IsAt [] = tt
enumerate-IsAt {A} (x ∷ xs) = (
  (xs, refl),
  All-map (IsAt (x ∷ xs)) (λ (e : ℕ × A). (suc e.0, e.1)) (enumerate xs)
      (All-imp (enumerate xs) (IsAt-suc x xs) (enumerate-IsAt xs)),
)

select_where-All :
    {A : Type 0} (Q : A → Type 0) (p : A → Bool) (xs : List A)
    → All Q xs
    → All (λ x. Q x × (p x ≡ true)) (select_where p xs)
unfolding select_where
select_where-All Q p [] h = tt
select_where-All Q p (x ∷ xs) h = elim (Bool-cases (p x)) [
  | inl e ↦ rw e ((h.0, e), select_where-All Q p xs h.1)
  | inr e ↦ rw e (select_where-All Q p xs h.1)
]

module _ {F : Type 0} (ops : FloatOps F) (to_lowercase : List ℕ → List ℕ) (guard : ModeGuardrail)
    (n tie_seed : ℕ) where
  -- An index in range of a candidate that the guardrail allows.
  abbrev pub IsFit : List (RemainingCandidate F) → ℕ → Type 0
  IsFit remaining i =
      (c : RemainingCandidate F) × (rest : List (RemainingCandidate F)) × (remove_at i remaining
        ≡ some (c, rest))
      × (allows guard c.item n ≡ true)

  abbrev pub IsFull : List (RemainingCandidate F) → Type 0
  IsFull = All (λ (c : RemainingCandidate F). allows guard c.item n ≡ false)

  module _ (lambda : F) (remaining : List (RemainingCandidate F)) where
    abbrev FitsBest : Option (Best F) → Type 0
    FitsBest none = Unit
    FitsBest (some best) = IsFit remaining best.index

    best_of-FitsBest :
        (es : List (ℕ × RemainingCandidate F)) (best : Option (Best F))
        → All (IsAt remaining) es
        → FitsBest best
        → FitsBest (best_of ops to_lowercase guard n tie_seed lambda es best)
    unfolding best_of
    best_of-FitsBest [] best h fit = fit
    best_of-FitsBest ((i, c) ∷ es) best h fit =
        elim (Bool-cases
          (allows guard c.item n && is_better ops to_lowercase guard n tie_seed lambda c best)) [
            | inl e ↦ rw e (best_of-FitsBest es _ h.1 (c, h.0.0, h.0.1, and_left _ _ e))
            | inr e ↦ rw e (best_of-FitsBest es best h.1 fit)
          ]
      where
        and_left : (a b : Bool) → (a && b) ≡ true → a ≡ true
        and_left a b h = ground arith

    best_of-some :
        (es : List (ℕ × RemainingCandidate F)) (b : Best F)
        → (best : Best F) × (best_of ops to_lowercase guard n tie_seed lambda es (some b)
            ≡ some best)
    unfolding best_of
    best_of-some [] b = (b, refl)
    best_of-some ((i, c) ∷ es) b =
        elim (Bool-cases (
          allows guard c.item n && is_better ops to_lowercase guard n tie_seed lambda c (some b))) [
            | inl e ↦ rw e (best_of-some es _)
            | inr e ↦ rw e (best_of-some es b)
          ]

    best_of-none :
        (es : List (ℕ × RemainingCandidate F))
        → best_of ops to_lowercase guard n tie_seed lambda es none ≡ none
        → All (λ (e : ℕ × RemainingCandidate F). allows guard e.1.item n ≡ false) es
    unfolding best_of is_better
    best_of-none [] h = tt
    best_of-none ((i, c) ∷ es) h = elim (Bool-cases (allows guard c.item n)) [
      | inl e ↦
          let found : best_of ops to_lowercase guard n tie_seed lambda es (
                some (record {
                  index = i;
                  value = mmr_value ops to_lowercase guard n tie_seed lambda c;
                  item = c.item;
                }))
              ≡ none =
            rw e at h in
          let (best, k) = best_of-some es (record {
            index = i;
            value = mmr_value ops to_lowercase guard n tie_seed lambda c;
            item = c.item;
          }) in
          cc
      | inr e ↦ (e, best_of-none es (rw e at h))
    ]

  enumerate-IsFull :
      (remaining : List (RemainingCandidate F))
      → All
          (λ (e : ℕ × RemainingCandidate F). allows guard e.1.item n ≡ false)
          (enumerate remaining)
      → IsFull remaining
  unfolding enumerate
  enumerate-IsFull [] h = tt
  enumerate-IsFull (c ∷ cs) h = (
    h.0,
    enumerate-IsFull cs (
        All-of_map (λ (e : ℕ × RemainingCandidate F). allows guard e.1.item n ≡ false)
          (λ (e : ℕ × RemainingCandidate F). (suc e.0, e.1)) (enumerate cs) h.1),
  )

  pub best_mmr_index-IsFit :
      (lambda : F) (remaining : List (RemainingCandidate F))
      → IsFit remaining (best_mmr_index ops to_lowercase guard n tie_seed lambda remaining)
        ⊎ ((best_mmr_index ops to_lowercase guard n tie_seed lambda remaining ≡ 0)
            × IsFull remaining)
  unfolding best_mmr_index
  best_mmr_index-IsFit lambda remaining =
      let all = best_of ops to_lowercase guard n tie_seed lambda (enumerate remaining) none in
      let fits =
        best_of-FitsBest lambda remaining (enumerate remaining) none (enumerate-IsAt remaining)
          tt in
      elim (Option-cases all) [
        | inl e ↦ inr (
          ap (index_or_zero ops to_lowercase guard n tie_seed lambda) e,
          enumerate-IsFull remaining (best_of-none lambda remaining (enumerate remaining) e),
        )
        | inr (best, e) ↦ inl (
            subst (λ i. IsFit remaining i)
              (sym (ap (index_or_zero ops to_lowercase guard n tie_seed lambda) e)) (rw e at fits))
      ]

  module _ (remaining : List (RemainingCandidate F)) where
    abbrev Fits : ℕ × RemainingCandidate F → Type 0
    Fits e = IsFit remaining e.0

    abbrev FitsMax : Option (ℕ × RemainingCandidate F) → Type 0
    FitsMax none = Unit
    FitsMax (some e) = Fits e

    later_max-Fits :
        (best : Option (ℕ × RemainingCandidate F)) (e : ℕ × RemainingCandidate F)
        → FitsMax best
        → Fits e
        → Fits (later_max ops to_lowercase guard n tie_seed best e)
    later_max-Fits none e h k = k
    later_max-Fits (some best) e h k =
        elim (Bool-cases
          (is_greater (compare_novelty ops to_lowercase guard n tie_seed best.1 e.1))) [
            | inl y ↦ rw y h
            | inr y ↦ rw y k
          ]

    max_by-Fits :
        (es : List (ℕ × RemainingCandidate F)) (best : Option (ℕ × RemainingCandidate F))
        → All Fits es
        → FitsMax best
        → FitsMax (max_by ops to_lowercase guard n tie_seed es best)
    unfolding max_by
    max_by-Fits [] best h fit = fit
    max_by-Fits (e ∷ es) best h fit = max_by-Fits es _ h.1 (later_max-Fits best e fit h.0)

    explorable-Fits :
        (cutoff : F) (e : ℕ × RemainingCandidate F)
        → IsAt remaining e × (may_explore ops to_lowercase guard n tie_seed cutoff e ≡ true)
        → Fits e
    unfolding may_explore
    explorable-Fits cutoff (i, c) ((rest, h), k) = (c, rest, h, ground arith)

  pub explore_candidate_index-IsFit :
      (cutoff : Option F) (remaining : List (RemainingCandidate F)) (i : ℕ)
      → explore_candidate_index ops to_lowercase guard n tie_seed cutoff remaining ≡ some i
      → IsFit remaining i
  unfolding explore_candidate_index
  explore_candidate_index-IsFit none remaining i h = cc
  explore_candidate_index-IsFit (some cutoff) remaining i h =
      let es =
        select_where (may_explore ops to_lowercase guard n tie_seed cutoff) (enumerate remaining) in
      read (max_by ops to_lowercase guard n tie_seed es none)
        (max_by-Fits remaining es none
          (All-imp es (explorable-Fits remaining cutoff)
            (select_where-All (IsAt remaining) _ (enumerate remaining) (enumerate-IsAt remaining)))
          tt)
        h
    where
      read :
          (m : Option (ℕ × RemainingCandidate F))
          → FitsMax remaining m
          → index_of ops to_lowercase guard n tie_seed m ≡ some i
          → IsFit remaining i
      read none fit h = cc
      read (some (j, c)) fit h = let same : j ≡ i = cc in subst (IsFit remaining) same fit
