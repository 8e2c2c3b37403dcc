-- ===== src/Recommender/Quota/Places.antt =====
-- Entries of a list by their places: what replacing and swapping them does to counts.
use lobbytally.Base.{
  ℕ, zero, suc, ◌+◌, ◌<◌, ◌≤◌, ◌≡◌, ◌≢◌, refl, ap, ◌∙◌, inl, inr, Bool, some, List, [], ◌∷◌,
  if◌then◌else◌, take, Option-cases, arith,
}
use lobbytally.Table.{count_where}
use lobbytally.Recommender.Quota.{get_at, set_at, swap}

abbrev pub one_if : Bool → ℕ
one_if b = if b then 1 else 0

module _ {A : Type 0} where
  pub count_where-set_at :
      (p : A → Bool) (i : ℕ) (a b : A) (xs : List A)
      → get_at i xs ≡ some a
      → count_where p (set_at i b xs) + one_if (p a) ≡ count_where p xs + one_if (p b)
  unfolding get_at set_at count_where
  count_where-set_at p i a b [] h = cc
  count_where-set_at p zero a b (x ∷ xs) h = let same : x ≡ a = cc in rw same (omega arith)
  count_where-set_at p (suc i) a b (x ∷ xs) h = omega (arith, count_where-set_at p i a b xs h)

  pub get_at-set_at_other :
      (i j : ℕ) (b : A) (xs : List A) → i ≢ j → get_at j (set_at i b xs) ≡ get_at j xs
  unfolding get_at set_at
  get_at-set_at_other i j b [] h = refl
  get_at-set_at_other zero zero b (x ∷ xs) h = absurd (h refl)
  get_at-set_at_other zero (suc j) b (x ∷ xs) h = refl
  get_at-set_at_other (suc i) zero b (x ∷ xs) h = refl
  get_at-set_at_other (suc i) (suc j) b (x ∷ xs) h =
      get_at-set_at_other i j b xs (λ e. h (ap suc e))

  -- After the entry `b` of place j was put at place i, place j still has it.
  get_at-set_at :
      (i j : ℕ) (b : A) (xs : List A) → get_at j xs ≡ some b → get_at j (set_at i b xs) ≡ some b
  unfolding get_at set_at
  get_at-set_at i j b [] h = h
  get_at-set_at zero zero b (x ∷ xs) h = refl
  get_at-set_at zero (suc j) b (x ∷ xs) h = h
  get_at-set_at (suc i) zero b (x ∷ xs) h = h
  get_at-set_at (suc i) (suc j) b (x ∷ xs) h = get_at-set_at i j b xs h

  pub take-set_at :
      (w i : ℕ) (b : A) (xs : List A) → take w (set_at i b xs) ≡ set_at i b (take w xs)
  unfolding set_at
  take-set_at zero i b xs = refl
  take-set_at (suc w) i b [] = refl
  take-set_at (suc w) zero b (x ∷ xs) = refl
  take-set_at (suc w) (suc i) b (x ∷ xs) = ap (◌∷◌ x) (take-set_at w i b xs)

  pub set_at-take_outside :
      (w i : ℕ) (b : A) (xs : List A) → w ≤ i → set_at i b (take w xs) ≡ take w xs
  unfolding set_at
  set_at-take_outside zero i b xs h = refl
  set_at-take_outside (suc w) i b [] h = refl
  set_at-take_outside (suc w) zero b (x ∷ xs) h = absurd (clash h)
    where
      clash : suc w ≤ 0 → ⊥
      clash k = omega (arith, k)
  set_at-take_outside (suc w) (suc i) b (x ∷ xs) h =
      ap (◌∷◌ x) (set_at-take_outside w i b xs (omega (arith, h)))

  pub get_at-take : (w i : ℕ) (xs : List A) → i < w → get_at i (take w xs) ≡ get_at i xs
  unfolding get_at
  get_at-take zero i xs h = absurd (clash h)
    where
      clash : i < 0 → ⊥
      clash k = omega (arith, k)
  get_at-take (suc w) i [] h = refl
  get_at-take (suc w) zero (x ∷ xs) h = refl
  get_at-take (suc w) (suc i) (x ∷ xs) h = get_at-take w i xs (omega (arith, h))

  -- A swap changes no count.
  pub count_where-swap :
      (p : A → Bool) (i j : ℕ) (xs : List A) → count_where p (swap i j xs) ≡ count_where p xs
  unfolding swap
  count_where-swap p i j xs = elim (Option-cases (get_at i xs)) [
    | inl absent ↦ rw absent refl
    | inr (a, at_i) ↦ elim (Option-cases (get_at j xs)) [
      | inl absent ↦ rw (at_i, absent) refl
      | inr (b, at_j) ↦
          rw (at_i, at_j)
            (omega (
              arith,
              count_where-set_at p i a b xs at_i,
              count_where-set_at p j b a (set_at i b xs) (get_at-set_at i j b xs at_j),
            ))
    ]
  ]

  -- What a swap of a place of the window with one behind it does to the window.
  pub count_where-take-swap :
      (p : A → Bool) (w i j : ℕ) (a b : A) (xs : List A)
      → get_at i xs ≡ some a
      → get_at j xs ≡ some b
      → i < w
      → w ≤ j
      → count_where p (take w (swap i j xs)) + one_if (p a)
        ≡ count_where p (take w xs) + one_if (p b)
  unfolding swap
  count_where-take-swap p w i j a b xs at_i at_j inside outside =
      rw (at_i, at_j)
        (rw
          (
            take-set_at w j a (set_at i b xs),
            set_at-take_outside w j a (set_at i b xs) outside,
            take-set_at w i b xs,
          )
          (count_where-set_at p i a b (take w xs) (get_at-take w i xs inside ∙ at_i)))

  pub get_at-swap_other :
      (i j k : ℕ) (xs : List A) → i ≢ k → j ≢ k → get_at k (swap i j xs) ≡ get_at k xs
  unfolding swap
  get_at-swap_other i j k xs h g = elim (Option-cases (get_at i xs)) [
    | inl absent ↦ rw absent refl
    | inr (a, at_i) ↦ elim (Option-cases (get_at j xs)) [
      | inl absent ↦ rw (at_i, absent) refl
      | inr (b, at_j) ↦
          rw (at_i, at_j)
            (get_at-set_at_other j k a (set_at i b xs) g ∙ get_at-set_at_other i k b xs h)
    ]
  ]
