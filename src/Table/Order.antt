-- ===== src/Table/Order.antt =====
-- `ORDER BY` as insertion sort: the result is in order and has the rows of the table.
use mathlib.Core.List.{Perm}
use mathlib.Core.List.Perm
use lobbytally.Base.{
  ◌≡◌, inl, inr, ◌⊎◌, Bool, true, false, List, [], ◌∷◌, if◌then◌else◌, All, All-imp, Bool-cases,
}

module _ {A : Type 0} (le : A → A → Bool) where
  unfoldable pub insert_by : A → List A → List A
  insert_by x [] = x ∷ []
  insert_by x (y ∷ ys) = let rest = insert_by x ys in if le x y then x ∷ y ∷ ys else y ∷ rest

  unfoldable pub order_by : List A → List A
  unfolding insert_by
  order_by [] = []
  order_by (x ∷ xs) = insert_by x (order_by xs)

  -- Every row comes before all that follow it.
  abbrev pub InOrder : List A → Type 0
  InOrder [] = Unit
  InOrder (x ∷ xs) = All (λ y. le x y ≡ true) xs × InOrder xs

  pub insert_by-perm : (x : A) (xs : List A) → Perm (x ∷ xs) (insert_by x xs)
  unfolding insert_by
  insert_by-perm x [] = Perm.rfl
  insert_by-perm x (y ∷ ys) = elim (Bool-cases (le x y)) [
    | inl e ↦ rw e Perm.rfl
    | inr e ↦ rw e (Perm.trans (Perm.swap y x ys) (Perm.cons y (insert_by-perm x ys)))
  ]

  pub order_by-perm : (xs : List A) → Perm xs (order_by xs)
  unfolding order_by
  order_by-perm [] = Perm.rfl
  order_by-perm (x ∷ xs) =
      Perm.trans (Perm.cons x (order_by-perm xs)) (insert_by-perm x (order_by xs))

  pub insert_by-All {κ} :
      (P : A → Type κ) (x : A) (xs : List A) → P x → All P xs → All P (insert_by x xs)
  unfolding insert_by
  insert_by-All P x [] p h = (p, tt)
  insert_by-All P x (y ∷ ys) p h = elim (Bool-cases (le x y)) [
    | inl e ↦ rw e (p, h)
    | inr e ↦ rw e (h.0, insert_by-All P x ys p h.1)
  ]

  pub order_by-All {κ} : (P : A → Type κ) (xs : List A) → All P xs → All P (order_by xs)
  unfolding order_by
  order_by-All P [] h = tt
  order_by-All P (x ∷ xs) h = insert_by-All P x (order_by xs) h.0 (order_by-All P xs h.1)

  module _ (total : (x y : A) → (le x y ≡ true) ⊎ (le y x ≡ true))
      (trans : (x y z : A) → le x y ≡ true → le y z ≡ true → le x z ≡ true) where
    insert_by-InOrder : (x : A) (xs : List A) → InOrder xs → InOrder (insert_by x xs)
    unfolding insert_by
    insert_by-InOrder x [] s = (tt, tt)
    insert_by-InOrder x (y ∷ ys) s = elim (Bool-cases (le x y)) [
      | inl e ↦ rw e ((e, All-imp ys (λ z. trans x y z e) s.0), s)
      | inr e ↦
          rw e (insert_by-All (λ z. le y z ≡ true) x ys (other e) s.0, insert_by-InOrder x ys s.1)
    ]
      where
        other : le x y ≡ false → le y x ≡ true
        other e = elim (total x y) [ inl t ↦ cc | inr t ↦ t ]

    pub order_by-InOrder : (xs : List A) → InOrder (order_by xs)
    unfolding order_by
    order_by-InOrder [] = tt
    order_by-InOrder (x ∷ xs) = insert_by-InOrder x (order_by xs) (order_by-InOrder xs)
