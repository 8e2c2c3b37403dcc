-- ===== src/Table/Selection.antt =====
-- What `SELECT … WHERE … ORDER BY … LIMIT` keeps of the rows of a table: what holds of each row,
-- and that no two share a key.
use lobbytally.Base.{
  ℕ, zero, suc, ◌≡◌, ◌≢◌, sym, inl, inr, Bool, true, List, [], ◌∷◌, map, take, All, All-take,
  All-map, All-of_map, Bool-cases,
}
use lobbytally.Table.Statements.{select_where}
use lobbytally.Table.Keys.{Distinct}
use lobbytally.Table.Order.{insert_by, order_by, insert_by-All, InOrder}

module _ {A K : Type 0} (key : A → K) where
  abbrev pub Apart : List A → Type 0
  Apart xs = Distinct (map key xs)

  Away : A → List A → Type 0
  Away x xs = All (λ k. k ≢ key x) (map key xs)

  select_where-Away : (p : A → Bool) (x : A) (xs : List A) → Away x xs → Away x (select_where p xs)
  unfolding select_where Away
  select_where-Away p x [] h = tt
  select_where-Away p x (y ∷ ys) h = elim (Bool-cases (p y)) [
    | inl e ↦ rw e (h.0, select_where-Away p x ys h.1)
    | inr e ↦ rw e (select_where-Away p x ys h.1)
  ]

  pub select_where-Apart : (p : A → Bool) (xs : List A) → Apart xs → Apart (select_where p xs)
  unfolding select_where Away
  select_where-Apart p [] d = tt
  select_where-Apart p (x ∷ xs) d = elim (Bool-cases (p x)) [
    | inl e ↦ rw e (select_where-Away p x xs d.0, select_where-Apart p xs d.1)
    | inr e ↦ rw e (select_where-Apart p xs d.1)
  ]

  insert_by-Apart :
      (le : A → A → Bool) (x : A) (xs : List A) → Away x xs → Apart xs → Apart (insert_by le x xs)
  unfolding insert_by Away
  insert_by-Apart le x [] h d = (tt, tt)
  insert_by-Apart le x (y ∷ ys) h d = elim (Bool-cases (le x y)) [
    | inl e ↦ rw e (h, d)
    | inr e ↦ rw e (
      All-map (λ k. k ≢ key y) key (insert_by le x ys)
          (insert_by-All le (λ z. key z ≢ key y) x ys (λ same. h.0 (sym same))
            (All-of_map (λ k. k ≢ key y) key ys d.0)),
      insert_by-Apart le x ys h.1 d.1,
    )
  ]

  pub order_by-Apart : (le : A → A → Bool) (xs : List A) → Apart xs → Apart (order_by le xs)
  unfolding order_by Away
  order_by-Apart le [] d = tt
  order_by-Apart le (x ∷ xs) d =
      insert_by-Apart le x (order_by le xs) (order_away x xs d.0) (order_by-Apart le xs d.1)
    where
      order_away : (x : A) (ys : List A) → Away x ys → Away x (order_by le ys)
      order_away x [] h = tt
      order_away x (y ∷ ys) h =
          All-map (λ k. k ≢ key x) key (insert_by le y (order_by le ys))
            (insert_by-All le (λ z. key z ≢ key x) y (order_by le ys) h.0
              (All-of_map (λ k. k ≢ key x) key (order_by le ys) (order_away x ys h.1)))

  take-Away : (n : ℕ) (x : A) (xs : List A) → Away x xs → Away x (take n xs)
  unfolding Away
  take-Away zero x xs h = tt
  take-Away (suc n) x [] h = tt
  take-Away (suc n) x (y ∷ ys) h = (h.0, take-Away n x ys h.1)

  pub take-Apart : (n : ℕ) (xs : List A) → Apart xs → Apart (take n xs)
  unfolding Away
  take-Apart zero xs d = tt
  take-Apart (suc n) [] d = tt
  take-Apart (suc n) (x ∷ xs) d = (take-Away n x xs d.0, take-Apart n xs d.1)

module _ {A : Type 0} where
  pub take-InOrder :
      (le : A → A → Bool) (n : ℕ) (xs : List A) → InOrder le xs → InOrder le (take n xs)
  take-InOrder le zero xs s = tt
  take-InOrder le (suc n) [] s = tt
  take-InOrder le (suc n) (x ∷ xs) s =
      (All-take (λ y. le x y ≡ true) n xs s.0, take-InOrder le n xs s.1)

  pub select_where-keeps {κ} :
      (P : A → Type κ) (p : A → Bool) (xs : List A)
      → All P xs
      → All (λ x. P x × (p x ≡ true)) (select_where p xs)
  unfolding select_where
  select_where-keeps P p [] h = tt
  select_where-keeps P p (x ∷ xs) h = elim (Bool-cases (p x)) [
    | inl e ↦ rw e ((h.0, e), select_where-keeps P p xs h.1)
    | inr e ↦ rw e (select_where-keeps P p xs h.1)
  ]
