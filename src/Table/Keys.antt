-- ===== src/Table/Keys.antt =====
-- Unique keys: what an update that keeps the key does to the row of one key.
use mathlib.Core.Option
use lobbytally.Base.{
  ℕ, ◌≡◌, ◌≢◌, refl, sym, ◌∙◌, inl, inr, Bool, true, false, ◌&&◌, Option, none, some, List, [], ◌∷◌,
  map, arith, if◌then◌else◌, All, All-append, ◌++◌, Bool-cases,
}
use lobbytally.Table.Statements.{update_where, count_where, find_where, Rows, Star, Star-keeps}

-- No value occurs twice.
abbrev pub Distinct : {K : Type 0} → List K → Type 0
Distinct [] = Unit
Distinct (k ∷ ks) = All (λ j. j ≢ k) ks × Distinct ks

-- At most one row passes the test.
abbrev pub Single : {A : Type 0} → (A → Bool) → List A → Type 0
Single p [] = Unit
Single p (x ∷ xs) = (p x ≡ true → All (λ y. p y ≡ false) xs) × Single p xs

abbrev pub hits : {A : Type 0} → (A → Bool) → Option A → ℕ
hits q none = 0
hits q (some x) = if q x then 1 else 0

abbrev pub changed_by : {A : Type 0} → (A → Bool) → (A → A) → A → A
changed_by q f x = if q x then f x else x

module _ {A : Type 0} where
  pub find_where-update_where :
      (p q : A → Bool) (f : A → A) (xs : List A)
      → ((x : A) → p (f x) ≡ p x)
      → find_where p (update_where q f xs) ≡ Option.map (changed_by q f) (find_where p xs)
  unfolding find_where update_where
  find_where-update_where p q f [] keep = refl
  find_where-update_where p q f (x ∷ xs) keep =
      ground (arith, keep x, find_where-update_where p q f xs keep)

  count_where_none :
      (p q : A → Bool) (xs : List A)
      → All (λ y. p y ≡ false) xs
      → count_where (λ x. p x && q x) xs ≡ 0
  unfolding count_where
  count_where_none p q [] h = refl
  count_where_none p q (x ∷ xs) h = rw h.0 (ground (arith, count_where_none p q xs h.1))

  -- The count that an `UPDATE` on a unique key reports.
  pub count_where-hits :
      (p q : A → Bool) (xs : List A)
      → Single p xs
      → count_where (λ x. p x && q x) xs ≡ hits q (find_where p xs)
  unfolding count_where find_where
  count_where-hits p q [] s = refl
  count_where-hits p q (x ∷ xs) s = elim (Bool-cases (p x)) [
    | inl e ↦ rw e (ground (arith, count_where_none p q xs (s.0 e)))
    | inr e ↦ rw e (ground (arith, count_where-hits p q xs s.1))
  ]

module _ {A K : Type 0} (key : A → K) where
  pub map-update_where :
      (q : A → Bool) (f : A → A) (xs : List A)
      → ((x : A) → key (f x) ≡ key x)
      → map key (update_where q f xs) ≡ map key xs
  unfolding update_where
  map-update_where q f [] keep = refl
  map-update_where q f (x ∷ xs) keep = elim (Bool-cases (q x)) [
    | inl e ↦ rw (e, keep x, map-update_where q f xs keep)
    | inr e ↦ rw (e, map-update_where q f xs keep)
  ]

  pub Single-of :
      (p : A → Bool) (k : K) (xs : List A)
      → ((x : A) → p x ≡ true → key x ≡ k)
      → Distinct (map key xs)
      → Single p xs
  Single-of p k [] at d = tt
  Single-of p k (x ∷ xs) at d = (λ e. others xs (at x e) d.0, Single-of p k xs at d.1)
    where
      others :
          (ys : List A) → key x ≡ k → All (λ j. j ≢ key x) (map key ys) → All (λ y. p y ≡ false) ys
      others [] e h = tt
      others (y ∷ ys) e h = (
        elim (Bool-cases (p y)) [ inl t ↦ absurd (h.0 (at y t ∙ sym e)) | inr f ↦ f ],
        others ys e h.1,
      )

-- A value that a list does not have can be put at its end.
pub Distinct-snoc :
    {K : Type 0} (k : K) (ks : List K) → Distinct ks → All (λ j. j ≢ k) ks → Distinct (ks ++ k ∷ [])
Distinct-snoc k [] d f = (tt, tt)
Distinct-snoc k (j ∷ ks) d f =
    (All-append (λ i. i ≢ j) ks (k ∷ []) d.0 ((λ e. f.0 (sym e)), tt), Distinct-snoc k ks d.1 f.1)

module _ {A K : Type 0} (R : A → A → Type 0) (key : A → K)
    (keep : (x y : A) → R x y → key y ≡ key x) where
  -- Steps that keep a column keep the column of the table.
  pub Rows-map : (xs ys : List A) → Rows (Star R) xs ys → map key ys ≡ map key xs
  Rows-map [] [] h = refl
  Rows-map [] (y ∷ ys) h = absurd h
  Rows-map (x ∷ xs) [] h = absurd h
  Rows-map (x ∷ xs) (y ∷ ys) h =
      let same : key y ≡ key x =
        Star-keeps R (λ z. key z ≡ key x) (λ z w r e. keep z w r ∙ e) h.0 refl in
      cc (same, Rows-map xs ys h.1)
