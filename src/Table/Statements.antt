-- ===== src/Table/Statements.antt =====
-- Statements that act on each row by itself, and relations that hold row by row.
use lobbytally.Base.{
  ℕ, ◌+◌, ◌≤◌, ◌≡◌, inl, inr, Bool, true, false, refl, Option, none, some, List, [], ◌∷◌, ◌++◌,
  arith, if◌then◌else◌, length, All, Bool-cases, subst,
}

module _ {ℓ} {A : Type ℓ} where
  -- `UPDATE t SET … WHERE p`
  unfoldable pub update_where : (A → Bool) → (A → A) → List A → List A
  update_where p f [] = []
  update_where p f (x ∷ xs) = (if p x then f x else x) ∷ update_where p f xs

  -- the number of rows that `WHERE p` selects
  unfoldable pub count_where : (A → Bool) → List A → ℕ
  count_where p [] = 0
  count_where p (x ∷ xs) = (if p x then 1 else 0) + count_where p xs

  -- `DELETE FROM t WHERE p`
  unfoldable pub delete_where : (A → Bool) → List A → List A
  delete_where p [] = []
  delete_where p (x ∷ xs) = let rest = delete_where p xs in if p x then rest else x ∷ rest

  -- `SELECT … WHERE p`
  unfoldable pub select_where : (A → Bool) → List A → List A
  select_where p [] = []
  select_where p (x ∷ xs) = let rest = select_where p xs in if p x then x ∷ rest else rest

  -- the one row of `SELECT … WHERE p`, where `p` tests a unique key
  unfoldable pub find_where : (A → Bool) → List A → Option A
  find_where p [] = none
  find_where p (x ∷ xs) = if p x then some x else find_where p xs

  pub update_where-All {κ} :
      (P : A → Type κ) (p : A → Bool) (f : A → A) (xs : List A)
      → ((x : A) → P x → p x ≡ true → P (f x))
      → All P xs
      → All P (update_where p f xs)
  unfolding update_where
  update_where-All P p f [] keep h = tt
  update_where-All P p f (x ∷ xs) keep h = elim (Bool-cases (p x)) [
    | inl e ↦ (rw e (keep x h.0 e), update_where-All P p f xs keep h.1)
    | inr e ↦ (rw e h.0, update_where-All P p f xs keep h.1)
  ]

  pub update_where_none :
      (p : A → Bool) (f : A → A) (xs : List A) → count_where p xs ≡ 0 → update_where p f xs ≡ xs
  unfolding update_where count_where
  update_where_none p f [] h = refl
  update_where_none p f (x ∷ xs) h = ground (arith, update_where_none p f xs)

  pub length-delete_where : (p : A → Bool) (xs : List A) → length (delete_where p xs) ≤ length xs
  unfolding delete_where
  length-delete_where p [] = omega arith
  length-delete_where p (x ∷ xs) = ground (arith, length-delete_where p xs)

  pub select_where-All {κ} :
      (P : A → Type κ) (p : A → Bool) (xs : List A)
      → ((x : A) → p x ≡ true → P x)
      → All P (select_where p xs)
  unfolding select_where
  select_where-All P p [] h = tt
  select_where-All P p (x ∷ xs) h = elim (Bool-cases (p x)) [
    | inl e ↦ rw e (h x e, select_where-All P p xs h)
    | inr e ↦ rw e (select_where-All P p xs h)
  ]

  pub find_where_holds :
      (p : A → Bool) (xs : List A) {x : A} → find_where p xs ≡ some x → p x ≡ true
  unfolding find_where
  find_where_holds p [] h = cc
  find_where_holds p (y ∷ xs) {x} h = elim (Bool-cases (p y)) [
    | inl e ↦ let same : some y ≡ some x = rw e at h in cc
    | inr e ↦ find_where_holds p xs (rw e at h)
  ]

  pub find_where-All {κ} :
      (P : A → Type κ) (p : A → Bool) (xs : List A) {x : A}
      → All P xs
      → find_where p xs ≡ some x
      → P x
  unfolding find_where
  find_where-All P p [] all h = cc
  find_where-All P p (y ∷ xs) {x} all h = elim (Bool-cases (p y)) [
    | inl e ↦ let same : some y ≡ some x = rw e at h in let here : y ≡ x = cc in subst P here all.0
    | inr e ↦ find_where-All P p xs all.1 (rw e at h)
  ]

  pub find_where-append :
      (p : A → Bool) (xs ys : List A) {r : A}
      → find_where p xs ≡ some r
      → find_where p (xs ++ ys) ≡ some r
  unfolding find_where
  find_where-append p [] ys {r} h = cc
  find_where-append p (x ∷ xs) ys {r} h = ground (arith, find_where-append p xs ys {r = r})

  pub count_where-append :
      (p : A → Bool) (xs ys : List A)
      → count_where p (xs ++ ys) ≡ count_where p xs + count_where p ys
  unfolding count_where
  count_where-append p [] ys = omega arith
  count_where-append p (x ∷ xs) ys = omega (arith, count_where-append p xs ys)

  pub find_where-none-append :
      (p : A → Bool) (xs ys : List A)
      → find_where p xs ≡ none
      → find_where p (xs ++ ys) ≡ find_where p ys
  unfolding find_where
  find_where-none-append p [] ys h = refl
  find_where-none-append p (x ∷ xs) ys h = ground (arith, find_where-none-append p xs ys)

-- Two tables of the same length whose rows are related one by one.
abbrev pub Rows : {A : Type 0} → (A → A → Type 0) → List A → List A → Type 0
Rows R [] [] = Unit
Rows R [] (y ∷ ys) = ⊥
Rows R (x ∷ xs) [] = ⊥
Rows R (x ∷ xs) (y ∷ ys) = R x y × Rows R xs ys

-- What a row can become in any number of steps.
pub data Star {A : Type 0} (R : A → A → Type 0) (x : A) : A → Type 0 where
  stay : Star R x x
  next : {y z : A} → Star R x y → R y z → Star R x z

module _ {A : Type 0} (R : A → A → Type 0) where
  pub Star-trans : {x y z : A} → Star R x y → Star R y z → Star R x z
  Star-trans s stay = s
  Star-trans s (next t r) = next (Star-trans s t) r

  pub Star-keeps :
      (P : A → Type 0) → ((x y : A) → R x y → P x → P y) → {x y : A} → Star R x y → P x → P y
  Star-keeps P keep stay h = h
  Star-keeps P keep {x} (next {y = y} {z = z} s r) h = keep y z r (Star-keeps P keep s h)

  pub Rows-refl : (xs : List A) → Rows (Star R) xs xs
  Rows-refl [] = tt
  Rows-refl (x ∷ xs) = (stay, Rows-refl xs)

  pub Rows-trans :
      (xs ys zs : List A) → Rows (Star R) xs ys → Rows (Star R) ys zs → Rows (Star R) xs zs
  Rows-trans [] [] [] h k = tt
  Rows-trans (x ∷ xs) (y ∷ ys) (z ∷ zs) h k = (Star-trans h.0 k.0, Rows-trans xs ys zs h.1 k.1)
  Rows-trans [] (y ∷ ys) zs h k = absurd h
  Rows-trans (x ∷ xs) [] zs h k = absurd h
  Rows-trans [] [] (z ∷ zs) h k = absurd k
  Rows-trans (x ∷ xs) (y ∷ ys) [] h k = absurd k

  pub Rows-All :
      (P : A → Type 0)
      → ((x y : A) → R x y → P x → P y)
      → (xs ys : List A) → Rows (Star R) xs ys
      → All P xs
      → All P ys
  Rows-All P keep [] [] h a = tt
  Rows-All P keep (x ∷ xs) (y ∷ ys) h a = (Star-keeps P keep h.0 a.0, Rows-All P keep xs ys h.1 a.1)
  Rows-All P keep [] (y ∷ ys) h a = absurd h
  Rows-All P keep (x ∷ xs) [] h a = absurd h

  -- An update whose change is a step of the relation, wherever its condition holds.
  pub update_where-Rows :
      (p : A → Bool) (f : A → A) (xs : List A)
      → ((x : A) → p x ≡ true → R x (f x))
      → Rows (Star R) xs (update_where p f xs)
  unfolding update_where
  update_where-Rows p f [] h = tt
  update_where-Rows p f (x ∷ xs) h = elim (Bool-cases (p x)) [
    | inl e ↦ (rw e (next stay (h x e)), update_where-Rows p f xs h)
    | inr e ↦ (rw e stay, update_where-Rows p f xs h)
  ]

  -- The row of a key, before and after.
  pub Rows-find_where :
      (p : A → Bool)
      → ((x y : A) → R x y → p x ≡ true → p y ≡ true)
      → ((x y : A) → R x y → p x ≡ false → p y ≡ false)
      → (xs ys : List A) {r : A} → Rows (Star R) xs ys
      → find_where p xs ≡ some r
      → (s : A) × (find_where p ys ≡ some s) × Star R r s
  unfolding find_where
  Rows-find_where p on off [] [] h e = cc
  Rows-find_where p on off [] (y ∷ ys) h e = absurd h
  Rows-find_where p on off (x ∷ xs) [] h e = absurd h
  Rows-find_where p on off (x ∷ xs) (y ∷ ys) {r} h e = elim (Bool-cases (p x)) [
    | inl t ↦
        let same : some x ≡ some r = rw t at e in
        let here : x ≡ r = cc in
        let hit : p y ≡ true = Star-keeps (λ z. p z ≡ true) on h.0 t in
        (y, rw hit, subst (λ z. Star R z y) here h.0)
    | inr f ↦
        let miss : p y ≡ false = Star-keeps (λ z. p z ≡ false) off h.0 f in
        let (s, found, star) = Rows-find_where p on off xs ys h.1 (rw f at e) in
        (s, rw miss found, star)
  ]

  -- Steps that never make a row pass a test make no more rows pass it.
  pub Rows-count_where :
      (p : A → Bool)
      → ((x y : A) → R x y → p x ≡ false → p y ≡ false)
      → (xs ys : List A) → Rows (Star R) xs ys
      → count_where p ys ≤ count_where p xs
  unfolding count_where
  Rows-count_where p off [] [] h = omega arith
  Rows-count_where p off [] (y ∷ ys) h = absurd h
  Rows-count_where p off (x ∷ xs) [] h = absurd h
  Rows-count_where p off (x ∷ xs) (y ∷ ys) h =
      let fewer = Rows-count_where p off xs ys h.1 in
      elim (Bool-cases (p x)) [
        | inl t ↦ ground arith
        | inr f ↦ let miss : p y ≡ false = Star-keeps (λ z. p z ≡ false) off h.0 f in ground arith
      ]
