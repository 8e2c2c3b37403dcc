-- ===== src/Recommender/Mmr/Tally.antt =====
-- Sums over candidates, and the counts of the guardrail as such sums.
use lobbytally.Base.{
  ℕ, zero, suc, ◌+◌, ◌≤◌, ◌<◌, ◌≡◌, refl, sym, ap, ◌∙◌, ◌⊎◌, true, false, String, Option, none,
  some, List, [], ◌∷◌, ◌++◌, arith, length, Bool-cases, inl, inr, ◌==◌, if◌then◌else◌, codes,
}
use lobbytally.Domain.{
  ModeFamily, private_coop, self_hosted, matchmade_pvp, public_world, mixed, generic_multiplayer,
  unknown,
}
use lobbytally.Domain.Alias.{from_alias}
use lobbytally.Recommender.{RankedCandidate, then_known, known_family, known_mode}
use lobbytally.Recommender.Mmr.Guardrail.{
  ModeCounts, family_index, bump, bump_known, families, sum_of, one_unknown, has_room,
  available_per_mode, unknown_count,
}
use lobbytally.Recommender.Mmr.Rerank.{remove_at, put_back}

-- A mode counts one candidate or none.
abbrev pub one_of_mode : Option ModeFamily → ModeFamily → ℕ
one_of_mode none mode = 0
one_of_mode (some m) mode = if family_index m == family_index mode then 1 else 0

pub bump_known-one :
    (o : Option ModeFamily) (counts : ModeCounts) (mode : ModeFamily)
    → bump_known o counts mode ≡ one_of_mode o mode + counts mode
unfolding bump
bump_known-one none counts mode = omega arith
bump_known-one (some m) counts mode = ground arith

family_at : ℕ → ModeFamily
family_at n =
    if n == 0
    then private_coop
    else if n == 1
    then self_hosted
    else if n == 2
    then matchmade_pvp
    else if n == 3
    then public_world
    else if n == 4
    then mixed
    else if n == 5
    then generic_multiplayer
    else unknown

family_at-family_index : (m : ModeFamily) → family_at (family_index m) ≡ m
unfolding family_at
family_at-family_index private_coop = refl
family_at-family_index self_hosted = refl
family_at-family_index matchmade_pvp = refl
family_at-family_index public_world = refl
family_at-family_index mixed = refl
family_at-family_index generic_multiplayer = refl
family_at-family_index unknown = refl

same_family : (a b : ModeFamily) → family_index a ≡ family_index b → a ≡ b
same_family a b e = sym (family_at-family_index a) ∙ ap family_at e ∙ family_at-family_index b

-- A candidate with room keeps every count within the bound.
pub has_room-one :
    (counts : ModeCounts) (bound : ℕ) (o : Option ModeFamily) (mode : ModeFamily)
    → has_room counts bound o ≡ true
    → counts mode ≤ bound
    → one_of_mode o mode + counts mode ≤ bound
has_room-one counts bound none mode h k = omega (arith, k)
has_room-one counts bound (some m) mode h k =
    elim (Bool-cases (family_index m == family_index mode)) [
      | inl e ↦
          let same = same_family m mode (ground arith) in
          let below : counts m < bound = ground arith in rw (e, sym same) (omega (arith, below))
      | inr e ↦ rw e (omega (arith, k))
    ]

-- Where there is no room the mode is known and at the bound.
pub has_room-one_false :
    (counts : ModeCounts) (bound : ℕ) (o : Option ModeFamily)
    → has_room counts bound o ≡ false
    → (one_unknown o ≡ 0) × ((mode : ModeFamily) → (one_of_mode o mode ≡ 0) ⊎ (bound ≤ counts mode))
has_room-one_false counts bound none h = cc
has_room-one_false counts bound (some m) h = (refl, λ mode. at mode)
  where
    at : (mode : ModeFamily) → (one_of_mode (some m) mode ≡ 0) ⊎ (bound ≤ counts mode)
    at mode = elim (Bool-cases (family_index m == family_index mode)) [
      | inl e ↦
          let same = same_family m mode (ground arith) in
          let full : bound ≤ counts m = ground arith in inr (rw (sym same) full)
      | inr e ↦ inl (rw e refl)
    ]

-- A candidate counts once: as unknown, or for one family of the list.
abbrev pub CountsOnce : Option ModeFamily → Type 0
CountsOnce o = one_unknown o + sum_of (one_of_mode o) families ≡ 1

then_known-CountsOnce : (m : ModeFamily) → CountsOnce (then_known m)
unfolding sum_of
then_known-CountsOnce private_coop = refl
then_known-CountsOnce self_hosted = refl
then_known-CountsOnce matchmade_pvp = refl
then_known-CountsOnce public_world = refl
then_known-CountsOnce mixed = refl
then_known-CountsOnce generic_multiplayer = refl
then_known-CountsOnce unknown = refl

known_family-CountsOnce : (o : Option String) → CountsOnce (known_family o)
unfolding sum_of
known_family-CountsOnce none = refl
known_family-CountsOnce (some text) = then_known-CountsOnce (from_alias (codes text))

pub sum_of-eq :
    (f g : ModeFamily → ℕ) (ms : List ModeFamily)
    → ((m : ModeFamily) → f m ≡ g m)
    → sum_of f ms ≡ sum_of g ms
unfolding sum_of
sum_of-eq f g [] h = refl
sum_of-eq f g (m ∷ ms) h = omega (arith, h m, sum_of-eq f g ms h)

sum_of-add :
    (f g : ModeFamily → ℕ) (ms : List ModeFamily)
    → sum_of (λ m. f m + g m) ms ≡ sum_of f ms + sum_of g ms
unfolding sum_of
sum_of-add f g [] = refl
sum_of-add f g (m ∷ ms) = omega (arith, sum_of-add f g ms)

sum_of-zero : (ms : List ModeFamily) → sum_of (λ m. 0) ms ≡ 0
unfolding sum_of
sum_of-zero [] = refl
sum_of-zero (m ∷ ms) = omega (arith, sum_of-zero ms)

-- The sum of a number for each entry.
unfoldable pub total : {A : Type 0} → (A → ℕ) → List A → ℕ
total f [] = 0
total f (x ∷ xs) = f x + total f xs

module _ {A : Type 0} (f : A → ℕ) where
  pub total-append : (xs ys : List A) → total f (xs ++ ys) ≡ total f xs + total f ys
  unfolding total
  total-append [] ys = omega arith
  total-append (x ∷ xs) ys = omega (arith, total-append xs ys)

  pub total-remove_at :
      (i : ℕ) (xs : List A) (x : A) (rest : List A)
      → remove_at i xs ≡ some (x, rest)
      → total f xs ≡ f x + total f rest
  unfolding total remove_at
  total-remove_at i [] x rest h = cc
  total-remove_at zero (y ∷ ys) x rest h =
      let a : y ≡ x = cc in let b : ys ≡ rest = cc in rw (a, b) refl
  total-remove_at (suc i) (y ∷ ys) x rest h = split (total-remove_at i ys) (remove_at i ys) refl h
    where
      split :
          ((z : A) (zs : List A) → remove_at i ys ≡ some (z, zs) → total f ys ≡ f z + total f zs)
          → (o : Option (A × List A)) → remove_at i ys ≡ o
          → put_back y o ≡ some (x, rest)
          → f y + total f ys ≡ f x + total f rest
      split inner none e k = cc
      split inner (some (z, zs)) e k =
          let a : z ≡ x = cc in
          let b : y ∷ zs ≡ rest = cc in rw (sym a, sym b) (omega (arith, inner z zs e))

module _ {F : Type 0} where
  abbrev pub of_mode : ModeFamily → RankedCandidate F → ℕ
  of_mode mode item = one_of_mode (known_mode item) mode

  abbrev pub of_none : RankedCandidate F → ℕ
  of_none item = one_unknown (known_mode item)

  pub available-total :
      (xs : List (RankedCandidate F)) (mode : ModeFamily)
      → available_per_mode xs mode ≡ total (of_mode mode) xs
  unfolding available_per_mode total
  available-total [] mode = refl
  available-total (x ∷ xs) mode =
      omega
        (arith, bump_known-one (known_mode x) (available_per_mode xs) mode, available-total xs mode)

  pub unknown-total : (xs : List (RankedCandidate F)) → unknown_count xs ≡ total of_none xs
  unfolding unknown_count total
  unknown-total [] = refl
  unknown-total (x ∷ xs) = omega (arith, unknown-total xs)

  pub length-total :
      (xs : List (RankedCandidate F))
      → length xs ≡ total of_none xs + sum_of (λ m. total (of_mode m) xs) families
  unfolding total known_mode
  length-total [] = omega (arith, sum_of-zero families)
  length-total (x ∷ xs) = omega (
    arith,
    length-total xs,
    known_family-CountsOnce x.dominant_mode,
    sum_of-add (one_of_mode (known_mode x)) (λ m. total (of_mode m) xs) families,
  )
