-- ===== src/Domain/Spelling.antt =====
-- How a mode is spelled does not matter: case and the white space around it.
use lobbytally.Base.{
  ℕ, ◌≡◌, refl, ap, ◌∙◌, inl, inr, false, List, [], ◌∷◌, map, arith, Bool-cases, is_whitespace,
  trim_start, trim_end, put_before, to_ascii_lowercase, trim, if◌then◌else◌, in_range, ◌+◌,
}
use lobbytally.Domain.Alias.{from_alias, normalize, family_of, join_char}

abbrev lower : ℕ → ℕ
lower c = if in_range 65 90 c then c + 32 else c

is_whitespace-lower : (c : ℕ) → is_whitespace (lower c) ≡ is_whitespace c
unfolding is_whitespace
is_whitespace-lower c = ground arith

lower-lower : (c : ℕ) → lower (lower c) ≡ lower c
lower-lower c = ground arith

map-lower-lower : (cs : List ℕ) → map lower (map lower cs) ≡ map lower cs
map-lower-lower [] = refl
map-lower-lower (c ∷ cs) = rw (lower-lower c, map-lower-lower cs) refl

trim_start-lower : (cs : List ℕ) → trim_start (map lower cs) ≡ map lower (trim_start cs)
unfolding trim_start
trim_start-lower [] = refl
trim_start-lower (c ∷ cs) = elim (Bool-cases (is_whitespace c)) [
  | inl e ↦ rw (is_whitespace-lower c, e) (trim_start-lower cs)
  | inr e ↦ rw (is_whitespace-lower c, e) refl
]

put_before-lower :
    (c : ℕ) (ds : List ℕ) → put_before (lower c) (map lower ds) ≡ map lower (put_before c ds)
unfolding put_before
put_before-lower c [] = elim (Bool-cases (is_whitespace c)) [
  | inl e ↦ rw (is_whitespace-lower c, e) refl
  | inr e ↦ rw (is_whitespace-lower c, e) refl
]
put_before-lower c (d ∷ ds) = refl

trim_end-lower : (cs : List ℕ) → trim_end (map lower cs) ≡ map lower (trim_end cs)
unfolding trim_end
trim_end-lower [] = refl
trim_end-lower (c ∷ cs) =
    ap (put_before (lower c)) (trim_end-lower cs) ∙ put_before-lower c (trim_end cs)

trim_end-trim_end : (cs : List ℕ) → trim_end (trim_end cs) ≡ trim_end cs
unfolding trim_end
trim_end-trim_end [] = refl
trim_end-trim_end (c ∷ cs) = kept c (trim_end cs) (trim_end-trim_end cs)
  where
    kept : (c : ℕ) (ds : List ℕ) → trim_end ds ≡ ds → trim_end (put_before c ds) ≡ put_before c ds
    kept c [] h = elim (Bool-cases (is_whitespace c)) [ inl e ↦ rw e refl | inr e ↦ rw (e, e) refl ]
    kept c (d ∷ ds) h = rw h refl

-- Without its leading white space a text starts with no white space, or is empty.
abbrev Begins : List ℕ → Type 0
Begins [] = Unit
Begins (c ∷ cs) = is_whitespace c ≡ false

trim_start-Begins : (cs : List ℕ) → Begins (trim_start cs)
unfolding trim_start
trim_start-Begins [] = tt
trim_start-Begins (c ∷ cs) = elim (Bool-cases (is_whitespace c)) [
  | inl e ↦ rw e (trim_start-Begins cs)
  | inr e ↦ rw e e
]

Begins-put_before : (c : ℕ) (ds : List ℕ) → is_whitespace c ≡ false → Begins (put_before c ds)
unfolding put_before
Begins-put_before c [] e = rw e e
Begins-put_before c (d ∷ ds) e = e

Begins-trim_end : (cs : List ℕ) → Begins cs → Begins (trim_end cs)
unfolding trim_end
Begins-trim_end [] h = tt
Begins-trim_end (c ∷ cs) h = Begins-put_before c (trim_end cs) h

Begins-trim_start : (cs : List ℕ) → Begins cs → trim_start cs ≡ cs
unfolding trim_start
Begins-trim_start [] h = refl
Begins-trim_start (c ∷ cs) h = rw h refl

trim-trim : (cs : List ℕ) → trim (trim cs) ≡ trim cs
unfolding trim
trim-trim cs =
    ap trim_end (
      Begins-trim_start (trim_end (trim_start cs))
        (Begins-trim_end (trim_start cs) (trim_start-Begins cs)))
    ∙ trim_end-trim_end (trim_start cs)

trim-lower : (cs : List ℕ) → trim (map lower cs) ≡ map lower (trim cs)
unfolding trim
trim-lower cs = ap trim_end (trim_start-lower cs) ∙ trim_end-lower (trim_start cs)

-- `ModeFamily::from_alias` reads an alias as the same family in lower case, and without the white
-- space around it.
pub from_alias-spelling :
    (value : List ℕ)
    → (from_alias (to_ascii_lowercase value) ≡ from_alias value)
      × (from_alias (trim value) ≡ from_alias value)
unfolding from_alias normalize to_ascii_lowercase
from_alias-spelling value = (
  ap (λ (cs : List ℕ). family_of (map join_char cs))
      (ap (map lower) (trim-lower value) ∙ map-lower-lower (trim value)),
  ap (λ (cs : List ℕ). family_of (map join_char (map lower cs))) (trim-trim value),
)
