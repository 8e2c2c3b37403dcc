-- ===== src/Base/Text.antt =====
-- `str::trim` and `is_empty` as the code uses them: a text is blank when every character of it is
-- Unicode white space.
use Prim.Native.Nat.{ℕ, ◌+◌}
use Prim.Native.Char.{code}
use Prim.Native.String.{String}
use mathlib.Core.Bool.{Bool, true, false, ◌&&◌, ◌||◌}
use mathlib.Core.List.{List, [], ◌∷◌, map}
use lobbytally.Base.Tests.{◌==◌, in_range, if◌then◌else◌}

-- `char::is_whitespace`: the White_Space property of Unicode.
unfoldable pub is_whitespace : ℕ → Bool
is_whitespace c =
    in_range 9 13 c
    || c == 32
    || c == 0x85
    || c == 0xa0
    || c == 0x1680
    || in_range 0x2000 0x200a c
    || in_range 0x2028 0x2029 c
    || c == 0x202f
    || c == 0x205f
    || c == 0x3000

-- `text.trim().is_empty()`
unfoldable pub is_blank : String → Bool
unfolding is_whitespace
is_blank String.[] = true
is_blank (String.◌∷◌ c s) = is_whitespace (code c) && is_blank s

-- The code points of a text.
abbrev pub codes : String → List ℕ
codes String.[] = []
codes (String.◌∷◌ c s) = code c ∷ codes s

unfoldable pub eq_codes : List ℕ → List ℕ → Bool
eq_codes [] [] = true
eq_codes [] (d ∷ ds) = false
eq_codes (c ∷ cs) [] = false
eq_codes (c ∷ cs) (d ∷ ds) = (c == d) && eq_codes cs ds

-- `str::starts_with` and `str::contains` on code points.
unfoldable pub starts : List ℕ → List ℕ → Bool
starts [] text = true
starts (c ∷ cs) [] = false
starts (c ∷ cs) (d ∷ ds) = (c == d) && starts cs ds

unfoldable pub contains : List ℕ → List ℕ → Bool
unfolding starts
contains part [] = starts part []
contains part (c ∷ cs) = starts part (c ∷ cs) || contains part cs

unfoldable pub trim_start : List ℕ → List ℕ
trim_start [] = []
trim_start (c ∷ cs) = let rest = trim_start cs in if is_whitespace c then rest else c ∷ cs

-- A character before what is left of a text without its trailing white space.
unfoldable pub put_before : ℕ → List ℕ → List ℕ
put_before c [] = if is_whitespace c then [] else c ∷ []
put_before c (d ∷ ds) = c ∷ d ∷ ds

unfoldable pub trim_end : List ℕ → List ℕ
unfolding put_before
trim_end [] = []
trim_end (c ∷ cs) = put_before c (trim_end cs)

unfoldable pub trim : List ℕ → List ℕ
unfolding trim_start trim_end is_whitespace put_before
trim text = trim_end (trim_start text)

-- `str::to_ascii_lowercase`
unfoldable pub to_ascii_lowercase : List ℕ → List ℕ
to_ascii_lowercase = map (λ c. if in_range 65 90 c then c + 32 else c)
