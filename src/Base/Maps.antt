-- ===== src/Base/Maps.antt =====
-- A `HashMap<String, V>` as the list of its entries; the order is never read.
use mathlib.Core.Path.{◌≡◌, refl, sym, ◌∙◌}
use mathlib.Core.Logic.{inl, inr}
use mathlib.Core.Bool.{Bool, true, false, ◌||◌}
use mathlib.Core.Option.{Option, none, some}
use mathlib.Core.List.{List, [], ◌∷◌}
use Prim.Native.String.{String}
use text.Mathlib.Text.{◌==◌ as str_eq}
use text.Mathlib.TextEquality.{eq_iff}
use lobbytally.Base.Tests.{if◌then◌else◌, Bool-cases}

pub same_name : (s : String) → str_eq s s ≡ true
same_name s = (eq_iff s s).1 refl

-- A text is not equal to two different texts.
pub one_name :
    (key name other : String)
    → str_eq key name ≡ false
    → str_eq key other ≡ true
    → str_eq name other ≡ false
one_name key name other apart same_other = elim (Bool-cases (str_eq name other)) [
  | inl e ↦
      let same : key ≡ name = (eq_iff key other).0 same_other ∙ sym ((eq_iff name other).0 e) in
      let hit : str_eq key name ≡ true = (eq_iff key name).1 same in cc
  | inr e ↦ e
]

-- `names.iter().any(|n| n == name)`
unfoldable pub has_name : List String → String → Bool
has_name [] name = false
has_name (n ∷ ns) name = str_eq n name || has_name ns name

module _ {V : Type 0} where
  unfoldable pub lookup : String → List (String × V) → Option V
  lookup name [] = none
  lookup name ((other, v) ∷ rest) =
      let later = lookup name rest in if str_eq other name then some v else later

  -- `HashMap::insert`
  unfoldable pub store : String → V → List (String × V) → List (String × V)
  store name v [] = (name, v) ∷ []
  store name v ((other, u) ∷ rest) =
      let later = store name v rest in
      if str_eq other name then (name, v) ∷ rest else (other, u) ∷ later

  pub lookup-store :
      (name other : String) (v : V) (entries : List (String × V))
      → lookup other (store name v entries)
        ≡ (if str_eq name other then some v else lookup other entries)
  unfolding lookup store
  lookup-store name other v [] = refl
  lookup-store name other v ((key, u) ∷ rest) = elim (Bool-cases (str_eq key name)) [
    | inl e ↦ let same = (eq_iff key name).0 e in rw (e, same) (joined (str_eq name other))
    | inr e ↦ elim (Bool-cases (str_eq key other)) [
      | inl k ↦ rw (e, k, one_name key name other e k) refl
      | inr k ↦ rw (e, k) (lookup-store name other v rest)
    ]
  ]
    where
      joined :
          (b : Bool)
          → (if b then some v else lookup other rest)
            ≡ (if b then some v else (if b then some u else lookup other rest))
      joined true = refl
      joined false = refl
