-- ===== src/Recommender/Mmr/Similarity.antt =====
-- `similarity` of crates/recommender/src/mmr.rs and the comparisons that it weighs. `to_lowercase`
-- on Unicode texts is a parameter.
use lobbytally.Base.{
  ℕ, zero, suc, ◌+◌, ◌*◌, ◌/◌, ◌%◌, max, String, Bool, true, false, not, ◌||◌, Option, none, some,
  List, [], ◌∷◌, ◌==◌, if◌then◌else◌, length, codes, eq_codes, trim,
}
use lobbytally.Table.{select_where}
use lobbytally.Domain.{
  ModeFamily, private_coop, self_hosted, matchmade_pvp, public_world, mixed, generic_multiplayer,
  unknown,
}
use lobbytally.Domain.Alias.{from_alias}
use lobbytally.Recommender.{FloatOps, unit, RankedCandidate, known_mode}

-- COOP is 1, PRIVATE_SESSION 2, SELF_HOSTED 4, MATCHMADE 8, PVP 16 and PUBLIC_WORLD 32.
unfoldable pub mode_capability_mask : ModeFamily → ℕ
mode_capability_mask private_coop = 1 + 2
mode_capability_mask self_hosted = 2 + 4
mode_capability_mask matchmade_pvp = 8 + 16
mode_capability_mask public_world = 32
mode_capability_mask mixed = 1 + 2 + 4 + 8 + 16 + 32
mode_capability_mask generic_multiplayer = 0
mode_capability_mask unknown = 0

-- `count_ones` of a bitwise operation on `u8`: the sum of its bits.
unfoldable pub count_ones : (ℕ → ℕ → ℕ) → ℕ → ℕ → ℕ → ℕ
count_ones f zero a b = 0
count_ones f (suc bits) a b = f (a % 2) (b % 2) + count_ones f bits (a / 2) (b / 2)

module _ {F : Type 0} (ops : FloatOps F) where
  -- The last arm of the `match` of `mode_capability_similarity`, with `&` and `|` on bits.
  unfoldable pub mask_similarity : ModeFamily → ModeFamily → Option F
  unfolding mode_capability_mask count_ones
  mask_similarity a b =
      let a_mask = mode_capability_mask a in
      let b_mask = mode_capability_mask b in
      some (ops.ratio (count_ones (λ x y. x * y) 8 a_mask b_mask) (count_ones max 8 a_mask b_mask))

  unfoldable pub family_similarity : ModeFamily → ModeFamily → Option F
  unfolding mask_similarity
  family_similarity unknown b = none
  family_similarity a unknown = none
  family_similarity generic_multiplayer generic_multiplayer = some (ops.ratio 1 1)
  family_similarity generic_multiplayer b = none
  family_similarity a generic_multiplayer = none
  family_similarity a b = mask_similarity a b

  unfoldable pub mode_capability_similarity : String → String → Option F
  unfolding family_similarity
  mode_capability_similarity a b = family_similarity (from_alias (codes a)) (from_alias (codes b))

  unfoldable pub unset : List ℕ → Bool
  unset [] = true
  unset (c ∷ cs) = false

  module _ (to_lowercase : List ℕ → List ℕ) where
    unfoldable pub normalize_text : String → List ℕ
    normalize_text value = to_lowercase (trim (codes value))

    unfoldable pub exact_text_similarity : String → String → Option F
    unfolding normalize_text unset
    exact_text_similarity a b =
        if unset (normalize_text a) || unset (normalize_text b)
        then none
        else some (
            if eq_codes (normalize_text a) (normalize_text b) then ops.ratio 1 1 else ops.ratio 0 1)

    unfoldable pub holds_tag : List (List ℕ) → List ℕ → Bool
    holds_tag [] tag = false
    holds_tag (t ∷ ts) tag = eq_codes t tag || holds_tag ts tag

    -- The set of the normalized tags that are not empty, as a list without repetition.
    unfoldable pub tag_set : List String → List (List ℕ)
    unfolding normalize_text unset holds_tag
    tag_set [] = []
    tag_set (t ∷ ts) =
        let rest = tag_set ts in
        if unset (normalize_text t) || holds_tag rest (normalize_text t)
        then rest
        else normalize_text t ∷ rest

    unfoldable pub set_similarity : List (List ℕ) → List (List ℕ) → Option F
    unfolding holds_tag
    set_similarity [] b = none
    set_similarity (t ∷ ts) [] = none
    set_similarity (t ∷ ts) (u ∷ us) =
        let intersection = length (select_where (holds_tag (u ∷ us)) (t ∷ ts)) in
        let union =
          length (t ∷ ts) + length (select_where (λ x. not (holds_tag (t ∷ ts) x)) (u ∷ us)) in
        some (ops.ratio intersection union)

    unfoldable pub tag_similarity : List String → List String → Option F
    unfolding tag_set set_similarity
    tag_similarity a b = set_similarity (tag_set a) (tag_set b)

    -- `if let (Some(a), Some(b)) = … && let Some(similarity) = …`
    abbrev pub both : (String → String → Option F) → Option String → Option String → Option F
    both f (some a) (some b) = f a b
    both f none b = none
    both f (some a) none = none

    -- The sums `weighted_sum` and `known_weight` with one more part.
    abbrev pub add_part : ℕ → Option F → F × F → F × F
    add_part percent none sums = sums
    add_part percent (some part) (weighted_sum, known_weight) =
        let weight = ops.ratio percent 100 in
        (ops.add weighted_sum (ops.mul weight part), ops.add known_weight weight)

    unfoldable pub similarity : RankedCandidate F → RankedCandidate F → F
    unfolding tag_similarity mode_capability_similarity exact_text_similarity
    similarity a b =
        let tags = tag_similarity a.taxonomy_tags b.taxonomy_tags in
        let modes = both mode_capability_similarity a.dominant_mode b.dominant_mode in
        let publishers = both exact_text_similarity a.publisher b.publisher in
        let all_series = both exact_text_similarity a.series b.series in
        let (weighted_sum, known_weight) = add_part 15 all_series (
          add_part 15 publishers
            (add_part 25 modes (add_part 45 tags (ops.ratio 0 1, ops.ratio 0 1)))) in
        if a.app_id == b.app_id
        then ops.ratio 1 1
        else if ops.is_zero known_weight
        then ops.ratio 0 1
        else unit ops (ops.div weighted_sum known_weight)

    unfoldable pub has_text : Option String → Bool
    unfolding normalize_text unset
    has_text none = false
    has_text (some value) = not (unset (normalize_text value))

    unfoldable pub has_tag : List String → Bool
    unfolding normalize_text unset
    has_tag [] = false
    has_tag (t ∷ ts) = not (unset (normalize_text t)) || has_tag ts

    abbrev pub is_known : Option ModeFamily → Bool
    is_known none = false
    is_known (some mode) = true

    unfoldable pub has_diversity_metadata : RankedCandidate F → Bool
    unfolding has_text has_tag known_mode
    has_diversity_metadata item =
        has_tag item.taxonomy_tags
        || (is_known (known_mode item) || (has_text item.publisher || has_text item.series))
