-- ===== src/Recommender.antt =====
-- crates/recommender/src/lib.rs and the candidates of crates/recommender/src/pipeline.rs. Floating
-- point numbers are a parameter: a type with the operations that the code uses. A candidate has the
-- fields that the re-ranking reads or writes; it carries the others along unread.
pub mod Mmr
pub mod Quota
use lobbytally.Base.{ℕ, String, Bool, true, false, Option, none, some, List, if◌then◌else◌, codes}
use lobbytally.Domain.{ModeFamily, unknown}
use lobbytally.Domain.Alias.{from_alias}

pub data Ordering : Type 0 where
  less equal greater : Ordering

-- `Ordering::then_with`, `Ordering::reverse` and `== Ordering::Greater`.
abbrev pub then_with : Ordering → Ordering → Ordering
then_with less next = less
then_with equal next = next
then_with greater next = greater

abbrev pub reverse : Ordering → Ordering
reverse less = greater
reverse equal = equal
reverse greater = less

abbrev pub is_greater : Ordering → Bool
is_greater greater = true
is_greater _ = false

-- The operations of `f64`. `ratio n d` is the literal or quotient `n / d`.
pub record FloatOps (F : Type 0) : Type 0 where
  pub add : F → F → F
  pub sub : F → F → F
  pub mul : F → F → F
  pub div : F → F → F
  pub max_of : F → F → F
  pub abs : F → F
  pub clamp_unit : F → F
  pub ratio : ℕ → ℕ → F
  pub neg_infinity : F
  pub is_nan : F → Bool
  pub is_finite : F → Bool
  pub is_zero : F → Bool
  pub at_least : F → F → Bool
  pub total_cmp : F → F → Ordering

unfoldable pub unit : {F : Type 0} → FloatOps F → F → F
unit ops value = if ops.is_nan value then ops.ratio 0 1 else ops.clamp_unit value

pub data SlotReason : Type 0 where
  base diversity explore : SlotReason

pub record ScoreBreakdown (F : Type 0) : Type 0 where
  pub relevance_score : F
  pub quality : F
  pub freshness : F

pub record RankedCandidate (F : Type 0) : Type 0 where
  pub app_id : ℕ
  pub dominant_mode : Option String
  pub taxonomy_tags : List String
  pub publisher : Option String
  pub series : Option String
  pub data_confidence : F
  pub score : ScoreBreakdown F
  pub slot_reason : SlotReason

-- `(mode != ModeFamily::Unknown).then_some(mode)`
abbrev pub then_known : ModeFamily → Option ModeFamily
then_known unknown = none
then_known mode = some mode

abbrev pub known_family : Option String → Option ModeFamily
known_family none = none
known_family (some text) = then_known (from_alias (codes text))

unfoldable pub known_mode : {F : Type 0} → RankedCandidate F → Option ModeFamily
known_mode item = known_family item.dominant_mode
