-- ===== src/Recommender/Mmr/Guardrail.antt =====
-- `ModeGuardrail` of crates/recommender/src/mmr.rs. A `HashMap<ModeFamily, usize>` is a function that
-- is 0 on a family without an entry.
use lobbytally.Base.{
  ℕ, ◌+◌, ◌*◌, ◌/◌, min, Bool, true, not, ◌&&◌, ◌||◌, Option, none, some, List, [], ◌∷◌, ltb, leb,
  ◌==◌, if◌then◌else◌, length, take,
}
use lobbytally.Domain.{
  ModeFamily, private_coop, self_hosted, matchmade_pvp, public_world, mixed, generic_multiplayer,
  unknown,
}
use lobbytally.Recommender.{RankedCandidate, known_mode}

abbrev pub mode_guardrail_top_k : ℕ
mode_guardrail_top_k = 20

-- The place of a family in the enumeration, which tells the families apart.
abbrev pub family_index : ModeFamily → ℕ
family_index private_coop = 0
family_index self_hosted = 1
family_index matchmade_pvp = 2
family_index public_world = 3
family_index mixed = 4
family_index generic_multiplayer = 5
family_index unknown = 6

abbrev pub ModeCounts : Type 0
ModeCounts = ModeFamily → ℕ

-- `*counts.entry(mode).or_default() += 1`
unfoldable pub bump : ModeFamily → ModeCounts → ModeCounts
bump mode counts other =
    if family_index mode == family_index other then counts other + 1 else counts other

abbrev pub bump_known : Option ModeFamily → ModeCounts → ModeCounts
bump_known none counts = counts
bump_known (some mode) counts = bump mode counts

-- The families that a known mode can be.
abbrev pub families : List ModeFamily
families =
    private_coop ∷ self_hosted ∷ matchmade_pvp ∷ public_world ∷ mixed ∷ generic_multiplayer ∷ []

unfoldable pub sum_of : (ModeFamily → ℕ) → List ModeFamily → ℕ
sum_of f [] = 0
sum_of f (m ∷ ms) = f m + sum_of f ms

pub record ModeGuardrail : Type 0 where
  pub enabled : Bool
  pub top_k : ℕ
  pub max_per_mode : ℕ
  pub selected_per_mode : ModeCounts

abbrev pub one_unknown : Option ModeFamily → ℕ
one_unknown none = 1
one_unknown (some mode) = 0

-- Whether the count of a mode has room below the bound; an unknown mode always has.
abbrev pub has_room : ModeCounts → ℕ → Option ModeFamily → Bool
has_room counts max_per_mode none = true
has_room counts max_per_mode (some mode) = ltb (counts mode) max_per_mode

module _ {F : Type 0} where
  unfoldable pub available_per_mode : List (RankedCandidate F) → ModeCounts
  available_per_mode [] mode = 0
  available_per_mode (item ∷ items) mode =
      bump_known (known_mode item) (available_per_mode items) mode

  unfoldable pub unknown_count : List (RankedCandidate F) → ℕ
  unknown_count [] = 0
  unknown_count (item ∷ items) = one_unknown (known_mode item) + unknown_count items

  unfoldable pub feasible_capacity : ℕ → List (RankedCandidate F) → ℕ
  unfolding sum_of available_per_mode unknown_count
  feasible_capacity max_per_mode items =
      unknown_count items
      + sum_of (λ mode. min (available_per_mode items mode) max_per_mode) families

  -- `ModeGuardrail::new`
  unfoldable pub new_guardrail : List (RankedCandidate F) → ModeGuardrail
  unfolding feasible_capacity available_per_mode sum_of
  new_guardrail items =
      let top_k = min (length items) mode_guardrail_top_k in
      let max_per_mode = (top_k * 3) / 5 in
      let entries = sum_of (λ mode. min (available_per_mode items mode) 1) families in
      record {
        enabled =
            ltb 0 top_k
            && (ltb 0 max_per_mode
                && (leb 3 entries && leb top_k (feasible_capacity max_per_mode items)));
        top_k = top_k;
        max_per_mode = max_per_mode;
        selected_per_mode = λ mode. 0;
      }

  unfoldable pub allows : ModeGuardrail → RankedCandidate F → ℕ → Bool
  allows guard item selected_len =
      if not guard.enabled || leb guard.top_k selected_len
      then true
      else has_room guard.selected_per_mode guard.max_per_mode (known_mode item)

  -- `ModeGuardrail::record`
  unfoldable pub record_mode : ModeGuardrail → RankedCandidate F → ℕ → ModeGuardrail
  record_mode guard item selected_len =
      if not guard.enabled || leb guard.top_k selected_len
      then guard
      else record guard { selected_per_mode = bump_known (known_mode item) guard.selected_per_mode }

  -- The loop of `respects_mode_guardrail`.
  unfoldable pub stays_below : ℕ → ModeCounts → List (RankedCandidate F) → Bool
  stays_below max_per_mode counts [] = true
  stays_below max_per_mode counts (item ∷ items) =
      let rest = stays_below max_per_mode (bump_known (known_mode item) counts) items in
      has_room counts max_per_mode (known_mode item) && rest

  unfoldable pub respects_mode_guardrail : List (RankedCandidate F) → Bool
  unfolding new_guardrail stays_below
  respects_mode_guardrail items =
      let guard = new_guardrail items in
      not guard.enabled || stays_below guard.max_per_mode (λ mode. 0) (take guard.top_k items)
