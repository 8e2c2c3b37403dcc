-- ===== src/Domain/Alias.antt =====
-- `ModeFamily::from_alias` of crates/domain/src/lib.rs, on texts as lists of code points.
use lobbytally.Base.{
  ℕ, String, Bool, false, ◌||◌, List, [], ◌∷◌, map, ◌==◌, if◌then◌else◌, codes, eq_codes, contains,
  trim, to_ascii_lowercase,
}
use lobbytally.Domain.{
  ModeFamily, private_coop, self_hosted, matchmade_pvp, public_world, mixed, generic_multiplayer,
  unknown,
}

-- `' ' | '-' => '_'`
unfoldable pub join_char : ℕ → ℕ
join_char c = if c == 32 || c == 45 then 95 else c

unfoldable pub normalize : List ℕ → List ℕ
unfolding join_char
normalize value = map join_char (to_ascii_lowercase (trim value))

unfoldable pub matches : List ℕ → List String → Bool
matches text [] = false
matches text (name ∷ names) = eq_codes text (codes name) || matches text names

unfoldable pub contains_one : List ℕ → List String → Bool
contains_one text [] = false
contains_one text (part ∷ parts) = contains (codes part) text || contains_one text parts

-- The arms of the `match` on the normalized text, in their order.
unfoldable pub family_of : List ℕ → ModeFamily
unfolding matches contains_one
family_of text =
    if matches text
      ("private_coop" ∷ "coop" ∷ "co_op" ∷ "cooperative" ∷ "online_coop" ∷ "coop_only" ∷ [])
    then private_coop
    else if matches text (
        "self_hosted" ∷ "self_host" ∷ "self_hosted_survival" ∷ "dedicated_server"
        ∷ "community_server" ∷ [])
    then self_hosted
    else if matches text (
        "matchmade_pvp" ∷ "matchmaking_competitive" ∷ "competitive" ∷ "versus" ∷ "vs" ∷ "pvp"
        ∷ "pvp_only" ∷ [])
    then matchmade_pvp
    else if matches text ("public_world" ∷ "public" ∷ "mmo" ∷ "mmorpg" ∷ "shared_world" ∷ [])
    then public_world
    else if matches text ("mixed" ∷ "hybrid" ∷ "coop_pvp" ∷ "pve_pvp" ∷ [])
    then mixed
    else if matches text ("generic_multiplayer" ∷ "multiplayer" ∷ "online_multiplayer" ∷ [])
    then generic_multiplayer
    else if matches text ("" ∷ "unknown" ∷ "single_primary" ∷ "singleplayer" ∷ "single_player" ∷ [])
    then unknown
    else if contains_one text ("matchmak" ∷ "competitive" ∷ [])
    then matchmade_pvp
    else if contains_one text ("pvp" ∷ "versus" ∷ [])
    then matchmade_pvp
    else if contains_one text ("self_host" ∷ "dedicated" ∷ [])
    then self_hosted
    else if contains_one text ("public_world" ∷ "mmo" ∷ [])
    then public_world
    else if contains_one text ("coop" ∷ "co_op" ∷ [])
    then private_coop
    else unknown

unfoldable pub from_alias : List ℕ → ModeFamily
unfolding normalize family_of
from_alias value = family_of (normalize value)
