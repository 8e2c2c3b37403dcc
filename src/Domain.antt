-- ===== src/Domain.antt =====
-- crates/domain/src/lib.rs: the enumerations that ranking, storage and the API share, with the
-- texts that they are stored as.
pub mod Alias
pub mod RoundTrip
pub mod Spelling
pub mod Feedback
mod Examples
use lobbytally.Base.{String, str_eq, Option, none, some, if◌then◌else◌}

pub data FeedSection : Type 0 where
  recent_release upcoming popular_legacy classic_legacy : FeedSection

unfoldable pub section_as_str : FeedSection → String
section_as_str recent_release = "recent_release"
section_as_str upcoming = "upcoming"
section_as_str popular_legacy = "popular_legacy"
section_as_str classic_legacy = "classic_legacy"

unfoldable pub parse_section : String → Option FeedSection
parse_section value =
    if str_eq value "recent_release"
    then some recent_release
    else if str_eq value "upcoming"
    then some upcoming
    else if str_eq value "popular_legacy"
    then some popular_legacy
    else if str_eq value "classic_legacy"
    then some classic_legacy
    else none

pub data ModeFamily : Type 0 where
  private_coop self_hosted matchmade_pvp public_world mixed generic_multiplayer unknown : ModeFamily

unfoldable pub mode_as_str : ModeFamily → String
mode_as_str private_coop = "private_coop"
mode_as_str self_hosted = "self_hosted"
mode_as_str matchmade_pvp = "matchmade_pvp"
mode_as_str public_world = "public_world"
mode_as_str mixed = "mixed"
mode_as_str generic_multiplayer = "generic_multiplayer"
mode_as_str unknown = "unknown"
