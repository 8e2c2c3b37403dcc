-- ===== src/Domain/RoundTrip.antt =====
-- The stored texts of the enumerations are read back as the values that they stand for.
use lobbytally.Base.{
  ◌≡◌, refl, ap, ◌∙◌, String, str_eq, eq_iff, true, some, arith, codes, to_ascii_lowercase, trim,
  eq_codes,
}
use lobbytally.Domain.{
  FeedSection, recent_release, upcoming, popular_legacy, classic_legacy, section_as_str,
  parse_section, ModeFamily, private_coop, self_hosted, matchmade_pvp, public_world, mixed,
  generic_multiplayer, unknown, mode_as_str,
}
use lobbytally.Domain.Alias.{from_alias, normalize, family_of, matches, contains_one}

parse-as_str : (section : FeedSection) → parse_section (section_as_str section) ≡ some section
unfolding parse_section section_as_str
parse-as_str recent_release = refl
parse-as_str upcoming = refl
parse-as_str popular_legacy = refl
parse-as_str classic_legacy = refl

texts :
    (value : String)
    → (str_eq value "recent_release" ≡ true → value ≡ "recent_release")
      × (str_eq value "upcoming" ≡ true → value ≡ "upcoming")
      × (str_eq value "popular_legacy" ≡ true → value ≡ "popular_legacy")
      × (str_eq value "classic_legacy" ≡ true → value ≡ "classic_legacy")
texts value = (
  (eq_iff value "recent_release").0,
  (eq_iff value "upcoming").0,
  (eq_iff value "popular_legacy").0,
  (eq_iff value "classic_legacy").0,
)

parse_section_printed :
    (value : String) (s : FeedSection) → parse_section value ≡ some s → value ≡ section_as_str s
unfolding parse_section section_as_str
parse_section_printed value recent_release h =
    let (r, u, p, c) = texts value in ground (arith, r, u, p, c)
parse_section_printed value upcoming h =
    let (r, u, p, c) = texts value in ground (arith, r, u, p, c)
parse_section_printed value popular_legacy h =
    let (r, u, p, c) = texts value in ground (arith, r, u, p, c)
parse_section_printed value classic_legacy h =
    let (r, u, p, c) = texts value in ground (arith, r, u, p, c)

-- A feed section is read back from its text, and a text that is read as a section is its text.
pub parse_section_iff :
    (value : String) (section : FeedSection)
    → (parse_section value ≡ some section → value ≡ section_as_str section)
      × (value ≡ section_as_str section → parse_section value ≡ some section)
parse_section_iff value section =
    (parse_section_printed value section, λ e. ap parse_section e ∙ parse-as_str section)

-- The stored text of a mode family is read back as the family.
pub from_alias-mode_as_str : (mode : ModeFamily) → from_alias (codes (mode_as_str mode)) ≡ mode
unfolding from_alias mode_as_str family_of normalize matches contains_one trim to_ascii_lowercase
    eq_codes
from_alias-mode_as_str private_coop = refl
from_alias-mode_as_str self_hosted = refl
from_alias-mode_as_str matchmade_pvp = refl
from_alias-mode_as_str public_world = refl
from_alias-mode_as_str mixed = refl
from_alias-mode_as_str generic_multiplayer = refl
from_alias-mode_as_str unknown = refl
