-- ===== src/Domain/Examples.antt =====
-- Texts of the enumerations.
use lobbytally.Base.{◌≡◌, some, codes, trim, to_ascii_lowercase}
use lobbytally.Domain.{upcoming, section_as_str, parse_section, matchmade_pvp, mode_as_str}
use lobbytally.Domain.Feedback.{played, feedback_as_str, parse_feedback, parse_feedback_iff}
use lobbytally.Domain.Alias.{from_alias}
use lobbytally.Domain.RoundTrip.{parse_section_iff, from_alias-mode_as_str}
use lobbytally.Domain.Spelling.{from_alias-spelling}

parse_section_iff_example :
    (parse_section "upcoming" ≡ some upcoming → "upcoming" ≡ section_as_str upcoming)
    × ("upcoming" ≡ section_as_str upcoming → parse_section "upcoming" ≡ some upcoming)
parse_section_iff_example = parse_section_iff "upcoming" upcoming

from_alias-mode_as_str_example : from_alias (codes (mode_as_str matchmade_pvp)) ≡ matchmade_pvp
from_alias-mode_as_str_example = from_alias-mode_as_str matchmade_pvp

from_alias-spelling_example :
    (from_alias (to_ascii_lowercase (codes " Co-Op ")) ≡ from_alias (codes " Co-Op "))
    × (from_alias (trim (codes " Co-Op ")) ≡ from_alias (codes " Co-Op "))
from_alias-spelling_example = from_alias-spelling (codes " Co-Op ")

parse_feedback_iff_example :
    (parse_feedback "played" ≡ some played → "played" ≡ feedback_as_str played)
    × ("played" ≡ feedback_as_str played → parse_feedback "played" ≡ some played)
parse_feedback_iff_example = parse_feedback_iff "played" played
