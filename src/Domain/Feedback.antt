-- ===== src/Domain/Feedback.antt =====
-- `FeedbackType` of crates/domain/src/lib.rs with its texts, which are read back.
use lobbytally.Base.{
  ◌≡◌, refl, ap, ◌∙◌, String, str_eq, eq_iff, Option, none, some, arith, if◌then◌else◌,
}

pub data FeedbackType : Type 0 where
  like not_interested played too_competitive party_size_mismatch hosting_friction : FeedbackType

unfoldable pub feedback_as_str : FeedbackType → String
feedback_as_str like = "like"
feedback_as_str not_interested = "not_interested"
feedback_as_str played = "played"
feedback_as_str too_competitive = "too_competitive"
feedback_as_str party_size_mismatch = "party_size_mismatch"
feedback_as_str hosting_friction = "hosting_friction"

unfoldable pub parse_feedback : String → Option FeedbackType
parse_feedback value =
    if str_eq value "like"
    then some like
    else if str_eq value "not_interested"
    then some not_interested
    else if str_eq value "played"
    then some played
    else if str_eq value "too_competitive"
    then some too_competitive
    else if str_eq value "party_size_mismatch"
    then some party_size_mismatch
    else if str_eq value "hosting_friction"
    then some hosting_friction
    else none

parse_feedback-as_str :
    (feedback : FeedbackType) → parse_feedback (feedback_as_str feedback) ≡ some feedback
unfolding parse_feedback feedback_as_str
parse_feedback-as_str like = refl
parse_feedback-as_str not_interested = refl
parse_feedback-as_str played = refl
parse_feedback-as_str too_competitive = refl
parse_feedback-as_str party_size_mismatch = refl
parse_feedback-as_str hosting_friction = refl

parse_feedback_printed :
    (value : String) (feedback : FeedbackType)
    → parse_feedback value ≡ some feedback
    → value ≡ feedback_as_str feedback
unfolding parse_feedback feedback_as_str
parse_feedback_printed value like h = ground (
  arith,
  (eq_iff value "like").0,
  (eq_iff value "not_interested").0,
  (eq_iff value "played").0,
  (eq_iff value "too_competitive").0,
  (eq_iff value "party_size_mismatch").0,
  (eq_iff value "hosting_friction").0,
)
parse_feedback_printed value not_interested h = ground (
  arith,
  (eq_iff value "like").0,
  (eq_iff value "not_interested").0,
  (eq_iff value "played").0,
  (eq_iff value "too_competitive").0,
  (eq_iff value "party_size_mismatch").0,
  (eq_iff value "hosting_friction").0,
)
parse_feedback_printed value played h = ground (
  arith,
  (eq_iff value "like").0,
  (eq_iff value "not_interested").0,
  (eq_iff value "played").0,
  (eq_iff value "too_competitive").0,
  (eq_iff value "party_size_mismatch").0,
  (eq_iff value "hosting_friction").0,
)
parse_feedback_printed value too_competitive h = ground (
  arith,
  (eq_iff value "like").0,
  (eq_iff value "not_interested").0,
  (eq_iff value "played").0,
  (eq_iff value "too_competitive").0,
  (eq_iff value "party_size_mismatch").0,
  (eq_iff value "hosting_friction").0,
)
parse_feedback_printed value party_size_mismatch h = ground (
  arith,
  (eq_iff value "like").0,
  (eq_iff value "not_interested").0,
  (eq_iff value "played").0,
  (eq_iff value "too_competitive").0,
  (eq_iff value "party_size_mismatch").0,
  (eq_iff value "hosting_friction").0,
)
parse_feedback_printed value hosting_friction h = ground (
  arith,
  (eq_iff value "like").0,
  (eq_iff value "not_interested").0,
  (eq_iff value "played").0,
  (eq_iff value "too_competitive").0,
  (eq_iff value "party_size_mismatch").0,
  (eq_iff value "hosting_friction").0,
)

-- A feedback type is read back from its text, and a text that is read as one is its text.
pub parse_feedback_iff :
    (value : String) (feedback : FeedbackType)
    → (parse_feedback value ≡ some feedback → value ≡ feedback_as_str feedback)
      × (value ≡ feedback_as_str feedback → parse_feedback value ≡ some feedback)
parse_feedback_iff value feedback = (
  parse_feedback_printed value feedback,
  λ e. ap parse_feedback e ∙ parse_feedback-as_str feedback,
)
