-- ===== src/Ai/Registry/Examples.antt =====
-- A registry that lists two models.
use lobbytally.Base.{has_name, ◌≡◌, not, ◌&&◌, ◌||◌, [], ◌∷◌, str_eq}
use lobbytally.Ai.{ApiProtocol}
use lobbytally.Ai.Registry.{
  ModelRegistry, is_fresh, replace_models, is_model_allowed, mark_unavailable,
  record_protocol_success, capabilities_from_model_ids,
}
use lobbytally.Ai.Registry.Availability.{
  mark_unavailable_lem, record_protocol_success_lem, replace_models_lem,
}

abbrev registry : ModelRegistry
registry = replace_models 100 (capabilities_from_model_ids ("a" ∷ "b" ∷ [])) 1000

mark_unavailable_lem_example : is_model_allowed 200 (mark_unavailable 150 registry "a") "b" ≡ (
    not (str_eq "a" "b" && is_fresh 200 (mark_unavailable 150 registry "a"))
    && is_model_allowed 200 registry "b")
mark_unavailable_lem_example = mark_unavailable_lem 200 150 registry "a" "b"

record_protocol_success_lem_example :
    is_model_allowed 200 (record_protocol_success 150 registry "c" ApiProtocol.responses) "c"
    ≡ (str_eq "c" "c" || is_model_allowed 200 registry "c")
record_protocol_success_lem_example =
    record_protocol_success_lem 200 150 registry "c" "c" ApiProtocol.responses

replace_models_lem_example :
    is_model_allowed 200 registry "c"
    ≡ (has_name ("a" ∷ "b" ∷ []) "c" || not (is_fresh 200 registry))
replace_models_lem_example = replace_models_lem 200 100 1000 ("a" ∷ "b" ∷ []) "c"
