-- ===== src/Ai.antt =====
-- crates/ai/src/error.rs and crates/ai/src/types.rs: the errors, protocols, model capabilities and
-- routes that the AI layer shares. Durations and instants are numbers of nanoseconds.
pub mod Registry
pub mod HostLimit
pub mod Router
use lobbytally.Base.{
  has_name, ℕ, String, str_eq, Bool, true, false, not, ◌&&◌, ◌||◌, Option, none, some, List, [],
  ◌∷◌, ◌++◌, if◌then◌else◌,
}

pub data AiError : Type 0 where
  disabled timeout rate_limited budget_exhausted circuit_open : AiError
  provider_rejected invalid_output transport config : String → AiError

pub data AiTaskType : Type 0 where
  intent_parse rank_explain feature_extract embed game_summary compare_games group_advice
        data_quality :
      AiTaskType

unfoldable pub task_as_str : AiTaskType → String
task_as_str AiTaskType.intent_parse = "intent_parse"
task_as_str AiTaskType.rank_explain = "rank_explain"
task_as_str AiTaskType.feature_extract = "feature_extract"
task_as_str AiTaskType.embed = "embed"
task_as_str AiTaskType.game_summary = "game_summary"
task_as_str AiTaskType.compare_games = "compare_games"
task_as_str AiTaskType.group_advice = "group_advice"
task_as_str AiTaskType.data_quality = "data_quality"

pub data ApiProtocol : Type 0 where
  chat_completions responses : ApiProtocol

-- `Result<T, AiError>`
pub data AiResult {ℓ} (A : Type ℓ) : Type ℓ where
  ok : A → AiResult A
  err : AiError → AiResult A

pub record ModelCapabilities : Type 0 where
  pub model : String
  pub chat_completions : Bool
  pub responses : Bool
  pub structured_json : Bool
  pub tool_calling : Bool
  pub streaming : Bool
  pub available : Bool

unfoldable pub unavailable : String → ModelCapabilities
unavailable model = record {
  model = model;
  chat_completions = false;
  responses = false;
  structured_json = false;
  tool_calling = false;
  streaming = false;
  available = false;
}

unfoldable pub preferred_protocols : ModelCapabilities → List ApiProtocol
preferred_protocols caps =
    (if caps.responses then ApiProtocol.responses ∷ [] else [])
    ++ (if caps.chat_completions then ApiProtocol.chat_completions ∷ [] else [])

-- The texts of the task and of the version, which the router passes on, are fields all the same.
pub record TaskRouteConfig : Type 0 where
  pub task : AiTaskType
  pub primary_model : String
  pub fallback_models : List String
  pub protocol_preference : List ApiProtocol
  pub timeout : ℕ
  pub max_output_tokens : ℕ
  pub enabled : Bool
  pub route_version : String

-- The loop of `model_chain` over the fallback models.
unfoldable pub add_fallbacks : List String → List String → List String
unfolding has_name
add_fallbacks chain [] = chain
add_fallbacks chain (m ∷ ms) =
    add_fallbacks (if has_name chain m then chain else chain ++ m ∷ []) ms

unfoldable pub model_chain : TaskRouteConfig → List String
unfolding add_fallbacks
model_chain route = add_fallbacks (route.primary_model ∷ []) route.fallback_models

-- A request, with its prompts, schema and temperature as one value, which the router passes on.
pub record StructuredRequest (P : Type 0) : Type 0 where
  pub task : AiTaskType
  pub prompt : P
  pub max_output_tokens : ℕ
  pub model : Option String
  pub protocol : Option ApiProtocol

-- A response, with its content and usage as one value.
pub record StructuredResponse (R : Type 0) : Type 0 where
  pub model : String
  pub content : R
  pub protocol : Option ApiProtocol

pub record RoutedCompletion (R : Type 0) : Type 0 where
  pub response : StructuredResponse R
  pub task : AiTaskType
  pub route_version : String
  pub attempted_models : List String
  pub used_fallback : Bool
