-- ===== src/Ai/Router/Chain.antt =====
-- One model of a route in `structured_completion` of crates/ai/src/router.rs: the protocols that it is
-- tried with, and what follows each answer. The provider and the clocks are a parameter: operations on a world that they change.
use lobbytally.Base.{
  ℕ, ◌-◌, min, String, Bool, true, false, not, ◌||◌, Option, none, some, List, [], ◌∷◌, ltb, leb,
  ◌==◌, if◌then◌else◌, len,
}
use lobbytally.Table.{select_where}
use lobbytally.Ai.{
  AiError, timeout, ApiProtocol, AiResult, ok, err, ModelCapabilities, unavailable,
  preferred_protocols, TaskRouteConfig, StructuredRequest, StructuredResponse, RoutedCompletion,
}
use lobbytally.Ai.Registry.{ModelRegistry, get, mark_unavailable, record_protocol_success}
use lobbytally.Ai.Router.{
  RouterPolicy, GlobalBudget, ModelStates, note_model_success, note_model_failure,
  per_attempt_budget, is_protocol_rejection, is_model_missing,
}

-- What a call of the provider under a time limit ends in.
pub data CallResult (R : Type 0) : Type 0 where
  responded : StructuredResponse R → CallResult R
  failed : AiError → CallResult R
  elapsed : CallResult R

-- `Instant::now()`, the wall clock in milliseconds, and a call with a time limit.
pub record Outside (W P R : Type 0) : Type 0 where
  pub instant : W → ℕ × W
  pub wall_ms : W → ℕ × W
  pub call : StructuredRequest P → ℕ → W → CallResult R × W

pub record RouterState (W : Type 0) : Type 0 where
  pub world : W
  pub registry : ModelRegistry
  pub model_states : ModelStates
  pub budget : GlobalBudget

-- The variables of the loops: the request as it was last changed, and the last error.
pub record Run (W P : Type 0) : Type 0 where
  pub state : RouterState W
  pub request : StructuredRequest P
  pub last_error : AiError

-- How an attempt ends: the function returns, the next protocol is tried with the error that a
-- rejection left, or the protocols of the model are left.
pub data Verdict (W P R : Type 0) : Type 0 where
  returns : AiResult (RoutedCompletion R) → RouterState W → Verdict W P R
  next_protocol : Run W P → Option AiError → Verdict W P R
  leaves : Run W P → Verdict W P R

-- How the protocols of a model end.
pub data ModelEnd (W P R : Type 0) : Type 0 where
  returned : AiResult (RoutedCompletion R) → RouterState W → ModelEnd W P R
  next_model : Run W P → ModelEnd W P R

-- How the round of a model ends: the function returns, the model was skipped, or it was tried.
pub data RoundEnd (W P R : Type 0) : Type 0 where
  stops : AiResult (RoutedCompletion R) → RouterState W → RoundEnd W P R
  skips tries : Run W P → RoundEnd W P R

abbrev pub usable_caps : String → Option ModelCapabilities → ModelCapabilities
usable_caps model none = record (unavailable model) {
  chat_completions = true;
  responses = true;
  structured_json = true;
  available = true;
}
usable_caps model (some caps) = caps

abbrev pub speaks : ModelCapabilities → Bool → ApiProtocol → Bool
speaks caps fresh ApiProtocol.chat_completions = caps.chat_completions || not fresh
speaks caps fresh ApiProtocol.responses = caps.responses || not fresh

abbrev pub is_nil : {A : Type 0} → List A → Bool
is_nil [] = true
is_nil (x ∷ xs) = false

-- `protocols_for_model`, with one reading of whether the registry is fresh.
unfoldable pub protocols_for_model :
    ModelRegistry → Bool → String → TaskRouteConfig → Option ApiProtocol → List ApiProtocol
unfolding get preferred_protocols unavailable
protocols_for_model registry fresh model route (some protocol) = protocol ∷ []
protocols_for_model registry fresh model route none =
    let caps = usable_caps model (get registry model) in
    select_where (speaks caps fresh) (
      if is_nil route.protocol_preference
      then preferred_protocols caps
      else route.protocol_preference)

module _ {W P R : Type 0} (outside : Outside W P R) (policy : RouterPolicy) where
  abbrev pub at_instant : RouterState W → ℕ × RouterState W
  at_instant s = let (now, world) = outside.instant s.world in (now, record s { world = world })

  abbrev pub at_wall : RouterState W → ℕ × RouterState W
  at_wall s = let (now, world) = outside.wall_ms s.world in (now, record s { world = world })

  module _ (route : TaskRouteConfig) (deadline : ℕ) (model : String) (index : ℕ)
      (attempted : List String) where
    -- `Ok(Ok(response))`
    unfoldable pub on_response : ApiProtocol → StructuredResponse R → Run W P → Verdict W P R
    on_response protocol response run =
        let s = run.state in
        let (now, world) = outside.instant s.world in
        returns
          (ok (record {
            response = record response {
              protocol = some protocol;
              model = if len response.model == 0 then model else response.model;
            };
            task = run.request.task;
            route_version = route.route_version;
            attempted_models = attempted;
            used_fallback = ltb 0 index;
          }))
          (record s {
            world = world;
            model_states = note_model_success s.model_states model;
            registry = record_protocol_success now s.registry model protocol;
          })

    -- `note_model_failure` with the reading of the clock, and `last_error = error`.
    unfoldable pub fail_model : AiError → Run W P → Run W P
    fail_model error run =
        let (now_ms, s) = at_wall run.state in
        record run {
          state = record s {
            model_states = note_model_failure policy now_ms s.model_states model error;
          };
          last_error = error;
        }

    -- `mark_unavailable`, where the error says that the model is missing.
    unfoldable pub mark_missing : AiError → Run W P → Run W P
    mark_missing error run =
        let (now, s) = at_instant run.state in
        if is_model_missing error
        then record run { state = record s { registry = mark_unavailable now s.registry model } }
        else run

    -- `Ok(Err(error))`
    unfoldable pub on_error : AiError → Run W P → Verdict W P R
    unfolding fail_model mark_missing
    on_error error run =
        if is_protocol_rejection error
        then next_protocol run (some error)
        else leaves (fail_model error (mark_missing error run))

    -- `Err(_)`
    unfoldable pub on_elapsed : Run W P → Verdict W P R
    on_elapsed run =
        let (now, s) = at_instant run.state in
        if leb deadline now
        then returns (err timeout) s
        else next_protocol (record run { state = s; last_error = timeout }) none

    abbrev pub on_result : ApiProtocol → CallResult R → Run W P → Verdict W P R
    on_result protocol (responded response) run = on_response protocol response run
    on_result protocol (failed error) run = on_error error run
    on_result protocol elapsed run = on_elapsed run

    -- The request of an attempt.
    unfoldable pub prepare : ApiProtocol → StructuredRequest P → StructuredRequest P
    prepare protocol request = record request {
      model = some model;
      protocol = some protocol;
      max_output_tokens = min request.max_output_tokens route.max_output_tokens;
    }

    -- One round of the loop over the protocols.
    unfoldable pub try_protocol : ApiProtocol → Run W P → Verdict W P R
    unfolding on_response on_error on_elapsed prepare
    try_protocol protocol run =
        let request = prepare protocol run.request in
        let (now, s) = at_instant run.state in
        let remaining = deadline - now in
        let (result, world) =
          outside.call request (per_attempt_budget route.timeout remaining) s.world in
        let called = record run { state = record s { world = world }; request = request } in
        if remaining == 0 then returns (err timeout) s else on_result protocol result called

    -- After the loop: an error that a rejection left counts against the model.
    abbrev pub after_protocols : Option AiError → Run W P → ModelEnd W P R
    after_protocols none run = next_model run
    after_protocols (some error) run = next_model (fail_model error run)

    unfoldable pub try_protocols : List ApiProtocol → Option AiError → Run W P → ModelEnd W P R
    unfolding try_protocol fail_model
    try_protocols [] protocol_error run = after_protocols protocol_error run
    try_protocols (protocol ∷ protocols) protocol_error run = elim (try_protocol protocol run) [
      | returns result s ↦ returned result s
      | next_protocol run' error ↦ try_protocols protocols error run'
      | leaves run' ↦ next_model run'
    ]
