-- ===== src/Ai/Router/Examples.antt =====
-- A provider that keeps what it was sent: the model "a" lets the time run out, and "b" answers.
use lobbytally.Base.{
  ℕ, ◌+◌, ◌/◌, ◌≤◌, ◌≡◌, refl, String, str_eq, Bool, true, false, Option, none, some, List, [], ◌∷◌,
  if◌then◌else◌, All, arith,
}
use lobbytally.Ai.{
  AiError, timeout, transport, AiTaskType, AiResult, ok, err, ApiProtocol, TaskRouteConfig,
  StructuredRequest, StructuredResponse, RoutedCompletion, preferred_protocols, model_chain,
  add_fallbacks, unavailable,
}
use lobbytally.Ai.Router.{RouterPolicy, model_circuit_open}
use lobbytally.Ai.Router.Breaker.{
  Noted, success, failure, replay, recent_failures, is_open, model_circuit_open_lem,
}
use lobbytally.Ai.Router.Budget.{
  minute_of, day_of, empty_budget, admitted_of, consume_budget_bounded,
}
use lobbytally.Ai.Router.Chain.{CallResult, responded, elapsed, Outside, RouterState}
use lobbytally.Ai.Router.Walk.{follow, structured_completion}
use lobbytally.Ai.Router.Soundness.{Permitted}
use lobbytally.Ai.Router.Delivery.{Answers}
use lobbytally.Ai.Router.Completion.{
  Chosen, structured_completion-Permitted, structured_completion-Answers,
}

abbrev policy : RouterPolicy
policy = record {
  minute_budget = 2;
  daily_budget = 3;
  circuit_failure_threshold = 2;
  circuit_open_ms = 60000;
}

abbrev noted : List Noted
noted =
    failure "a" timeout 5000
    ∷ failure "b" timeout 4000
    ∷ failure "a" (transport "reset") 3000
    ∷ success "a"
    ∷ []

model_circuit_open_lem_example :
    model_circuit_open (replay policy noted) "a" 6000
    ≡ is_open policy (recent_failures "a" noted) 6000
model_circuit_open_lem_example = model_circuit_open_lem policy "a" noted 6000 (omega arith)

consume_budget_bounded_example :
    (admitted_of minute_of 1 policy (60000 ∷ 61000 ∷ 62000 ∷ 120000 ∷ []) ≤ 2)
    × (admitted_of day_of 0 policy (60000 ∷ 61000 ∷ 62000 ∷ 120000 ∷ []) ≤ 3)
consume_budget_bounded_example =
    consume_budget_bounded policy 60000 (60000 ∷ 61000 ∷ 62000 ∷ 120000 ∷ []) 1 0
      (omega arith, (omega arith, (omega arith, (omega arith, tt)))) (omega arith)

abbrev route : TaskRouteConfig
route = record {
  task = AiTaskType.intent_parse;
  primary_model = "a";
  fallback_models = "b" ∷ [];
  protocol_preference = [];
  timeout = 8000000000;
  max_output_tokens = 500;
  enabled = true;
  route_version = "v1";
}

abbrev routes : AiTaskType → Option TaskRouteConfig
routes task = some route

abbrev request : StructuredRequest ℕ
request = record {
  task = AiTaskType.intent_parse;
  prompt = 7;
  max_output_tokens = 900;
  model = none;
  protocol = none;
}

record Desk : Type 0 where
  clock : ℕ
  sent : List (StructuredRequest ℕ × ℕ)

abbrev answer : Option String → CallResult ℕ
answer none = elapsed
answer (some model) =
    if str_eq model "b"
    then responded (record { model = ""; content = 42; protocol = none })
    else elapsed

abbrev desk : Outside Desk ℕ ℕ
desk = record {
  instant = λ w. (w.clock, record w { clock = w.clock + 1000 });
  wall_ms = λ w. (w.clock / 1000000, w);
  call = λ sent limit w.
      (answer sent.model, record { clock = w.clock + 1000; sent = (sent, limit) ∷ w.sent });
}

abbrev start : RouterState Desk
start = record {
  world = record { clock = 5000000000; sent = [] };
  registry = none;
  model_states = [];
  budget = empty_budget;
}

abbrev Kept : Desk → Type 0
Kept w =
    All
      (λ (entry : StructuredRequest ℕ × ℕ).
        (route : TaskRouteConfig) × Chosen desk policy routes request route
        × Permitted route request entry.0 entry.1)
      w.sent

structured_completion-Permitted_example :
    Kept (structured_completion desk policy true routes request start).1.world
structured_completion-Permitted_example =
    structured_completion-Permitted desk policy routes request Kept (λ w kept. kept)
      (λ w kept. kept)
      (λ route sent limit w chosen permitted kept. ((route, chosen, permitted), kept)) true start tt

abbrev delivered : RoutedCompletion ℕ
delivered = record {
  response = record { model = "b"; content = 42; protocol = some ApiProtocol.responses };
  task = AiTaskType.intent_parse;
  route_version = "v1";
  attempted_models = "a" ∷ "b" ∷ [];
  used_fallback = true;
}

finish : RouterState Desk
finish = (structured_completion desk policy true routes request start).1

delivers : structured_completion desk policy true routes request start ≡ (ok delivered, finish)
unfolding finish structured_completion follow lobbytally.Ai.Router.consume_budget model_chain
    lobbytally.Ai.Registry.is_model_allowed model_circuit_open lobbytally.Base.lookup
    lobbytally.Table.select_where
delivers = refl

structured_completion-Answers_example :
    (route : TaskRouteConfig) × Chosen desk policy routes request route
    × Answers route request (ok delivered) finish
structured_completion-Answers_example =
    structured_completion-Answers desk policy routes request true start finish delivered delivers
