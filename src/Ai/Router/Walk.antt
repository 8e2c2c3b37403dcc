-- ===== src/Ai/Router/Walk.antt =====
-- `structured_completion` of crates/ai/src/router.rs: the walk along the models of a route.
use lobbytally.Base.{
  ℕ, suc, ◌+◌, String, Bool, not, Option, none, some, List, [], ◌∷◌, ◌++◌, str_append, leb,
  if◌then◌else◌,
}
use lobbytally.Ai.{
  disabled, timeout, budget_exhausted, circuit_open, provider_rejected, config, AiTaskType,
  task_as_str, ApiProtocol, AiResult, err, TaskRouteConfig, model_chain, StructuredRequest,
  RoutedCompletion,
}
use lobbytally.Ai.Registry.{is_fresh, is_model_allowed}
use lobbytally.Ai.Router.{RouterPolicy, model_circuit_open, consume_budget}
use lobbytally.Ai.Router.Chain.{
  Outside, RouterState, Run, ModelEnd, returned, next_model, RoundEnd, stops, skips, tries, is_nil,
  protocols_for_model, at_instant, at_wall, try_protocols,
}

abbrev pub tried : {W P R : Type 0} → ModelEnd W P R → RoundEnd W P R
tried (returned result s) = stops result s
tried (next_model run) = tries run

-- The models of a request: the one it names, or those of the route.
abbrev pub chain_of : Option String → TaskRouteConfig → List String
chain_of none route = model_chain route
chain_of (some model) route = model ∷ []

-- `format!("model {model} has no usable protocol for task {}", request.task.as_str())`
abbrev pub no_protocol : String → AiTaskType → String
no_protocol model task =
    str_append "model "
      (str_append model (str_append " has no usable protocol for task " (task_as_str task)))

module _ {W P R : Type 0} (outside : Outside W P R) (policy : RouterPolicy) where
  -- A model that is allowed and whose circuit is closed.
  unfoldable pub try_model :
      TaskRouteConfig → ℕ → String → ℕ → List String → List ApiProtocol → Run W P → RoundEnd W P R
  unfolding try_protocols
  try_model route deadline model index attempted [] run =
      tries (record run { last_error = provider_rejected (no_protocol model run.request.task) })
  try_model route deadline model index attempted (p ∷ ps) run =
      tried (try_protocols outside policy route deadline model index attempted (p ∷ ps) none run)

  -- One round of the loop over the models.
  unfoldable pub round :
      TaskRouteConfig → ℕ → Option ApiProtocol → ℕ → String → List String → Run W P → RoundEnd W P R
  unfolding try_model protocols_for_model
  round route deadline override index model attempted run =
      let (now, s1) = at_instant outside policy run.state in
      let (seen, s2) = at_instant outside policy s1 in
      let (wall, s3) = at_wall outside policy s2 in
      let (later, s4) = at_instant outside policy s3 in
      let protocols =
        protocols_for_model s4.registry (is_fresh later s4.registry) model route override in
      if leb deadline now
      then stops (err timeout) s1
      else if not (is_model_allowed seen s2.registry model)
      then skips (record run { state = s2 })
      else if model_circuit_open s3.model_states model wall
      then skips (record run { state = s3; last_error = circuit_open })
      else try_model route deadline model index (attempted ++ model ∷ []) protocols
          (record run { state = s4 })

  -- The loop over the models, with the number of the models before them.
  unfoldable pub walk :
      TaskRouteConfig
      → ℕ
      → Option ApiProtocol
      → ℕ
      → List String
      → List String
      → Run W P
      → AiResult (RoutedCompletion R) × RouterState W
  unfolding round
  walk route deadline override index [] attempted run = (
    err (
        if is_nil attempted
        then provider_rejected "no available models for task after registry filter"
        else run.last_error),
    run.state,
  )
  walk route deadline override index (model ∷ models) attempted run =
      elim (round route deadline override index model attempted run) [
        | stops result s ↦ (result, s)
        | skips run' ↦ walk route deadline override (suc index) models attempted run'
        | tries run' ↦
            walk route deadline override (suc index) models (attempted ++ model ∷ []) run'
      ]

  -- With a route that is enabled.
  unfoldable pub follow :
      TaskRouteConfig
      → StructuredRequest P
      → RouterState W
      → AiResult (RoutedCompletion R) × RouterState W
  unfolding walk
  follow route request s =
      let (now, s1) = at_instant outside policy s in
      let deadline = now + route.timeout in
      let (wall, s2) = at_wall outside policy s1 in
      let (admitted, budget) = consume_budget policy wall s2.budget in
      let s3 = record s2 { budget = budget } in
      if not admitted
      then (err budget_exhausted, s3)
      else walk route deadline request.protocol 0 (chain_of request.model route) [] (record {
        state = s3;
        request = request;
        last_error = provider_rejected "no models attempted";
      })

  abbrev pub with_route :
      Option TaskRouteConfig
      → StructuredRequest P
      → RouterState W
      → AiResult (RoutedCompletion R) × RouterState W
  with_route none request s =
      (err (config (str_append "no route configured for task " (task_as_str request.task))), s)
  with_route (some route) request s =
      if not route.enabled then (err disabled, s) else follow route request s

  -- `is_available` and the routes of the router are arguments.
  unfoldable pub structured_completion :
      Bool
      → (AiTaskType → Option TaskRouteConfig)
      → StructuredRequest P
      → RouterState W
      → AiResult (RoutedCompletion R) × RouterState W
  unfolding follow
  structured_completion is_available routes request s =
      if not is_available then (err disabled, s) else with_route (routes request.task) request s
