-- ===== src/Ai/Router/Soundness.antt =====
-- What a sound run of the loops of crates/ai/src/router.rs is: the calls that it may make, and what it
-- ends in.
use lobbytally.Base.{
  has_name, ℕ, ◌/◌, ◌≤◌, ◌<◌, ◌≡◌, min, max, String, true, false, some, List, ltb, ◌==◌, arith,
  same_name, lookup-store,
}
use lobbytally.Ai.{AiResult, ok, err, TaskRouteConfig, StructuredRequest, RoutedCompletion}
use lobbytally.Ai.Registry.{is_model_allowed}
use lobbytally.Ai.Router.{
  ModelStates, fresh_model, model_state, model_circuit_open, note_model_success, per_attempt_budget,
}
use lobbytally.Ai.Router.Chain.{
  RouterState, Run, Verdict, returns, next_protocol, leaves, ModelEnd, returned, next_model,
}
use lobbytally.Ai.Router.Walk.{chain_of}

pub success_closes :
    (states : ModelStates) (model : String) (t : ℕ)
    → model_circuit_open (note_model_success states model) model t ≡ false
unfolding model_circuit_open model_state note_model_success
success_closes states model t =
    rw (lookup-store model model fresh_model states, same_name model) (ground arith)

pub per_attempt_budget_pos :
    (route_timeout remaining : ℕ)
    → (remaining == 0) ≡ false
    → 0 < per_attempt_budget route_timeout remaining
unfolding per_attempt_budget
per_attempt_budget_pos route_timeout remaining e = ground arith

pub per_attempt_budget_le :
    (route_timeout remaining : ℕ)
    → per_attempt_budget route_timeout remaining ≤ max (route_timeout / 2) 1000000
unfolding per_attempt_budget
per_attempt_budget_le route_timeout remaining = omega arith

-- A call of the provider that a request may lead to on a route.
abbrev pub Permitted :
    {P : Type 0} → TaskRouteConfig → StructuredRequest P → StructuredRequest P → ℕ → Type 0
Permitted {P} route request sent limit =
    ((model : String) × (sent.model ≡ some model)
      × (has_name (chain_of request.model route) model ≡ true))
    × (sent.task ≡ request.task)
    × (sent.prompt ≡ request.prompt)
    × (sent.max_output_tokens ≤ min request.max_output_tokens route.max_output_tokens)
    × (0 < limit)
    × (limit ≤ max (route.timeout / 2) 1000000)

-- What is delivered: the answering model, with the models that were tried, comes back usable.
abbrev pub Delivers :
    {W P R : Type 0}
    → TaskRouteConfig
    → StructuredRequest P
    → String
    → ℕ
    → List String
    → AiResult (RoutedCompletion R)
    → RouterState W
    → Type 0
Delivers route request model index attempted (err e) s = Unit
Delivers route request model index attempted (ok r) s =
    (r.attempted_models ≡ attempted)
    × (r.used_fallback ≡ ltb 0 index)
    × (r.route_version ≡ route.route_version)
    × (r.task ≡ request.task)
    × ((t : ℕ) → model_circuit_open s.model_states model t ≡ false)
    × ((t : ℕ) → is_model_allowed t s.registry model ≡ true)

module _ {W P : Type 0} (request : StructuredRequest P) (Safe : W → Type 0) where
  -- A run in which the world is safe and the request is still the one that was made.
  abbrev pub Sound : Run W P → Type 0
  Sound run =
      ((run.request.task ≡ request.task)
        × (run.request.prompt ≡ request.prompt)
        × (run.request.max_output_tokens ≤ request.max_output_tokens))
      × Safe run.state.world

module _ {W P R : Type 0} (route : TaskRouteConfig) (request : StructuredRequest P)
    (Safe : W → Type 0) (model : String) (index : ℕ) (attempted : List String) where
  abbrev pub Ends : AiResult (RoutedCompletion R) → RouterState W → Type 0
  Ends result s = Safe s.world × Delivers route request model index attempted result s

  abbrev pub SoundVerdict : Verdict W P R → Type 0
  SoundVerdict (returns result s) = Ends result s
  SoundVerdict (next_protocol run error) = Sound request Safe run
  SoundVerdict (leaves run) = Sound request Safe run

  abbrev pub SoundEnd : ModelEnd W P R → Type 0
  SoundEnd (returned result s) = Ends result s
  SoundEnd (next_model run) = Sound request Safe run
