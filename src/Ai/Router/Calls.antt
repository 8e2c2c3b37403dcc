-- ===== src/Ai/Router/Calls.antt =====
-- The attempts at one model in crates/ai/src/router.rs keep a run sound.
use lobbytally.Base.{
  has_name, ℕ, ◌-◌, ◌≡◌, refl, ◌∙◌, inl, inr, String, true, Option, none, some, List, [], ◌∷◌, leb,
  ◌==◌, Bool-cases, arith, same_name,
}
use lobbytally.Ai.{AiError, ApiProtocol, TaskRouteConfig, StructuredRequest, StructuredResponse}
use lobbytally.Ai.Registry.Availability.{record_protocol_success_lem}
use lobbytally.Ai.Router.{RouterPolicy, per_attempt_budget, is_protocol_rejection, is_model_missing}
use lobbytally.Ai.Router.Chain.{
  CallResult, responded, failed, elapsed, Outside, Run, Verdict, returns, next_protocol, leaves,
  ModelEnd, returned, next_model, on_response, fail_model, mark_missing, on_error, on_elapsed,
  on_result, prepare, try_protocol, after_protocols, try_protocols,
}
use lobbytally.Ai.Router.Walk.{chain_of}
use lobbytally.Ai.Router.Soundness.{
  success_closes, per_attempt_budget_pos, per_attempt_budget_le, Permitted, Sound, SoundVerdict,
  SoundEnd,
}

module _ {W P R : Type 0} (outside : Outside W P R) (policy : RouterPolicy)
    (route : TaskRouteConfig) (request : StructuredRequest P) (Safe : W → Type 0)
    (instant-Safe : (w : W) → Safe w → Safe (outside.instant w).1)
    (wall_ms-Safe : (w : W) → Safe w → Safe (outside.wall_ms w).1)
    (call-Safe : (sent : StructuredRequest P) (limit : ℕ) (w : W)
      → Permitted route request sent limit
      → Safe w
      → Safe (outside.call sent limit w).1) where
  module _ (deadline : ℕ) (model : String) (index : ℕ) (attempted : List String)
      (listed : has_name (chain_of request.model route) model ≡ true) where
    on_response-SoundVerdict :
        (protocol : ApiProtocol) (response : StructuredResponse R) (run : Run W P)
        → Sound request Safe run
        → SoundVerdict route request Safe model index attempted
            (on_response outside policy route deadline model index attempted protocol response run)
    unfolding on_response
    on_response-SoundVerdict protocol response run (same, safe) = (
      instant-Safe run.state.world safe,
      (
        refl,
        refl,
        refl,
        same.0,
        success_closes run.state.model_states model,
        λ t.
            record_protocol_success_lem t (outside.instant run.state.world).0 run.state.registry
              model model protocol
            ∙ rw (same_name model) refl,
      ),
    )

    fail_model-Sound :
        (error : AiError) (run : Run W P)
        → Sound request Safe run
        → Sound request Safe
            (fail_model outside policy route deadline model index attempted error run)
    unfolding fail_model
    fail_model-Sound error run (same, safe) = (same, wall_ms-Safe run.state.world safe)

    mark_missing-Sound :
        (error : AiError) (run : Run W P)
        → Sound request Safe run
        → Sound request Safe
            (mark_missing outside policy route deadline model index attempted error run)
    unfolding mark_missing
    mark_missing-Sound error run (same, safe) = elim (Bool-cases (is_model_missing error)) [
      | inl e ↦ rw e (same, instant-Safe run.state.world safe)
      | inr e ↦ rw e (same, safe)
    ]

    on_error-SoundVerdict :
        (error : AiError) (run : Run W P)
        → Sound request Safe run
        → SoundVerdict route request Safe model index attempted
            (on_error outside policy route deadline model index attempted error run)
    unfolding on_error
    on_error-SoundVerdict error run sound = elim (Bool-cases (is_protocol_rejection error)) [
      | inl e ↦ rw e sound
      | inr e ↦ rw e (
          fail_model-Sound error
            (mark_missing outside policy route deadline model index attempted error run)
            (mark_missing-Sound error run sound))
    ]

    on_elapsed-SoundVerdict :
        (run : Run W P)
        → Sound request Safe run
        → SoundVerdict route request Safe model index attempted
            (on_elapsed outside policy route deadline model index attempted run)
    unfolding on_elapsed
    on_elapsed-SoundVerdict run (same, safe) =
        let now = (outside.instant run.state.world).0 in
        let later = instant-Safe run.state.world safe in
        elim (Bool-cases (leb deadline now)) [
          | inl e ↦ rw e (later, tt)
          | inr e ↦ rw e (same, later)
        ]

    on_result-SoundVerdict :
        (protocol : ApiProtocol) (result : CallResult R) (run : Run W P)
        → Sound request Safe run
        → SoundVerdict route request Safe model index attempted
            (on_result outside policy route deadline model index attempted protocol result run)
    on_result-SoundVerdict protocol (responded response) run sound =
        on_response-SoundVerdict protocol response run sound
    on_result-SoundVerdict protocol (failed error) run sound = on_error-SoundVerdict error run sound
    on_result-SoundVerdict protocol elapsed run sound = on_elapsed-SoundVerdict run sound

    try_protocol-SoundVerdict :
        (protocol : ApiProtocol) (run : Run W P)
        → Sound request Safe run
        → SoundVerdict route request Safe model index attempted
            (try_protocol outside policy route deadline model index attempted protocol run)
    unfolding try_protocol prepare
    try_protocol-SoundVerdict protocol run (same, safe) =
        let (now, world) = outside.instant run.state.world in
        let later = instant-Safe run.state.world safe in
        let sent =
          prepare outside policy route deadline model index attempted protocol run.request in
        let remaining = deadline - now in
        let limit = per_attempt_budget route.timeout remaining in
        elim (Bool-cases (remaining == 0)) [
          | inl e ↦ rw e (later, tt)
          | inr e ↦ rw e (
              let called =
                call-Safe sent limit world
                  (
                    (model, refl, listed),
                    same.0,
                    same.1,
                    omega (arith, same.2),
                    per_attempt_budget_pos route.timeout remaining e,
                    per_attempt_budget_le route.timeout remaining,
                  )
                  later in
              on_result-SoundVerdict protocol (outside.call sent limit world).0
                (record run {
                  state = record run.state { world = (outside.call sent limit world).1 };
                  request = sent;
                })
                ((same.0, same.1, omega (arith, same.2)), called))
        ]

    after_protocols-SoundEnd :
        (error : Option AiError) (run : Run W P)
        → Sound request Safe run
        → SoundEnd route request Safe model index attempted
            (after_protocols outside policy route deadline model index attempted error run)
    after_protocols-SoundEnd none run sound = sound
    after_protocols-SoundEnd (some error) run sound = fail_model-Sound error run sound

    pub try_protocols-SoundEnd :
        (protocols : List ApiProtocol) (error : Option AiError) (run : Run W P)
        → Sound request Safe run
        → SoundEnd route request Safe model index attempted
            (try_protocols outside policy route deadline model index attempted protocols error run)
    unfolding try_protocols
    try_protocols-SoundEnd [] error run sound = after_protocols-SoundEnd error run sound
    try_protocols-SoundEnd (protocol ∷ protocols) error run sound =
        settle (try_protocols-SoundEnd protocols)
          (try_protocol outside policy route deadline model index attempted protocol run)
          (try_protocol-SoundVerdict protocol run sound)
      where
        settle :
            ((error : Option AiError) (run : Run W P)
              → Sound request Safe run
              → SoundEnd route request Safe model index attempted (
                  try_protocols outside policy route deadline model index attempted protocols error
                    run))
            → (verdict : Verdict W P R)
            → SoundVerdict route request Safe model index attempted verdict
            → SoundEnd route request Safe model index attempted
                (elim verdict as (λ v. ModelEnd W P R) [
                  | returns result s ↦ returned result s
                  | next_protocol run' error' ↦
                      try_protocols outside policy route deadline model index attempted protocols
                        error' run'
                  | leaves run' ↦ next_model run'
                ])
        settle next (returns result s) ends = ends
        settle next (next_protocol run' error') still = next error' run' still
        settle next (leaves run') still = still
