-- ===== src/Ai/Router/Rounds.antt =====
-- The round of one model in crates/ai/src/router.rs keeps a run sound.
use lobbytally.Base.{
  has_name, ℕ, ◌≡◌, inl, inr, String, true, Option, none, List, [], ◌∷◌, ◌++◌, leb, Bool-cases,
}
use lobbytally.Ai.{ApiProtocol, TaskRouteConfig, StructuredRequest}
use lobbytally.Ai.Registry.{is_fresh, is_model_allowed}
use lobbytally.Ai.Router.{RouterPolicy, model_circuit_open}
use lobbytally.Ai.Router.Chain.{
  Outside, Run, ModelEnd, returned, next_model, RoundEnd, stops, skips, tries, protocols_for_model,
  try_protocols,
}
use lobbytally.Ai.Router.Walk.{chain_of, tried, try_model, round}
use lobbytally.Ai.Router.Soundness.{Permitted, Sound, Ends, SoundEnd}
use lobbytally.Ai.Router.Calls.{try_protocols-SoundEnd}

module _ {W P R : Type 0} (route : TaskRouteConfig) (request : StructuredRequest P)
    (Safe : W → Type 0) where
  abbrev pub SoundRound : String → ℕ → List String → RoundEnd W P R → Type 0
  SoundRound model index attempted (stops result s) =
      Ends route request Safe model index attempted result s
  SoundRound model index attempted (skips run) = Sound request Safe run
  SoundRound model index attempted (tries run) = Sound request Safe run

module _ {W P R : Type 0} (outside : Outside W P R) (policy : RouterPolicy)
    (route : TaskRouteConfig) (request : StructuredRequest P) (Safe : W → Type 0)
    (instant-Safe : (w : W) → Safe w → Safe (outside.instant w).1)
    (wall_ms-Safe : (w : W) → Safe w → Safe (outside.wall_ms w).1)
    (call-Safe : (sent : StructuredRequest P) (limit : ℕ) (w : W)
      → Permitted route request sent limit
      → Safe w
      → Safe (outside.call sent limit w).1) where
  module _ (deadline : ℕ) (model : String) (index : ℕ)
      (listed : has_name (chain_of request.model route) model ≡ true) where
    tried-SoundRound :
        (attempted : List String) (end : ModelEnd W P R)
        → SoundEnd route request Safe model index attempted end
        → SoundRound route request Safe model index attempted (tried end)
    tried-SoundRound attempted (returned result s) sound = sound
    tried-SoundRound attempted (next_model run) sound = sound

    try_model-SoundRound :
        (attempted : List String) (protocols : List ApiProtocol) (run : Run W P)
        → Sound request Safe run
        → SoundRound route request Safe model index attempted
            (try_model outside policy route deadline model index attempted protocols run)
    unfolding try_model
    try_model-SoundRound attempted [] run sound = sound
    try_model-SoundRound attempted (p ∷ ps) run sound =
        tried-SoundRound attempted
          (try_protocols outside policy route deadline model index attempted (p ∷ ps) none run)
          (try_protocols-SoundEnd outside policy route request Safe instant-Safe wall_ms-Safe
            call-Safe deadline model index attempted listed (p ∷ ps) none run sound)

    pub round-SoundRound :
        (override : Option ApiProtocol) (attempted : List String) (run : Run W P)
        → Sound request Safe run
        → SoundRound route request Safe model index
            (attempted ++ model ∷ [])
            (round outside policy route deadline override index model attempted run)
    unfolding round
    round-SoundRound override attempted run (same, safe) =
        let w1 = (outside.instant run.state.world).1 in
        let w2 = (outside.instant w1).1 in
        let w3 = (outside.wall_ms w2).1 in
        let w4 = (outside.instant w3).1 in
        let s1 = instant-Safe run.state.world safe in
        let s2 = instant-Safe w1 s1 in
        let s3 = wall_ms-Safe w2 s2 in
        let s4 = instant-Safe w3 s3 in
        elim (Bool-cases (leb deadline (outside.instant run.state.world).0)) [
          | inl e ↦ rw e (s1, tt)
          | inr e ↦
              elim (Bool-cases (is_model_allowed (outside.instant w1).0 run.state.registry model)) [
                | inr a ↦ rw (e, a) (same, s2)
                | inl a ↦
                    elim (Bool-cases
                      (model_circuit_open run.state.model_states model (outside.wall_ms w2).0)) [
                        | inl o ↦ rw (e, a, o) (same, s3)
                        | inr o ↦
                            rw (e, a, o)
                              (try_model-SoundRound (attempted ++ model ∷ [])
                                (protocols_for_model run.state.registry
                                  (is_fresh (outside.instant w3).0 run.state.registry) model route
                                  override)
                                (record run {
                                  state = record run.state { world = (outside.instant w3).1 };
                                })
                                (same, s4))
                      ]
              ]
        ]
