-- ===== src/Ai/Router/Delivery.antt =====
-- `structured_completion` of crates/ai/src/router.rs as a whole: what it sends out, and what an answer
-- tells.
use lobbytally.Base.{
  has_name, ℕ, suc, ◌+◌, ◌≡◌, refl, sym, subst, ◌∙◌, inl, inr, String, str_eq, Bool, true, false,
  ◌||◌, Option, List, [], ◌∷◌, ◌++◌, ltb, length, length-append, Bool-cases, arith, All, All-append,
  same_name,
}
use mathlib.Core.List.{append_assoc}
use lobbytally.Ai.{
  provider_rejected, ApiProtocol, AiResult, ok, err, TaskRouteConfig, StructuredRequest,
  RoutedCompletion,
}
use lobbytally.Ai.Registry.{is_model_allowed}
use lobbytally.Ai.Router.{RouterPolicy, model_circuit_open, consume_budget}
use lobbytally.Ai.Router.Chain.{Outside, RouterState, Run, RoundEnd, stops, skips, tries}
use lobbytally.Ai.Router.Walk.{chain_of, round, walk, follow}
use lobbytally.Ai.Router.Soundness.{Permitted, Sound, Ends}
use lobbytally.Ai.Router.Rounds.{SoundRound, round-SoundRound}

has_model_split :
    (before after : List String) (model : String) → has_name (before ++ model ∷ after) model ≡ true
unfolding has_name
has_model_split [] after model = rw (same_name model) refl
has_model_split (m ∷ before) after model =
    rw (has_model_split before after model) (or_true (str_eq m model))
  where
    or_true : (b : Bool) → (b || true) ≡ true
    or_true true = refl
    or_true false = refl

-- What an answer tells on a route: which model of the chain answered, which were tried before it, and
-- that it comes back with its circuit closed and allowed by the registry.
abbrev pub Answers :
    {W P R : Type 0}
    → TaskRouteConfig
    → StructuredRequest P
    → AiResult (RoutedCompletion R)
    → RouterState W
    → Type 0
Answers route request (err e) s = Unit
Answers route request (ok r) s =
    (before : List String) × (model : String) × (after : List String) × (earlier : List String)
    × (chain_of request.model route ≡ before ++ model ∷ after)
    × (r.attempted_models ≡ earlier ++ model ∷ [])
    × All (λ m. has_name (chain_of request.model route) m ≡ true) earlier
    × (r.used_fallback ≡ ltb 0 (length before))
    × (r.route_version ≡ route.route_version)
    × (r.task ≡ request.task)
    × ((t : ℕ) → model_circuit_open s.model_states model t ≡ false)
    × ((t : ℕ) → is_model_allowed t s.registry model ≡ true)

-- A route's answer with a safe world.
abbrev pub Finished :
    {W P R : Type 0}
    → TaskRouteConfig
    → StructuredRequest P
    → (W → Type 0)
    → AiResult (RoutedCompletion R) × RouterState W
    → Type 0
Finished route request Safe (result, s) = Safe s.world × Answers route request result s

module _ {W P R : Type 0} (outside : Outside W P R) (policy : RouterPolicy)
    (route : TaskRouteConfig) (request : StructuredRequest P) (Safe : W → Type 0)
    (instant-Safe : (w : W) → Safe w → Safe (outside.instant w).1)
    (wall_ms-Safe : (w : W) → Safe w → Safe (outside.wall_ms w).1)
    (call-Safe : (sent : StructuredRequest P) (limit : ℕ) (w : W)
      → Permitted route request sent limit
      → Safe w
      → Safe (outside.call sent limit w).1) where
  answered :
      (before after earlier : List String) (model : String) (result : AiResult (RoutedCompletion R))
      (s : RouterState W)
      → chain_of request.model route ≡ before ++ model ∷ after
      → All (λ m. has_name (chain_of request.model route) m ≡ true) earlier
      → Ends route request Safe model (length before) (earlier ++ model ∷ []) result s
      → Finished route request Safe (result, s)
  answered before after earlier model (err e) s whole listed ends = ends
  answered before after earlier model (ok r) s whole listed (safe, rest) = (
    safe,
    (before, model, after, earlier, whole, rest.0, listed, rest.1, rest.2, rest.3, rest.4, rest.5),
  )

  walk-Finished :
      (deadline : ℕ) (override : Option ApiProtocol) (before models attempted : List String)
      (run : Run W P)
      → chain_of request.model route ≡ before ++ models
      → All (λ m. has_name (chain_of request.model route) m ≡ true) attempted
      → Sound request Safe run
      → Finished route request Safe
          (walk outside policy route deadline override (length before) models attempted run)
  unfolding walk
  walk-Finished deadline override before [] attempted run whole listed sound = (sound.1, tt)
  walk-Finished deadline override before (model ∷ models) attempted run whole listed sound =
      let here : has_name (chain_of request.model route) model ≡ true =
        rw whole (has_model_split before models model) in
      let next = walk-Finished deadline override (before ++ model ∷ []) models in
      let whole' = whole ∙ sym (append_assoc before (model ∷ []) models) in
      settle here next whole'
        (round outside policy route deadline override (length before) model attempted run)
        (round-SoundRound outside policy route request Safe instant-Safe wall_ms-Safe call-Safe
          deadline model (length before) here override attempted run sound)
    where
      longer : length (before ++ model ∷ []) ≡ suc (length before)
      longer = omega (arith, length-append before (model ∷ []))

      settle :
          has_name (chain_of request.model route) model ≡ true
          → ((attempted' : List String) (run' : Run W P)
              → chain_of request.model route ≡ (before ++ model ∷ []) ++ models
              → All (λ m. has_name (chain_of request.model route) m ≡ true) attempted'
              → Sound request Safe run'
              → Finished route request Safe (
                  walk outside policy route deadline override
                    (length (before ++ model ∷ []))
                    models
                    attempted'
                    run'))
          → chain_of request.model route ≡ (before ++ model ∷ []) ++ models
          → (end : RoundEnd W P R)
          → SoundRound route request Safe model (length before) (attempted ++ model ∷ []) end
          → Finished route request Safe
              (elim end as (λ v. AiResult (RoutedCompletion R) × RouterState W) [
                | stops result s ↦ (result, s)
                | skips run' ↦
                    walk outside policy route deadline override
                      (suc (length before))
                      models
                      attempted
                      run'
                | tries run' ↦
                    walk outside policy route deadline override
                      (suc (length before))
                      models
                      (attempted ++ model ∷ [])
                      run'
              ])
      settle here next whole' (stops result s) ends =
          answered before models attempted model result s whole listed ends
      settle here next whole' (skips run') still =
          subst
            (λ n.
              Finished route request Safe
                (walk outside policy route deadline override n models attempted run'))
            longer (next attempted run' whole' listed still)
      settle here next whole' (tries run') still =
          subst
            (λ n.
              Finished route request Safe (
                walk outside policy route deadline override n models (attempted ++ model ∷ [])
                  run'))
            longer
            (next (attempted ++ model ∷ []) run' whole'
              (All-append _ attempted (model ∷ []) listed (here, tt)) still)

  pub follow-Finished :
      (s : RouterState W)
      → Safe s.world
      → Finished route request Safe (follow outside policy route request s)
  unfolding follow
  follow-Finished s safe =
      let w1 = (outside.instant s.world).1 in
      let (wall, w2) = outside.wall_ms w1 in
      let later = wall_ms-Safe w1 (instant-Safe s.world safe) in
      let answer = consume_budget policy wall s.budget in
      elim (Bool-cases answer.0) [
        | inr e ↦ rw e (later, tt)
        | inl e ↦ rw e (
            walk-Finished ((outside.instant s.world).0 + route.timeout) request.protocol []
              (chain_of request.model route) []
              (record {
                state = record s { world = w2; budget = answer.1 };
                request = request;
                last_error = provider_rejected "no models attempted";
              })
              refl tt ((refl, refl, omega arith), later))
      ]
