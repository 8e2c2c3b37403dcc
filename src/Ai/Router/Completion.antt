-- ===== src/Ai/Router/Completion.antt =====
-- `structured_completion` of crates/ai/src/router.rs over the routes of the tasks.
use lobbytally.Base.{
  ℕ, ◌≡◌, refl, sym, subst, inl, inr, Bool, true, false, not, Option, none, some, if◌then◌else◌,
  Bool-cases,
}
use lobbytally.Ai.{
  disabled, AiTaskType, AiResult, ok, err, TaskRouteConfig, StructuredRequest, RoutedCompletion,
}
use lobbytally.Ai.Router.{RouterPolicy}
use lobbytally.Ai.Router.Chain.{Outside, RouterState}
use lobbytally.Ai.Router.Walk.{follow, with_route, structured_completion}
use lobbytally.Ai.Router.Soundness.{Permitted}
use lobbytally.Ai.Router.Delivery.{Answers, Finished, follow-Finished}

module _ {W P R : Type 0} (outside : Outside W P R) (policy : RouterPolicy)
    (routes : AiTaskType → Option TaskRouteConfig) (request : StructuredRequest P) where
  -- An enabled route of the request's task.
  abbrev pub Chosen : TaskRouteConfig → Type 0
  Chosen route = (routes request.task ≡ some route) × (route.enabled ≡ true)

  abbrev Concluded : (W → Type 0) → AiResult (RoutedCompletion R) × RouterState W → Type 0
  Concluded Safe (err e, s) = Safe s.world
  Concluded Safe (ok r, s) =
      Safe s.world × ((route : TaskRouteConfig) × Chosen route × Answers route request (ok r) s)

  Finished-Concluded :
      (route : TaskRouteConfig) (Safe : W → Type 0)
      (end : AiResult (RoutedCompletion R) × RouterState W)
      → Chosen route
      → Finished route request Safe end
      → Concluded Safe end
  Finished-Concluded route Safe (err e, s) chosen done = done.0
  Finished-Concluded route Safe (ok r, s) chosen done = (done.0, (route, chosen, done.1))

  module _ (Safe : W → Type 0) (instant-Safe : (w : W) → Safe w → Safe (outside.instant w).1)
      (wall_ms-Safe : (w : W) → Safe w → Safe (outside.wall_ms w).1)
      (call-Safe : (route : TaskRouteConfig) (sent : StructuredRequest P) (limit : ℕ) (w : W)
        → Chosen route
        → Permitted route request sent limit
        → Safe w
        → Safe (outside.call sent limit w).1) where
    with_route-Concluded :
        (found : Option TaskRouteConfig) (s : RouterState W)
        → routes request.task ≡ found
        → Safe s.world
        → Concluded Safe (with_route outside policy found request s)
    with_route-Concluded none s e safe = safe
    with_route-Concluded (some route) s e safe = elim (Bool-cases route.enabled) [
      | inr off ↦ rw off safe
      | inl on ↦
          let chosen : Chosen route = (e, on) in
          let done =
            follow-Finished outside policy route request Safe instant-Safe wall_ms-Safe
              (λ sent limit w. call-Safe route sent limit w chosen) s safe in
          let end = follow outside policy route request s in
          subst (λ b. Concluded Safe (if not b then (err disabled, s) else end)) (sym on)
            (Finished-Concluded route Safe end chosen done)
    ]

    structured_completion-Concluded :
        (is_available : Bool) (s : RouterState W)
        → Safe s.world
        → Concluded Safe (structured_completion outside policy is_available routes request s)
    unfolding structured_completion
    structured_completion-Concluded true s safe =
        with_route-Concluded (routes request.task) s refl safe
    structured_completion-Concluded false s safe = safe

    -- Whatever holds of the outside world and is kept by reading the clocks and by a permitted call on an
    -- enabled route of the task holds after a completion: the provider is called in no other way.
    -- Permitted is a call that names a model of the chain, keeps the request's task and prompt, asks for
    -- at most the tokens of the request and of the route, and has a time limit that is positive and at
    -- most half the route's timeout, or one millisecond where that is more.
    pub structured_completion-Permitted :
        (is_available : Bool) (s : RouterState W)
        → Safe s.world
        → Safe (structured_completion outside policy is_available routes request s).1.world
    structured_completion-Permitted is_available s safe =
        safe_of (structured_completion outside policy is_available routes request s)
          (structured_completion-Concluded is_available s safe)
      where
        safe_of :
            (end : AiResult (RoutedCompletion R) × RouterState W)
            → Concluded Safe end
            → Safe end.1.world
        safe_of (err e, s') done = done
        safe_of (ok r, s') done = done.0

  -- Where a completion is delivered, an enabled route of the task has a model in its chain that answered:
  -- the attempted models are models of the chain and end with it, a fallback is reported exactly when
  -- models stand before it in the chain, the version is the route's, the task the request's, and at
  -- any time the circuit of the model is closed and the registry allows it.
  pub structured_completion-Answers :
      (is_available : Bool) (s s' : RouterState W) (r : RoutedCompletion R)
      → structured_completion outside policy is_available routes request s ≡ (ok r, s')
      → (route : TaskRouteConfig) × Chosen route × Answers route request (ok r) s'
  structured_completion-Answers is_available s s' r e =
      (subst (Concluded (λ w. Unit {0})) e (
        structured_completion-Concluded (λ w. Unit) (λ w safe. tt) (λ w safe. tt)
          (λ route sent limit w chosen permitted safe. tt) is_available s tt)).1
