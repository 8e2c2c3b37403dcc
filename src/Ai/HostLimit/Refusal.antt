-- ===== src/Ai/HostLimit/Refusal.antt =====
-- When `try_acquire` of crates/ai/src/host_limit.rs refuses with `circuit_open`, and what of the state
-- it keeps.
use lobbytally.Base.{
  ℕ, ◌-◌, ◌≡◌, ◌≢◌, refl, sym, subst, ◌∙◌, inl, inr, true, false, none, leb, if◌then◌else◌,
  Bool-cases,
}
use lobbytally.Ai.{circuit_open, rate_limited, AiResult, ok, err}
use lobbytally.Ai.HostLimit.{TokenOps, HostState, HostClock, is_shut, refill, admit, try_acquire}

module _ {F : Type 0} (ops : TokenOps F) where
  -- What only the end of a call, or an expired time out, changes.
  abbrev pub Keeps : HostState F → HostState F → Type 0
  Keeps s s' =
      (s'.consecutive_429 ≡ s.consecutive_429)
      × (s'.limits ≡ s.limits)
      × (s'.circuit_open_until ≡ s.circuit_open_until)

  admit-Keeps : (s : HostState F) → Keeps s (admit ops s).1
  admit-Keeps s = elim (Bool-cases (leb s.limits.max_concurrency s.in_flight)) [
    | inl full ↦ rw full (refl, refl, refl)
    | inr free ↦ elim (Bool-cases (ops.lt s.tokens ops.one_token)) [
      | inl dry ↦ rw (free, dry) (refl, refl, refl)
      | inr wet ↦ rw (free, wet) (refl, refl, refl)
    ]
  ]

  refill-Keeps :
      (measured refilled : ℕ) (s : HostState F) → Keeps s (refill ops measured refilled s)
  unfolding refill
  refill-Keeps measured refilled s =
      elim (Bool-cases (ops.le (ops.as_secs (measured - s.last_refill)) ops.zero_tokens)) [
        | inl none_passed ↦ rw none_passed (refl, refl, refl)
        | inr passed ↦ rw passed (refl, refl, refl)
      ]

  pub admit-open : (s : HostState F) → (admit ops s).0 ≢ err circuit_open
  admit-open s h = elim (Bool-cases (leb s.limits.max_concurrency s.in_flight)) [
    | inl full ↦
        let clash : ◌≡◌ {A = AiResult (Unit {0})} (err rate_limited) (err circuit_open) =
          rw full at h in
        cc
    | inr free ↦ elim (Bool-cases (ops.lt s.tokens ops.one_token)) [
      | inl dry ↦
          let clash : ◌≡◌ {A = AiResult (Unit {0})} (err rate_limited) (err circuit_open) =
            rw (free, dry) at h in
          cc
      | inr wet ↦
          let clash : ◌≡◌ {A = AiResult (Unit {0})} (ok tt) (err circuit_open) =
            rw (free, wet) at h in
          cc
    ]
  ]

  -- The state of the host once an expired time out is forgotten and the tokens are refilled.
  abbrev pub refilled_host : HostClock → HostState F → HostState F
  refilled_host clock s =
      refill ops clock.measured clock.refilled (record s { circuit_open_until = none })

  pub try_acquire-shut :
      (clock : HostClock) (s : HostState F)
      → is_shut s.circuit_open_until clock.checked ≡ true
      → try_acquire ops clock s ≡ (err circuit_open, s)
  unfolding try_acquire
  try_acquire-shut clock s early =
      subst
        (λ b.
          (if b then (err circuit_open, s) else admit ops (refilled_host clock s))
          ≡ (err circuit_open, s))
        (sym early) refl

  pub try_acquire-unshut :
      (clock : HostClock) (s : HostState F)
      → is_shut s.circuit_open_until clock.checked ≡ false
      → try_acquire ops clock s ≡ admit ops (refilled_host clock s)
  unfolding try_acquire
  try_acquire-unshut clock s late =
      subst
        (λ b.
          (if b then (err circuit_open, s) else admit ops (refilled_host clock s))
          ≡ admit ops (refilled_host clock s))
        (sym late) refl

  pub try_acquire-forgets :
      (clock : HostClock) (s : HostState F)
      → is_shut s.circuit_open_until clock.checked ≡ false
      → Keeps (record s { circuit_open_until = none }) (try_acquire ops clock s).1
  try_acquire-forgets clock s late =
      let (count, limits, shut) = admit-Keeps (refilled_host clock s) in
      let (count', limits', shut') =
        refill-Keeps clock.measured clock.refilled (record s { circuit_open_until = none }) in
      rw (try_acquire-unshut clock s late) (count ∙ count', limits ∙ limits', shut ∙ shut')
