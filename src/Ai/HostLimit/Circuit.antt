-- ===== src/Ai/HostLimit/Circuit.antt =====
-- The circuit of a host in crates/ai/src/host_limit.rs against the history of the host.
use lobbytally.Base.{
  ℕ, suc, ◌+◌, ◌^◌, ◌<◌, ◌≤◌, ◌≡◌, ◌≢◌, refl, sym, ap, ◌∙◌, ◌⊎◌, inl, inr, Option, none, some, List,
  [], ◌∷◌, leb, ltb, if◌then◌else◌, length, Bool-cases, arith,
}
use lobbytally.Ai.{circuit_open, AiResult, err}
use lobbytally.Ai.HostLimit.{
  TokenOps, HostLimitConfig, HostState, HostClock, sat_next_u32, is_shut, try_acquire, open_for,
  new_host, release_ok, release_error, release_429,
}
use lobbytally.Ai.HostLimit.History.{
  HostEvent, asked, went_well, went_wrong, answered_429, replay, answers_429, opening_end, Past,
  Ordered,
}
use lobbytally.Ai.HostLimit.Refusal.{
  refilled_host, admit-open, try_acquire-shut, try_acquire-unshut, try_acquire-forgets,
}

module _ {F : Type 0} (ops : TokenOps F) where
  module _ (limits : HostLimitConfig F) (created : ℕ) where
    -- The state of the host agrees with its history.
    record Tracks (h : List HostEvent) (s : HostState F) : Type 0 where
      counted : s.consecutive_429 ≡ answers_429 h
      configured : s.limits ≡ limits
      shut_until :
          (now : ℕ) → Past now h → is_shut s.circuit_open_until now ≡ ltb now (opening_end limits h)

    asked-Tracks :
        (clock : HostClock) (older : List HostEvent) (s : HostState F)
        → Past clock.checked older
        → Tracks older s
        → Tracks (asked clock ∷ older) (try_acquire ops clock s).1
    unfolding answers_429 opening_end
    asked-Tracks clock older s past t =
        elim (Bool-cases (is_shut s.circuit_open_until clock.checked)) [
          | inl early ↦ rw (try_acquire-shut ops clock s early) (record {
            counted = t.counted;
            configured = t.configured;
            shut_until = λ now p. t.shut_until now p.1;
          })
          | inr late ↦
              let (count, limits_kept, forgotten) = try_acquire-forgets ops clock s late in
              let over = sym (t.shut_until clock.checked past) ∙ late in
              record {
                counted = count ∙ t.counted;
                configured = limits_kept ∙ t.configured;
                shut_until = λ now p. let still = p.0 in rw forgotten (ground arith);
              }
        ]

    opening_end-answered_429 :
        (retry_after : Option ℕ) (at : ℕ) (older : List HostEvent)
        → opening_end limits (answered_429 retry_after at ∷ older) ≡ (
            if leb limits.consecutive_429_threshold (suc (answers_429 older))
            then at + open_for limits.circuit_open_for retry_after
            else opening_end limits older)
    unfolding opening_end
    opening_end-answered_429 none at older = refl
    opening_end-answered_429 (some after) at older = refl

    answered_429-Tracks :
        (retry_after : Option ℕ) (at : ℕ) (older : List HostEvent) (s : HostState F)
        → answers_429 older + 1 < 2 ^ 32
        → Tracks older s
        → Tracks (answered_429 retry_after at ∷ older) (release_429 retry_after at s)
    unfolding answers_429 release_429
    answered_429-Tracks retry_after at older s small t =
        let count : sat_next_u32 s.consecutive_429 ≡ suc (answers_429 older) =
          omega (arith, t.counted, small) in
        elim (Bool-cases (leb limits.consecutive_429_threshold (suc (answers_429 older)))) [
          | inl reached ↦ record {
            counted = count;
            configured = t.configured;
            shut_until = λ now p.
                rw (opening_end-answered_429 retry_after at older, count, t.configured, reached)
                  refl;
          }
          | inr few ↦ record {
            counted = count;
            configured = t.configured;
            shut_until = λ now p.
                rw (opening_end-answered_429 retry_after at older, count, t.configured, few)
                  (t.shut_until now p);
          }
        ]

    answers_429_short : (h : List HostEvent) → answers_429 h ≤ length h
    unfolding answers_429
    answers_429_short [] = omega arith
    answers_429_short (asked clock ∷ older) = omega (arith, answers_429_short older)
    answers_429_short (went_well ∷ older) = omega arith
    answers_429_short (went_wrong ∷ older) = omega (arith, answers_429_short older)
    answers_429_short (answered_429 retry_after now ∷ older) =
        omega (arith, answers_429_short older)

    replay-Tracks :
        (h : List HostEvent)
        → length h < 2 ^ 32
        → Ordered h
        → Tracks h (replay ops limits created h)
    unfolding replay answers_429 opening_end new_host release_ok release_error
    replay-Tracks [] short o = record {
      counted = refl;
      configured = refl;
      shut_until = λ now p. ground arith;
    }
    replay-Tracks (asked clock ∷ older) short (past, o) =
        asked-Tracks clock older _ past (replay-Tracks older (omega (arith, short)) o)
    replay-Tracks (went_well ∷ older) short o =
        let t = replay-Tracks older (omega (arith, short)) o in
        record { counted = refl; configured = t.configured; shut_until = t.shut_until }
    replay-Tracks (went_wrong ∷ older) short o =
        let t = replay-Tracks older (omega (arith, short)) o in
        record { counted = t.counted; configured = t.configured; shut_until = t.shut_until }
    replay-Tracks (answered_429 retry_after now ∷ older) short o =
        answered_429-Tracks retry_after now older _ (omega (arith, answers_429_short older, short))
          (replay-Tracks older (omega (arith, short)) o)

    -- After any history of permits, of calls that went well or wrong, and of answers 429, fewer than
    -- 2^32 events with permits whose clock does not go back, a host is refused with `circuit_open`, its
    -- state unchanged, exactly before the end of its time out, which was set by the last answer 429
    -- that was at least the threshold-th since the last call that went well: its retry-after, or else
    -- the configured time, after it. Permits and other errors between the answers change nothing.
    pub replay-try_acquire :
        (history : List HostEvent) (clock : HostClock)
        → length history < 2 ^ 32
        → Ordered (asked clock ∷ history)
        → ((clock.checked < opening_end limits history)
            × (try_acquire ops clock (replay ops limits created history)
                ≡ (err circuit_open, replay ops limits created history)))
          ⊎ ((opening_end limits history ≤ clock.checked)
              × ((try_acquire ops clock (replay ops limits created history)).0 ≢ err circuit_open))
    replay-try_acquire history clock short (past, ordered) =
        let s = replay ops limits created history in
        let agrees = (replay-Tracks history short ordered).shut_until clock.checked past in
        elim (Bool-cases (ltb clock.checked (opening_end limits history))) [
          | inl early ↦ inl (ground arith, try_acquire-shut ops clock s (agrees ∙ early))
          | inr late ↦ inr (
            ground arith,
            (λ h. admit-open ops (refilled_host ops clock s) (
                ap (λ (p : AiResult (Unit {0}) × HostState F). p.0)
                  (sym (try_acquire-unshut ops clock s (agrees ∙ late)))
                ∙ h)),
          )
        ]
