-- ===== src/Ai/HostLimit/History.antt =====
-- The histories of a host of crates/ai/src/host_limit.rs, and the circuit that they prescribe.
use lobbytally.Base.{ℕ, suc, ◌+◌, ◌≤◌, Option, none, some, List, [], ◌∷◌, leb, if◌then◌else◌}
use lobbytally.Ai.HostLimit.{
  TokenOps, HostLimitConfig, HostState, HostClock, try_acquire, new_host, release_ok, release_error,
  release_429,
}

-- What a host goes through: it is asked for a permit, or a call to it ends.
pub data HostEvent : Type 0 where
  asked : HostClock → HostEvent
  went_well : HostEvent
  went_wrong : HostEvent
  answered_429 : Option ℕ → ℕ → HostEvent

-- The state of a host after a history, the newest event first.
unfoldable pub replay :
    {F : Type 0} → TokenOps F → HostLimitConfig F → ℕ → List HostEvent → HostState F
replay ops limits created [] = new_host limits created
replay ops limits created (asked clock ∷ older) =
    (try_acquire ops clock (replay ops limits created older)).1
replay ops limits created (went_well ∷ older) = release_ok (replay ops limits created older)
replay ops limits created (went_wrong ∷ older) = release_error (replay ops limits created older)
replay ops limits created (answered_429 retry_after now ∷ older) =
    release_429 retry_after now (replay ops limits created older)

-- The answers 429 since the last call that went well; permits and other errors between them do not
-- count.
unfoldable pub answers_429 : List HostEvent → ℕ
answers_429 [] = 0
answers_429 (asked clock ∷ older) = answers_429 older
answers_429 (went_well ∷ older) = 0
answers_429 (went_wrong ∷ older) = answers_429 older
answers_429 (answered_429 retry_after now ∷ older) = suc (answers_429 older)

-- The end of the time out that the last answer 429 has set that reached the threshold.
unfoldable pub opening_end : {F : Type 0} → HostLimitConfig F → List HostEvent → ℕ
opening_end limits [] = 0
opening_end limits (asked clock ∷ older) = opening_end limits older
opening_end limits (went_well ∷ older) = opening_end limits older
opening_end limits (went_wrong ∷ older) = opening_end limits older
opening_end limits (answered_429 none now ∷ older) =
    let before = opening_end limits older in
    if leb limits.consecutive_429_threshold (suc (answers_429 older))
    then now + limits.circuit_open_for
    else before
opening_end limits (answered_429 (some retry_after) now ∷ older) =
    let before = opening_end limits older in
    if leb limits.consecutive_429_threshold (suc (answers_429 older))
    then now + retry_after
    else before

-- No permit was asked for after the instant.
abbrev pub Past : ℕ → List HostEvent → Type 0
Past now [] = Unit
Past now (asked clock ∷ older) = (clock.checked ≤ now) × Past now older
Past now (_ ∷ older) = Past now older

-- The clock of the permits does not go back.
abbrev pub Ordered : List HostEvent → Type 0
Ordered [] = Unit
Ordered (asked clock ∷ older) = Past clock.checked older × Ordered older
Ordered (_ ∷ older) = Ordered older
