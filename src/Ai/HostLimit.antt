-- ===== src/Ai/HostLimit.antt =====
-- crates/ai/src/host_limit.rs: the token bucket, the cap on concurrent calls and the circuit of each
-- host. A f64 is a value of a type that is a parameter, with the operations that the code uses. An
-- operation takes the instants that it reads, in nanoseconds, in the order in which it reads them.
pub mod Permits
pub mod Concurrency
pub mod History
pub mod Refusal
pub mod Circuit
mod Examples
use lobbytally.Base.{
  ℕ, ◌+◌, ◌-◌, ◌*◌, ◌^◌, min, String, Bool, true, false, not, ◌&&◌, Option, none, some, List, [],
  ◌∷◌, ltb, leb, if◌then◌else◌, codes, eq_codes, trim, to_ascii_lowercase,
}
use lobbytally.Ai.{AiError, circuit_open, rate_limited, config, AiResult, ok, err}

pub record TokenOps (F : Type 0) : Type 0 where
  pub zero_tokens : F
  pub one_token : F
  pub add : F → F → F
  pub sub : F → F → F
  pub mul : F → F → F
  pub min_of : F → F → F
  pub le : F → F → Bool
  pub lt : F → F → Bool
  pub as_secs : ℕ → F

pub record HostLimitConfig (F : Type 0) : Type 0 where
  pub max_tokens : F
  pub refill_per_sec : F
  pub max_concurrency : ℕ
  pub circuit_open_for : ℕ
  pub consecutive_429_threshold : ℕ

pub record HostState (F : Type 0) : Type 0 where
  pub tokens : F
  pub in_flight : ℕ
  pub last_refill : ℕ
  pub consecutive_429 : ℕ
  pub circuit_open_until : Option ℕ
  pub limits : HostLimitConfig F

-- The instants that an acquisition reads.
pub record HostClock : Type 0 where
  pub created : ℕ
  pub checked : ℕ
  pub measured : ℕ
  pub refilled : ℕ

abbrev pub sat_next_u32 : ℕ → ℕ
sat_next_u32 n = min (n + 1) (2 ^ 32 - 1)

unfoldable pub new_host : {F : Type 0} → HostLimitConfig F → ℕ → HostState F
new_host limits now = record {
  tokens = limits.max_tokens;
  in_flight = 0;
  last_refill = now;
  consecutive_429 = 0;
  circuit_open_until = none;
  limits = limits;
}

abbrev pub is_shut : Option ℕ → ℕ → Bool
is_shut none now = false
is_shut (some until) now = ltb now until

module _ {F : Type 0} (ops : TokenOps F) where
  unfoldable pub refill : ℕ → ℕ → HostState F → HostState F
  refill measured refilled s =
      let elapsed = ops.as_secs (measured - s.last_refill) in
      if ops.le elapsed ops.zero_tokens then s else record s {
        tokens =
            ops.min_of (ops.add s.tokens (ops.mul elapsed s.limits.refill_per_sec))
              s.limits.max_tokens;
        last_refill = refilled;
      }

  -- What follows the refill.
  abbrev pub admit : HostState F → AiResult (Unit {0}) × HostState F
  admit s =
      if leb s.limits.max_concurrency s.in_flight
      then (err rate_limited, s)
      else if ops.lt s.tokens ops.one_token
      then (err rate_limited, s)
      else (
        ok tt,
        record s { tokens = ops.sub s.tokens ops.one_token; in_flight = sat_next_u32 s.in_flight },
      )

  unfoldable pub try_acquire : HostClock → HostState F → AiResult (Unit {0}) × HostState F
  unfolding refill
  try_acquire clock s =
      if is_shut s.circuit_open_until clock.checked
      then (err circuit_open, s)
      else admit (refill clock.measured clock.refilled (record s { circuit_open_until = none }))

-- `retry_after.unwrap_or(…)`
abbrev pub open_for : ℕ → Option ℕ → ℕ
open_for default none = default
open_for default (some after) = after

module _ {F : Type 0} where
  unfoldable pub release_ok : HostState F → HostState F
  release_ok s = record s { in_flight = s.in_flight - 1; consecutive_429 = 0 }

  unfoldable pub release_429 : Option ℕ → ℕ → HostState F → HostState F
  release_429 retry_after now s =
      let count = sat_next_u32 s.consecutive_429 in
      record s {
        in_flight = s.in_flight - 1;
        consecutive_429 = count;
        circuit_open_until =
            if leb s.limits.consecutive_429_threshold count
            then some (now + open_for s.limits.circuit_open_for retry_after)
            else s.circuit_open_until;
      }

  unfoldable pub release_error : HostState F → HostState F
  release_error s = record s { in_flight = s.in_flight - 1 }

pub data HostRelease : Type 0 where
  succeeded : HostRelease
  limited : Option ℕ → HostRelease
  failed : HostRelease

-- `HostLimiter`, its map from hosts as a function of their code points.
pub record HostLimiter (F : Type 0) : Type 0 where
  pub hosts : List ℕ → Option (HostState F)
  pub default_config : HostLimitConfig F

unfoldable pub new_limiter : {F : Type 0} → HostLimitConfig F → HostLimiter F
new_limiter limits = record { hosts = λ host. none; default_config = limits }

unfoldable pub host_key : String → List ℕ
host_key host = to_ascii_lowercase (trim (codes host))

abbrev pub is_empty : List ℕ → Bool
is_empty [] = true
is_empty (c ∷ cs) = false

abbrev pub or_new : {F : Type 0} → HostState F → Option (HostState F) → HostState F
or_new fresh none = fresh
or_new fresh (some s) = s

unfoldable pub set_host : {F : Type 0} → List ℕ → HostState F → HostLimiter F → HostLimiter F
set_host host s limiter = record limiter {
  hosts = λ (other : List ℕ).
      let before = limiter.hosts other in if eq_codes host other then some s else before;
}

-- The answer is the host of the permit.
abbrev pub permit_for : List ℕ → AiResult (Unit {0}) → AiResult (List ℕ)
permit_for host (ok tt) = ok host
permit_for host (err e) = err e

unfoldable pub acquire_host :
    {F : Type 0}
    → TokenOps F
    → String
    → HostClock
    → HostLimiter F
    → AiResult (List ℕ) × HostLimiter F
unfolding host_key set_host
acquire_host ops host clock limiter =
    let key = host_key host in
    let s = or_new (new_host limiter.default_config clock.created) (limiter.hosts key) in
    let (answer, s') = try_acquire ops clock s in
    if is_empty key
    then (err (config "host is required for rate limiting"), limiter)
    else (permit_for key answer, set_host key s' limiter)

abbrev pub released : {F : Type 0} → HostRelease → ℕ → HostState F → HostState F
released succeeded now s = release_ok s
released (limited retry_after) now s = release_429 retry_after now s
released failed now s = release_error s

abbrev pub release_in :
    {F : Type 0} → List ℕ → HostRelease → ℕ → Option (HostState F) → HostLimiter F → HostLimiter F
release_in host outcome now none limiter = limiter
release_in host outcome now (some s) limiter = set_host host (released outcome now s) limiter

unfoldable pub release_host :
    {F : Type 0} → List ℕ → HostRelease → ℕ → HostLimiter F → HostLimiter F
unfolding set_host
release_host host outcome now limiter = release_in host outcome now (limiter.hosts host) limiter
