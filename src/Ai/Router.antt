-- ===== src/Ai/Router.antt =====
-- The policy and the mutable state of `TaskRouter` in crates/ai/src/router.rs: the budget, the circuit
-- breaker of each model, and the texts by which an error is told apart. One task at a time touches
-- the state; counters are of 32 bits, times of the wall clock are milliseconds.
pub mod Chain
pub mod Walk
pub mod Breaker
pub mod Budget
pub mod Soundness
pub mod Calls
pub mod Rounds
pub mod Delivery
pub mod Completion
mod Examples
use lobbytally.Base.{
  ℕ, ◌+◌, ◌-◌, ◌*◌, ◌/◌, ◌%◌, ◌^◌, min, max, String, Bool, true, false, not, ◌&&◌, ◌||◌, Option,
  none, some, List, [], ◌∷◌, ltb, leb, ◌==◌, if◌then◌else◌, lookup, store, codes, contains,
  to_ascii_lowercase,
}
use lobbytally.Ai.{
  AiError, disabled, timeout, rate_limited, budget_exhausted, circuit_open, provider_rejected,
  invalid_output, transport, config,
}

pub record RouterPolicy : Type 0 where
  pub minute_budget : ℕ
  pub daily_budget : ℕ
  pub circuit_failure_threshold : ℕ
  pub circuit_open_ms : ℕ

pub record ModelRuntimeState : Type 0 where
  pub consecutive_failures : ℕ
  pub circuit_open_until_ms : ℕ

abbrev pub fresh_model : ModelRuntimeState
fresh_model = record { consecutive_failures = 0; circuit_open_until_ms = 0 }

pub record GlobalBudget : Type 0 where
  pub minute_window : ℕ
  pub minute_count : ℕ
  pub day_window : ℕ
  pub day_count : ℕ

-- `fetch_add(1) + 1` on an `AtomicU32`: the addition wraps around.
abbrev pub next_u32 : ℕ → ℕ
next_u32 n = (n + 1) % 2 ^ 32

abbrev pub sat_add_u64 : ℕ → ℕ → ℕ
sat_add_u64 a b = min (a + b) (2 ^ 64 - 1)

abbrev pub ModelStates : Type 0
ModelStates = List (String × ModelRuntimeState)

abbrev pub or_fresh : Option ModelRuntimeState → ModelRuntimeState
or_fresh none = fresh_model
or_fresh (some s) = s

-- `RwLockMap::get`: a model without an entry has a fresh state.
unfoldable pub model_state : ModelStates → String → ModelRuntimeState
model_state states model = or_fresh (lookup model states)

unfoldable pub model_circuit_open : ModelStates → String → ℕ → Bool
unfolding model_state
model_circuit_open states model now_ms =
    ltb now_ms ((model_state states model).circuit_open_until_ms)

unfoldable pub note_model_success : ModelStates → String → ModelStates
note_model_success states model = store model fresh_model states

-- The errors that count against a model.
unfoldable pub is_counted : AiError → Bool
is_counted timeout = true
is_counted (transport message) = true
is_counted rate_limited = true
is_counted (provider_rejected message) = true
is_counted (invalid_output message) = true
is_counted _ = false

unfoldable pub failed_state : RouterPolicy → ℕ → ModelRuntimeState → ModelRuntimeState
failed_state policy now_ms s =
    let failures = next_u32 s.consecutive_failures in
    record {
      consecutive_failures = failures;
      circuit_open_until_ms =
          if leb policy.circuit_failure_threshold failures
          then sat_add_u64 now_ms policy.circuit_open_ms
          else s.circuit_open_until_ms;
    }

unfoldable pub note_model_failure : RouterPolicy → ℕ → ModelStates → String → AiError → ModelStates
unfolding failed_state is_counted model_state
note_model_failure policy now_ms states model error =
    if not (is_counted error)
    then states
    else store model (failed_state policy now_ms (model_state states model)) states

-- The first half of `consume_budget`: the window and the count of the minute.
unfoldable pub count_minute : ℕ → GlobalBudget → GlobalBudget
count_minute minute b =
    let current = if b.minute_window == minute then b.minute_count else 0 in
    record b { minute_window = minute; minute_count = next_u32 current }

unfoldable pub count_day : ℕ → GlobalBudget → GlobalBudget
count_day day b =
    let current = if b.day_window == day then b.day_count else 0 in
    record b { day_window = day; day_count = next_u32 current }

-- The answer is whether the budget admits the request.
unfoldable pub consume_budget : RouterPolicy → ℕ → GlobalBudget → Bool × GlobalBudget
unfolding count_minute count_day
consume_budget policy now_ms b =
    let wall = now_ms / 1000 in
    let b1 = count_minute (wall / 60) b in
    let b2 = count_day (wall / 86400) b1 in
    if ltb policy.minute_budget b1.minute_count
    then (false, b1)
    else (leb b2.day_count policy.daily_budget, b2)

-- `(route_timeout / 2).max(1ms)`, and never more than what remains.
unfoldable pub per_attempt_budget : ℕ → ℕ → ℕ
per_attempt_budget route_timeout remaining = min remaining (max (route_timeout / 2) 1000000)

-- `msg.to_ascii_lowercase().contains(part)`
unfoldable pub mentions : String → String → Bool
mentions message part = contains (codes part) (to_ascii_lowercase (codes message))

unfoldable pub is_protocol_rejection : AiError → Bool
unfolding mentions
is_protocol_rejection (provider_rejected message) =
    mentions message "protocol"
    || (mentions message "responses"
        || (mentions message "chat/completions" || mentions message "not supported"))
is_protocol_rejection _ = false

unfoldable pub is_model_missing : AiError → Bool
unfolding mentions
is_model_missing (provider_rejected message) =
    mentions message "model"
    && (mentions message "not found"
        || (mentions message "does not exist"
            || (mentions message "unknown" || mentions message "http 404")))
is_model_missing _ = false
