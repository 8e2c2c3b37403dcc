-- ===== src/Ai/Router/Breaker.antt =====
-- The circuit breaker of crates/ai/src/router.rs against the history of what was noted of the models.
use lobbytally.Base.{
  ℕ, suc, ◌-◌, ◌^◌, ◌<◌, ◌≤◌, ◌≡◌, refl, inl, inr, String, str_eq, eq_iff, Bool, false, ◌&&◌, List,
  [], ◌∷◌, ltb, leb, if◌then◌else◌, length, lookup, lookup-store, Bool-cases, arith,
}
use lobbytally.Ai.{AiError}
use lobbytally.Ai.Router.{
  RouterPolicy, ModelRuntimeState, fresh_model, next_u32, sat_add_u64, ModelStates, model_state,
  model_circuit_open, note_model_success, is_counted, failed_state, note_model_failure,
}

-- What the router notes of a model; a failure with the wall clock.
pub data Noted : Type 0 where
  success : String → Noted
  failure : String → AiError → ℕ → Noted

-- The states of the models after a history, the newest event first.
unfoldable pub replay : RouterPolicy → List Noted → ModelStates
replay policy [] = []
replay policy (success model ∷ older) = note_model_success (replay policy older) model
replay policy (failure model error now ∷ older) =
    note_model_failure policy now (replay policy older) model error

-- The times of the failures of a model that count, back to its last success.
unfoldable pub recent_failures : String → List Noted → List ℕ
recent_failures model [] = []
recent_failures model (success other ∷ older) =
    let before = recent_failures model older in if str_eq other model then [] else before
recent_failures model (failure other error now ∷ older) =
    let before = recent_failures model older in
    if str_eq other model && is_counted error then now ∷ before else before

-- The breaker as it is meant: enough failures since the last success, the last of them not long ago.
unfoldable pub is_open : RouterPolicy → List ℕ → ℕ → Bool
is_open policy [] now = false
is_open policy (last ∷ before) now =
    leb policy.circuit_failure_threshold (suc (length before))
    && ltb now (sat_add_u64 last policy.circuit_open_ms)

model_state-success :
    (states : ModelStates) (other model : String)
    → model_state (note_model_success states other) model
      ≡ (if str_eq other model then fresh_model else model_state states model)
unfolding model_state note_model_success
model_state-success states other model = elim (Bool-cases (str_eq other model)) [
  | inl e ↦ rw (lookup-store other model fresh_model states, e) refl
  | inr e ↦ rw (lookup-store other model fresh_model states, e) refl
]

model_state-failure :
    (policy : RouterPolicy) (states : ModelStates) (other model : String) (error : AiError)
    (now : ℕ)
    → model_state (note_model_failure policy now states other error) model ≡ (
        if str_eq other model && is_counted error
        then failed_state policy now (model_state states model)
        else model_state states model)
unfolding model_state note_model_failure
model_state-failure policy states other model error now =
    let v = failed_state policy now (model_state states other) in
    elim (Bool-cases (str_eq other model)) [
      | inl e ↦
          let same = (eq_iff other model).0 e in
          elim (Bool-cases (is_counted error)) [
            | inl c ↦ rw (c, lookup-store other model v states, e) (rw same refl)
            | inr c ↦ rw (c, e) refl
          ]
      | inr e ↦ elim (Bool-cases (is_counted error)) [
        | inl c ↦ rw (c, lookup-store other model v states, e) refl
        | inr c ↦ rw (c, e) refl
      ]
    ]

-- The end of the opening that the last counted failures have set.
unfoldable open_until : RouterPolicy → List ℕ → ℕ
open_until policy [] = 0
open_until policy (last ∷ before) =
    if leb policy.circuit_failure_threshold (suc (length before))
    then sat_add_u64 last policy.circuit_open_ms
    else open_until policy before

open_until_low :
    (policy : RouterPolicy) (times : List ℕ)
    → length times < policy.circuit_failure_threshold
    → open_until policy times ≡ 0
unfolding open_until
open_until_low policy [] low = refl
open_until_low policy (last ∷ before) low =
    let ih = open_until_low policy before (omega (arith, low)) in ground arith

is_open-open_until :
    (policy : RouterPolicy) (times : List ℕ) (now : ℕ)
    → ltb now (open_until policy times) ≡ is_open policy times now
unfolding open_until is_open
is_open-open_until policy [] now = ground arith
is_open-open_until policy (last ∷ before) now =
    elim (Bool-cases (leb policy.circuit_failure_threshold (suc (length before)))) [
      | inl e ↦ rw e refl
      | inr e ↦
          let low : length before < policy.circuit_failure_threshold = ground arith in
          rw (e, open_until_low policy before low) (ground arith)
    ]

recent_failures_short :
    (model : String) (history : List Noted)
    → length (recent_failures model history) ≤ length history
unfolding recent_failures
recent_failures_short model [] = omega arith
recent_failures_short model (success other ∷ older) =
    let ih = recent_failures_short model older in ground arith
recent_failures_short model (failure other error now ∷ older) =
    let ih = recent_failures_short model older in ground arith

-- The state that the times of the failures stand for.
unfoldable state_of : RouterPolicy → List ℕ → ModelRuntimeState
unfolding open_until
state_of policy times = record {
  consecutive_failures = length times;
  circuit_open_until_ms = open_until policy times;
}

failed_state-state_of :
    (policy : RouterPolicy) (now : ℕ) (times : List ℕ)
    → length times < 2 ^ 32 - 1
    → failed_state policy now (state_of policy times) ≡ state_of policy (now ∷ times)
unfolding failed_state state_of open_until
failed_state-state_of policy now times small =
    let count : next_u32 (length times) ≡ suc (length times) = omega (arith, small) in rw count refl

model_state-replay :
    (policy : RouterPolicy) (model : String) (history : List Noted)
    → length history < 2 ^ 32
    → model_state (replay policy history) model ≡ state_of policy (recent_failures model history)
unfolding replay recent_failures
model_state-replay policy model [] small = unfold model_state state_of open_until lookup in refl
model_state-replay policy model (success other ∷ older) small =
    let ih = model_state-replay policy model older (omega (arith, small)) in
    rw (model_state-success (replay policy older) other model)
      (elim (Bool-cases (str_eq other model)) [
        | inl e ↦ rw e (unfold state_of open_until in refl)
        | inr e ↦ rw e ih
      ])
model_state-replay policy model (failure other error now ∷ older) small =
    let ih = model_state-replay policy model older (omega (arith, small)) in
    let few = recent_failures_short model older in
    let times = recent_failures model older in
    rw (model_state-failure policy (replay policy older) other model error now)
      (elim (Bool-cases (str_eq other model && is_counted error)) [
        | inl e ↦ rw (e, ih) (failed_state-state_of policy now times (omega (arith, few, small)))
        | inr e ↦ rw e ih
      ])

-- After any history of fewer than 2 ^ 32 events, and at any time, the circuit of a model is open exactly
-- when enough failures that count were noted of it since its last success and the last of them is
-- less than the opening time ago: what is noted of other models, and errors that do not count, do
-- not matter, nor do the times of the earlier failures.
pub model_circuit_open_lem :
    (policy : RouterPolicy) (model : String) (history : List Noted) (now : ℕ)
    → length history < 2 ^ 32
    → model_circuit_open (replay policy history) model now
      ≡ is_open policy (recent_failures model history) now
unfolding model_circuit_open
model_circuit_open_lem policy model history now small =
    rw (model_state-replay policy model history small)
      (unfold state_of in is_open-open_until policy (recent_failures model history) now)
