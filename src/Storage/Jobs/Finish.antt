-- ===== src/Storage/Jobs/Finish.antt =====
-- `complete_job` and `fail_job`: how the holder of a lease ends an attempt.
use lobbytally.Base.{
  ℕ, ◌*◌, max, String, len, str_eq, Bool, false, not, ◌&&◌, ◌||◌, Option, none, some, List, [], ◌∷◌,
  ltb, leb, ◌==◌, in_range, if◌then◌else◌, sat_add, is_blank,
}
use lobbytally.Table.{update_where, count_where}
use lobbytally.Storage.{Result, ok, err, validation, not_found, conflict, ◌>>◌, refuse_if}
use lobbytally.Storage.Jobs.{
  JobRecord, pending, completed, dead, is_completed, is_text, is_held_by, has_id, get_job,
  lease_state_error, holder_answer,
}
use lobbytally.Storage.Jobs.Lease.{day_ms}

unfoldable pub complete_row : String → JobRecord → JobRecord
complete_row key r = record r {
  status = completed;
  lease_owner = none;
  lease_expires_at_ms = none;
  completion_idempotency_key = some key;
}

-- The answer of `complete_job` to the job as it is after the update.
unfoldable pub completion :
    Option JobRecord
    → ℕ
    → ℕ
    → String
    → String
    → ℕ
    → List JobRecord
    → Result (JobRecord × List JobRecord)
completion none changed id owner key now jobs = err (not_found id)
completion (some job) changed id owner key now jobs =
    if changed == 1
    then ok (job, jobs)
    else if is_completed job.status
    then (if is_text key job.completion_idempotency_key
        then ok (job, jobs)
        else err (conflict "job already completed with different idempotency context"))
    else err (lease_state_error job owner now)

unfoldable pub complete_job :
    ℕ → String → String → ℕ → List JobRecord → Result (JobRecord × List JobRecord)
complete_job id owner key now jobs = do
  refuse_if (is_blank owner) (validation "lease owner is required")
  refuse_if (is_blank key || ltb 128 (len key))
      (validation "completion idempotency_key must be between 1 and 128 bytes")
  let held = λ (r : JobRecord). has_id id r && is_held_by owner now r
  let jobs' = update_where held (complete_row key) jobs
  completion (get_job jobs' id) (count_where held jobs) id owner key now jobs'

unfoldable pub one_of : String → List String → Bool
one_of s [] = false
one_of s (t ∷ ts) = str_eq s t || one_of s ts

unfoldable pub is_known : String → Bool
unfolding one_of
is_known category = one_of category (
    "network" ∷ "storage" ∷ "rate_limited" ∷ "auth" ∷ "not_found" ∷ "parse_changed"
    ∷ "invalid_payload" ∷ [])

unfoldable pub is_permanent : String → Bool
unfolding one_of
is_permanent category =
    one_of category ("auth" ∷ "not_found" ∷ "invalid_payload" ∷ "parse_changed" ∷ [])

unfoldable pub fail_row : Bool → String → ℕ → JobRecord → JobRecord
fail_row permanent category due r =
    let ends = permanent || leb r.max_attempts r.attempts in
    record r {
      status = if ends then dead else pending;
      last_error_category = some category;
      due_at_ms = if ends then r.due_at_ms else due;
      lease_owner = none;
      lease_expires_at_ms = none;
    }

unfoldable pub fail_job :
    ℕ → String → String → ℕ → ℕ → List JobRecord → Result (JobRecord × List JobRecord)
fail_job id owner category retry_delay_ms now jobs = do
  refuse_if (is_blank owner) (validation "lease owner is required")
  refuse_if (not (is_known category)) (validation "unknown stable error_category")
  refuse_if (not (in_range 1 (7 * day_ms) retry_delay_ms))
      (validation "retry_delay_ms must be between 1 and 604800000")
  let held = λ (r : JobRecord). has_id id r && is_held_by owner now r
  let due = sat_add now (max retry_delay_ms 1)
  let jobs' = update_where held (fail_row (is_permanent category) category due) jobs
  holder_answer (get_job jobs' id) (count_where held jobs) id owner now jobs'
