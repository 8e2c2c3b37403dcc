-- ===== src/Storage/Jobs.antt =====
-- crates/storage/src/jobs.rs and the job records of crates/storage/src/models.rs: the rows of the
-- table `jobs` and the queries on it. The operations and their proofs are in the modules below.
-- Times, attempts and limits are numbers that are not negative; `priority` is signed.
pub mod Enqueue
pub mod Lease
pub mod Finish
pub mod Calls
pub mod Lifecycle
pub mod Growth
pub mod Invariant
pub mod Exclusive
pub mod Holder
pub mod Answers
pub mod Faults
pub mod Effects
pub mod Outcomes
pub mod Retry
pub mod Failure
pub mod Granted
pub mod Handout
pub mod Enqueued
pub mod Active
mod Examples
use lobbytally.Base.{
  ℕ, String, str_eq, Bool, true, false, ◌&&◌, ◌||◌, Option, none, some, List, ltb, leb, ◌==◌,
  if◌then◌else◌, is_blank, ℤ,
}
use lobbytally.Table.{find_where, count_where}
use lobbytally.Storage.{
  StorageError, LeaseFault, wrong_status, another_owner, lease_expired, state_changed, lease,
  Result, ok, err, not_found, validation, ◌>>=◌, ◌>>◌, refuse_if,
}

-- The values that the column `status` admits.
pub data JobStatus : Type 0 where
  pending leased completed failed dead : JobStatus

-- `created_at_ms` and `updated_at_ms` are columns that no query of the file reads.
pub record JobRecord : Type 0 where
  pub job_id : ℕ
  pub source : String
  pub task_type : String
  pub entity_key : String
  pub priority : ℤ
  pub attempts : ℕ
  pub max_attempts : ℕ
  pub due_at_ms : ℕ
  pub status : JobStatus
  pub lease_owner : Option String
  pub lease_expires_at_ms : Option ℕ
  pub idempotency_key : String
  pub completion_idempotency_key : Option String
  pub payload_json : Option String
  pub last_error_category : Option String

pub record EnqueueJob : Type 0 where
  pub source : String
  pub task_type : String
  pub entity_key : String
  pub priority : ℤ
  pub due_at_ms : ℕ
  pub idempotency_key : String
  pub payload_json : Option String
  pub max_attempts : ℕ

abbrev pub is_pending : JobStatus → Bool
is_pending pending = true
is_pending _ = false

abbrev pub is_leased : JobStatus → Bool
is_leased leased = true
is_leased _ = false

abbrev pub is_completed : JobStatus → Bool
is_completed completed = true
is_completed _ = false

-- `column = $1` on a column that may be NULL
abbrev pub is_text : String → Option String → Bool
is_text s none = false
is_text s (some t) = str_eq t s

-- Equality of two `Option<String>`.
abbrev pub eq_text : Option String → Option String → Bool
eq_text none none = true
eq_text none (some t) = false
eq_text (some s) none = false
eq_text (some s) (some t) = str_eq s t

-- `lease_expires_at_ms IS NOT NULL AND lease_expires_at_ms > now`
abbrev pub is_after : ℕ → Option ℕ → Bool
is_after now none = false
is_after now (some expires) = ltb now expires

-- `lease_expires_at_ms IS NULL OR lease_expires_at_ms <= now`
abbrev pub is_lapsed : ℕ → Option ℕ → Bool
is_lapsed now none = true
is_lapsed now (some expires) = leb expires now

-- The condition of an update that only the holder of a live lease may make.
unfoldable pub is_held_by : String → ℕ → JobRecord → Bool
is_held_by owner now r =
    is_leased r.status && (is_text owner r.lease_owner && is_after now r.lease_expires_at_ms)

abbrev pub has_id : ℕ → JobRecord → Bool
has_id id r = r.job_id == id

abbrev pub has_key : String → JobRecord → Bool
has_key key r = str_eq r.idempotency_key key

unfoldable pub get_job : List JobRecord → ℕ → Option JobRecord
get_job jobs id = find_where (has_id id) jobs

unfoldable pub get_job_by_idempotency : List JobRecord → String → Option JobRecord
get_job_by_idempotency jobs key = find_where (has_key key) jobs

abbrev is_status : JobStatus → JobStatus → Bool
is_status pending pending = true
is_status leased leased = true
is_status completed completed = true
is_status failed failed = true
is_status dead dead = true
is_status _ _ = false

unfoldable pub count_jobs_by_status : List JobRecord → JobStatus → ℕ
count_jobs_by_status jobs status = count_where (λ r. is_status status r.status) jobs

-- The condition of the `EXISTS` query of `has_active_job`.
unfoldable pub is_active : String → String → String → JobRecord → Bool
is_active source task_type entity_key r =
    str_eq r.source source
    && (str_eq r.task_type task_type
        && (str_eq r.entity_key entity_key && (is_pending r.status || is_leased r.status)))

unfoldable pub has_active_job : List JobRecord → String → String → String → Result Bool
has_active_job jobs source task_type entity_key = do
  refuse_if (is_blank source || (is_blank task_type || is_blank entity_key))
      (validation "source, task_type, and entity_key are required")
  ok (leb 1 (count_where (is_active source task_type entity_key) jobs))

unfoldable pub lease_state_error : JobRecord → String → ℕ → StorageError
lease_state_error job owner now =
    if is_leased job.status
    then (if is_text owner job.lease_owner
        then (if is_lapsed now job.lease_expires_at_ms
            then lease lease_expired
            else lease state_changed)
        else lease another_owner)
    else lease wrong_status

-- The answer of `yield_job` and `fail_job`: the job as it is after the update, if the update
-- changed it.
unfoldable pub holder_answer :
    Option JobRecord → ℕ → ℕ → String → ℕ → List JobRecord → Result (JobRecord × List JobRecord)
holder_answer none changed id owner now jobs = err (not_found id)
holder_answer (some job) changed id owner now jobs =
    if changed == 1 then ok (job, jobs) else err (lease_state_error job owner now)
