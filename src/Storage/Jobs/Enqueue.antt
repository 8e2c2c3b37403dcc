-- ===== src/Storage/Jobs/Enqueue.antt =====
-- `enqueue_job` and `enqueue_job_if_no_active`. Whether a text is JSON is a parameter (serde_json),
-- and so is the identity that the database hands out to a new row.
use lobbytally.Base.{
  ℕ, String, len, str_eq, Bool, true, not, ◌&&◌, ◌||◌, Option, none, some, List, [], ◌∷◌, ◌++◌, ltb,
  in_range, ◌==◌, if◌then◌else◌, is_blank, eq_ℤ,
}
use lobbytally.Storage.{Result, ok, err, validation, conflict, ◌>>=◌, ◌>>◌, refuse_if}
use lobbytally.Storage.Jobs.{
  JobRecord, EnqueueJob, pending, eq_text, get_job_by_idempotency, has_active_job,
}

-- The row that `INSERT INTO jobs` writes.
unfoldable pub new_row : ℕ → EnqueueJob → JobRecord
new_row fresh job = record {
  job_id = fresh;
  source = job.source;
  task_type = job.task_type;
  entity_key = job.entity_key;
  priority = job.priority;
  attempts = 0;
  max_attempts = job.max_attempts;
  due_at_ms = job.due_at_ms;
  status = pending;
  lease_owner = none;
  lease_expires_at_ms = none;
  idempotency_key = job.idempotency_key;
  completion_idempotency_key = none;
  payload_json = job.payload_json;
  last_error_category = none;
}

-- The comparison of a stored job with the one that reuses its key.
unfoldable pub same_job : JobRecord → EnqueueJob → Bool
same_job existing job =
    str_eq existing.source job.source
    && (str_eq existing.task_type job.task_type
        && (str_eq existing.entity_key job.entity_key
            && (eq_ℤ existing.priority job.priority
                && ((existing.max_attempts == job.max_attempts)
                    && eq_text existing.payload_json job.payload_json))))

-- `INSERT … ON CONFLICT(idempotency_key) DO NOTHING RETURNING job_id`
unfoldable pub insert_job : ℕ → EnqueueJob → List JobRecord → Option ℕ × List JobRecord
insert_job fresh job jobs = elim (get_job_by_idempotency jobs job.idempotency_key) [
  | none ↦ (some fresh, jobs ++ new_row fresh job ∷ [])
  | some _ ↦ (none, jobs)
]

-- What `enqueue_job` returns once the `INSERT` has answered.
unfoldable pub reuse_job :
    EnqueueJob → List JobRecord → Option JobRecord → Result (ℕ × List JobRecord)
reuse_job job jobs none = err (conflict "idempotent job disappeared during enqueue")
reuse_job job jobs (some existing) =
    if same_job existing job
    then ok (existing.job_id, jobs)
    else err (conflict "idempotency key reused with different job payload")

unfoldable pub inserted : EnqueueJob → Option ℕ × List JobRecord → Result (ℕ × List JobRecord)
inserted job (some job_id, jobs) = ok (job_id, jobs)
inserted job (none, jobs) = reuse_job job jobs (get_job_by_idempotency jobs job.idempotency_key)

module _ (is_json : String → Bool) where
  abbrev is_payload : Option String → Bool
  is_payload none = true
  is_payload (some payload) = is_json payload

  -- The checks at the head of `enqueue_job`.
  unfoldable pub check_job : EnqueueJob → Result (Unit {0})
  check_job job = do
    refuse_if (is_blank job.idempotency_key) (validation "idempotency_key is required")
    refuse_if (ltb 128 (len job.idempotency_key))
        (validation "idempotency_key must be at most 128 bytes")
    refuse_if (is_blank job.source || (is_blank job.task_type || is_blank job.entity_key))
        (validation "source, task_type, and entity_key are required")
    refuse_if (not (in_range 1 100 job.max_attempts))
        (validation "max_attempts must be between 1 and 100")
    refuse_if (not (is_payload job.payload_json)) (validation "payload_json must be valid JSON")

  unfoldable pub enqueue_job : ℕ → EnqueueJob → List JobRecord → Result (ℕ × List JobRecord)
  enqueue_job fresh job jobs = do check_job job; inserted job (insert_job fresh job jobs)

  unfoldable pub enqueue_job_if_no_active :
      ℕ → EnqueueJob → List JobRecord → Result (Option ℕ × List JobRecord)
  enqueue_job_if_no_active fresh job jobs = do
    active ← has_active_job jobs job.source job.task_type job.entity_key
    if active
        then ok (none, jobs)
        else do (job_id, jobs') ← enqueue_job fresh job jobs; ok (some job_id, jobs')
