-- ===== src/Storage/Jobs/Calls.antt =====
-- The operations of jobs.rs as calls, and the table after a call: a call that fails is rolled back.
use lobbytally.Base.{ℕ, String, Bool, Option, none, some, List}
use lobbytally.Storage.{Result, ok, err}
use lobbytally.Storage.Jobs.{JobRecord, EnqueueJob}
use lobbytally.Storage.Jobs.Enqueue.{enqueue_job, enqueue_job_if_no_active}
use lobbytally.Storage.Jobs.Lease.{lease_jobs, recover_leased_jobs, yield_job}
use lobbytally.Storage.Jobs.Finish.{complete_job, fail_job}

-- `enqueues` and `enqueues_once` carry the identity of the row that they may insert.
pub data Call : Type 0 where
  enqueues enqueues_once : ℕ → EnqueueJob → Call
  leases : (ℕ → Bool) → String → ℕ → ℕ → Option String → Call
  recovers : Option String → Call
  yields : ℕ → String → ℕ → Call
  completes : ℕ → String → String → Call
  fails : ℕ → String → String → ℕ → Call

-- The worker that makes the call.
abbrev pub caller : Call → Option String
caller (enqueues fresh job) = none
caller (enqueues_once fresh job) = none
caller (leases locked owner limit lease_ms source) = some owner
caller (recovers source) = none
caller (yields id owner delay_ms) = some owner
caller (completes id owner key) = some owner
caller (fails id owner category retry_delay_ms) = some owner

-- The identity that the database would give to a row of the call.
abbrev pub identity : Call → Option ℕ
identity (enqueues fresh job) = some fresh
identity (enqueues_once fresh job) = some fresh
identity _ = none

abbrev pub rows : {A : Type 0} → Result (A × List JobRecord) → List JobRecord → List JobRecord
rows (ok (a, jobs')) jobs = jobs'
rows (err e) jobs = jobs

unfoldable pub after : (String → Bool) → ℕ → Call → List JobRecord → List JobRecord
after is_json now (enqueues fresh job) jobs = rows (enqueue_job is_json fresh job jobs) jobs
after is_json now (enqueues_once fresh job) jobs =
    rows (enqueue_job_if_no_active is_json fresh job jobs) jobs
after is_json now (leases locked owner limit lease_ms source) jobs =
    rows (lease_jobs locked owner limit lease_ms now source jobs) jobs
after is_json now (recovers source) jobs = rows (recover_leased_jobs now source jobs) jobs
after is_json now (yields id owner delay_ms) jobs = rows (yield_job id owner delay_ms now jobs) jobs
after is_json now (completes id owner key) jobs = rows (complete_job id owner key now jobs) jobs
after is_json now (fails id owner category retry_delay_ms) jobs =
    rows (fail_job id owner category retry_delay_ms now jobs) jobs
