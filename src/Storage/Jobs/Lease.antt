-- ===== src/Storage/Jobs/Lease.antt =====
-- `lease_jobs`, `recover_leased_jobs` and `yield_job`: how a job comes to have an owner, and how it
-- goes back to the queue. `locked` says which rows another transaction has locked (`SKIP LOCKED`).
use lobbytally.Base.{
  ℕ, ◌+◌, ◌-◌, ◌*◌, String, Bool, true, false, not, ◌&&◌, Option, none, some, List, [], ◌∷◌, map,
  ltb, leb, ◌==◌, in_range, if◌then◌else◌, sat_add, take, is_blank, ltb_ℤ, str_eq,
}
use lobbytally.Table.{update_where, count_where, select_where, order_by}
use lobbytally.Storage.{Result, ok, validation, ◌>>◌, refuse_if}
use lobbytally.Storage.Jobs.{
  JobRecord, pending, leased, dead, is_pending, is_leased, is_lapsed, is_held_by, has_id, get_job,
  holder_answer,
}

-- `24 * 60 * 60 * 1000`
abbrev pub day_ms : ℕ
day_ms = 24 * 60 * 60 * 1000

-- Recovery: an expired lease goes back to the queue, or to `dead` when no attempt is left.
unfoldable pub is_expired : ℕ → JobRecord → Bool
is_expired now r = is_leased r.status && is_lapsed now r.lease_expires_at_ms

unfoldable pub expire_row : JobRecord → JobRecord
expire_row r = record r {
  status = if leb r.max_attempts r.attempts then dead else pending;
  lease_owner = none;
  lease_expires_at_ms = none;
}

-- Repair of pending rows that have no attempt left.
unfoldable pub is_spent : JobRecord → Bool
is_spent r = is_pending r.status && leb r.max_attempts r.attempts

unfoldable pub bury_row : JobRecord → JobRecord
bury_row r = record r { status = dead; lease_owner = none; lease_expires_at_ms = none }

-- `source = $2`, where the caller gave a source.
abbrev pub from_source : Option String → JobRecord → Bool
from_source none r = true
from_source (some source) r = str_eq r.source source

unfoldable pub is_due : ℕ → Option String → JobRecord → Bool
is_due now source r =
    is_pending r.status
    && (ltb r.attempts r.max_attempts && (leb r.due_at_ms now && from_source source r))

-- `ORDER BY priority ASC, due_at_ms ASC, job_id ASC`
unfoldable pub comes_before : JobRecord → JobRecord → Bool
comes_before a b =
    if ltb_ℤ a.priority b.priority
    then true
    else if ltb_ℤ b.priority a.priority
    then false
    else if ltb a.due_at_ms b.due_at_ms
    then true
    else if ltb b.due_at_ms a.due_at_ms
    then false
    else leb a.job_id b.job_id

-- The rows of the `SELECT job_id … FOR UPDATE SKIP LOCKED`.
unfoldable pub select_due : (ℕ → Bool) → ℕ → Option String → ℕ → List JobRecord → List JobRecord
select_due locked now source limit jobs =
    take limit (
      order_by comes_before (select_where (λ r. is_due now source r && not (locked r.job_id)) jobs))

unfoldable pub can_lease : JobRecord → Bool
can_lease r = is_pending r.status && ltb r.attempts r.max_attempts

unfoldable pub lease_row : String → ℕ → JobRecord → JobRecord
lease_row owner expires r = record r {
  status = leased;
  lease_owner = some owner;
  lease_expires_at_ms = some expires;
  attempts = r.attempts + 1;
}

abbrev pub push_found : Bool → Option JobRecord → List JobRecord → List JobRecord
push_found true (some job) leased_jobs = job ∷ leased_jobs
push_found true none leased_jobs = leased_jobs
push_found false found leased_jobs = leased_jobs

-- The loop over the selected rows: the jobs that were leased, and the table.
unfoldable pub lease_each : String → ℕ → List ℕ → List JobRecord → List JobRecord × List JobRecord
lease_each owner expires [] jobs = ([], jobs)
lease_each owner expires (id ∷ ids) jobs =
    let claim = λ (r : JobRecord). has_id id r && can_lease r in
    let jobs' = update_where claim (lease_row owner expires) jobs in
    let changed = count_where claim jobs in
    let (rest, final) = lease_each owner expires ids jobs' in
    (push_found (changed == 1) (get_job jobs' id) rest, final)

-- The two recovery updates of `lease_jobs`.
unfoldable pub recover_expired : ℕ → List JobRecord → List JobRecord
unfolding is_expired expire_row is_spent bury_row
recover_expired now jobs =
    update_where is_spent bury_row (update_where (is_expired now) expire_row jobs)

unfoldable pub lease_jobs :
    (ℕ → Bool)
    → String
    → ℕ
    → ℕ
    → ℕ
    → Option String
    → List JobRecord
    → Result (List JobRecord × List JobRecord)
lease_jobs locked owner limit lease_ms now source jobs = do
  refuse_if (is_blank owner) (validation "lease owner is required")
  refuse_if (not (in_range 1 100 limit)) (validation "lease limit must be between 1 and 100")
  refuse_if (not (in_range 1000 day_ms lease_ms))
      (validation "lease_ms must be between 1000 and 86400000")
  let recovered = recover_expired now jobs
  let ids = map (λ (r : JobRecord). r.job_id) (select_due locked now source limit recovered)
  ok (lease_each owner (sat_add now lease_ms) ids recovered)

abbrev pub is_blank_source : Option String → Bool
is_blank_source none = false
is_blank_source (some source) = is_blank source

-- An expired lease goes back without its attempt.
unfoldable pub recycle_row : JobRecord → JobRecord
recycle_row r = record r {
  status = pending;
  attempts = r.attempts - 1;
  lease_owner = none;
  lease_expires_at_ms = none;
}

unfoldable pub recover_leased_jobs :
    ℕ → Option String → List JobRecord → Result (ℕ × List JobRecord)
unfolding is_expired recycle_row
recover_leased_jobs now source jobs = do
  refuse_if (is_blank_source source) (validation "lease recovery source must not be empty")
  let lapsed = λ (r : JobRecord). from_source source r && is_expired now r
  ok (count_where lapsed jobs, update_where lapsed recycle_row jobs)

unfoldable pub yield_row : ℕ → JobRecord → JobRecord
yield_row due r = record r {
  status = pending;
  attempts = r.attempts - 1;
  due_at_ms = due;
  lease_owner = none;
  lease_expires_at_ms = none;
}

unfoldable pub yield_job : ℕ → String → ℕ → ℕ → List JobRecord → Result (JobRecord × List JobRecord)
yield_job id owner delay_ms now jobs = do
  refuse_if (is_blank owner) (validation "lease owner is required")
  refuse_if (ltb (7 * day_ms) delay_ms) (validation "delay_ms must be between 0 and 604800000")
  let held = λ (r : JobRecord). has_id id r && is_held_by owner now r
  let jobs' = update_where held (yield_row (sat_add now delay_ms)) jobs
  holder_answer (get_job jobs' id) (count_where held jobs) id owner now jobs'
