-- ===== src/Storage/Jobs/Growth.antt =====
-- Every call of jobs.rs moves the stored jobs along the steps, and adds at most one row.
use lobbytally.Base.{
  ℕ, ◌≡◌, refl, String, Bool, true, ◌&&◌, Option, none, some, List, [], ◌∷◌, ◌++◌, arith, sat_add,
  max, map,
}
use lobbytally.Table.{Rows-refl, Rows-trans, update_where-Rows, update_where}
use lobbytally.Storage.{ok}
use lobbytally.Storage.Jobs.{
  JobRecord, EnqueueJob, has_id, is_held_by, holder_answer, get_job_by_idempotency,
}
use lobbytally.Storage.Jobs.Enqueue.{new_row, check_job, enqueue_job, enqueue_job_if_no_active}
use lobbytally.Storage.Jobs.Lease.{
  from_source, select_due, is_expired, lease_each, recover_expired, lease_jobs, recycle_row,
  recover_leased_jobs, yield_row, yield_job,
}
use lobbytally.Storage.Jobs.Finish.{
  complete_row, completion, complete_job, fail_row, is_permanent, fail_job,
}
use lobbytally.Storage.Jobs.Calls.{
  Call, enqueues, enqueues_once, leases, recovers, yields, completes, fails, caller, identity, rows,
  after,
}
use lobbytally.Storage.Jobs.Lifecycle.{
  Transition, recycle, give_back, finish, give_up, Moves, and_right, recover_expired-Moves,
  lease_each-Moves, rows-enqueue_job, rows-once,
}

-- A row that an enqueue may add to a table.
pub record IsNew (is_json : String → Bool) (identity : Option ℕ) (jobs : List JobRecord)
    (row : JobRecord) : Type 0 where
  pub fresh : ℕ
  pub job : EnqueueJob
  pub from_call : identity ≡ some fresh
  pub checked : check_job is_json job ≡ ok tt
  pub absent : get_job_by_idempotency jobs job.idempotency_key ≡ none
  pub written : row ≡ new_row fresh job

-- The table after a call: its jobs moved on, and at most the new row of an enqueue.
pub data Grows (is_json : String → Bool) (now : ℕ) (call : Call) (jobs t : List JobRecord)
    : Type 0 where
  moves_only : Moves (caller call) now jobs t → Grows is_json now call jobs t
  adds :
      (row : JobRecord)
      → IsNew is_json (identity call) jobs row
      → t ≡ jobs ++ row ∷ []
      → Grows is_json now call jobs t

module _ (is_json : String → Bool) (now : ℕ) where
  unmoved : (call : Call) (jobs : List JobRecord) → Grows is_json now call jobs jobs
  unmoved call jobs = moves_only (Rows-refl _ jobs)

  added :
      (call : Call) (fresh : ℕ) (job : EnqueueJob) (jobs : List JobRecord)
      → identity call ≡ some fresh
      → check_job is_json job ≡ ok tt
      → get_job_by_idempotency jobs job.idempotency_key ≡ none
      → Grows is_json now call jobs (jobs ++ new_row fresh job ∷ [])
  added call fresh job jobs e checked absent =
      adds (new_row fresh job)
        (record {
          fresh = fresh;
          job = job;
          from_call = e;
          checked = checked;
          absent = absent;
          written = refl;
        })
        refl

  enqueues-Grows :
      (call : Call) (fresh : ℕ) (job : EnqueueJob) (jobs : List JobRecord)
      → identity call ≡ some fresh
      → Grows is_json now call jobs (rows (enqueue_job is_json fresh job jobs) jobs)
  enqueues-Grows call fresh job jobs e =
      rows-enqueue_job (Grows is_json now call jobs) is_json fresh job jobs (unmoved call jobs)
        (added call fresh job jobs e)

  -- A guarded update of the rows that the caller holds.
  held-Moves :
      (call : Call) (owner : String) (id : ℕ) (f : JobRecord → JobRecord) (jobs : List JobRecord)
      → caller call ≡ some owner
      → ((r : JobRecord) → is_held_by owner now r ≡ true → Transition (caller call) now r (f r))
      → Grows is_json now call jobs
          (update_where (λ r. has_id id r && is_held_by owner now r) f jobs)
  held-Moves call owner id f jobs e step =
      moves_only (update_where-Rows _ _ f jobs (λ r h. step r (and_right (has_id id r) _ h)))

  yields-Grows :
      (id : ℕ) (owner : String) (delay_ms : ℕ) (jobs : List JobRecord)
      → Grows is_json now
          (yields id owner delay_ms)
          jobs
          (rows (yield_job id owner delay_ms now jobs) jobs)
  unfolding yield_job holder_answer
  yields-Grows id owner delay_ms jobs =
      let call = yields id owner delay_ms in
      ground (
        arith,
        unmoved call jobs,
        held-Moves call owner id (yield_row (sat_add now delay_ms)) jobs refl
            (λ r h. give_back owner _ refl h refl),
      )

  fails-Grows :
      (id : ℕ) (owner category : String) (retry_delay_ms : ℕ) (jobs : List JobRecord)
      → Grows is_json now
          (fails id owner category retry_delay_ms)
          jobs
          (rows (fail_job id owner category retry_delay_ms now jobs) jobs)
  unfolding fail_job holder_answer
  fails-Grows id owner category retry_delay_ms jobs =
      let call = fails id owner category retry_delay_ms in
      let due = sat_add now (max retry_delay_ms 1) in
      let f = fail_row (is_permanent category) category due in
      ground (
        arith,
        unmoved call jobs,
        held-Moves call owner id f jobs refl
            (λ r h. give_up owner category (is_permanent category) due refl h refl),
      )

  completes-Grows :
      (id : ℕ) (owner key : String) (jobs : List JobRecord)
      → Grows is_json now
          (completes id owner key)
          jobs
          (rows (complete_job id owner key now jobs) jobs)
  unfolding complete_job completion
  completes-Grows id owner key jobs =
      let call = completes id owner key in
      ground (
        arith,
        unmoved call jobs,
        held-Moves call owner id (complete_row key) jobs refl (λ r h. finish owner key refl h refl),
      )

  recovers-Grows :
      (source : Option String) (jobs : List JobRecord)
      → Grows is_json now (recovers source) jobs (rows (recover_leased_jobs now source jobs) jobs)
  unfolding recover_leased_jobs
  recovers-Grows source jobs =
      let lapsed = λ (r : JobRecord). from_source source r && is_expired now r in
      let moved : Grows is_json now (recovers source) jobs (update_where lapsed recycle_row jobs) =
        moves_only (
          update_where-Rows _ lapsed recycle_row jobs
            (λ r h. recycle (and_right (from_source source r) _ h) refl)) in
      ground (arith, unmoved (recovers source) jobs, moved)

  leases-Grows :
      (locked : ℕ → Bool) (owner : String) (limit lease_ms : ℕ) (source : Option String)
      (jobs : List JobRecord)
      → Grows is_json now
          (leases locked owner limit lease_ms source)
          jobs
          (rows (lease_jobs locked owner limit lease_ms now source jobs) jobs)
  unfolding lease_jobs
  leases-Grows locked owner limit lease_ms source jobs =
      let call = leases locked owner limit lease_ms source in
      let recovered = recover_expired now jobs in
      let ids = map (λ (r : JobRecord). r.job_id) (select_due locked now source limit recovered) in
      let moved : Grows is_json now call jobs
          (lease_each owner (sat_add now lease_ms) ids recovered).1 =
        moves_only (
          Rows-trans _ jobs recovered _ (recover_expired-Moves owner now jobs)
            (lease_each-Moves owner now (sat_add now lease_ms) ids recovered)) in
      ground (arith, unmoved call jobs, moved)

  enqueues_once-Grows :
      (fresh : ℕ) (job : EnqueueJob) (jobs : List JobRecord)
      → Grows is_json now
          (enqueues_once fresh job)
          jobs
          (rows (enqueue_job_if_no_active is_json fresh job jobs) jobs)
  unfolding enqueue_job_if_no_active
  enqueues_once-Grows fresh job jobs =
      let call = enqueues_once fresh job in
      rows-once (Grows is_json now call jobs) _ (enqueue_job is_json fresh job jobs) jobs
        (unmoved call jobs) (λ _. enqueues-Grows call fresh job jobs refl)

  pub after-Grows :
      (call : Call) (jobs : List JobRecord)
      → Grows is_json now call jobs (after is_json now call jobs)
  unfolding after
  after-Grows (enqueues fresh job) jobs = enqueues-Grows (enqueues fresh job) fresh job jobs refl
  after-Grows (enqueues_once fresh job) jobs = enqueues_once-Grows fresh job jobs
  after-Grows (leases locked owner limit lease_ms source) jobs =
      leases-Grows locked owner limit lease_ms source jobs
  after-Grows (recovers source) jobs = recovers-Grows source jobs
  after-Grows (yields id owner delay_ms) jobs = yields-Grows id owner delay_ms jobs
  after-Grows (completes id owner key) jobs = completes-Grows id owner key jobs
  after-Grows (fails id owner category retry_delay_ms) jobs =
      fails-Grows id owner category retry_delay_ms jobs
