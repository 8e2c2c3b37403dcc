-- ===== src/Storage/Jobs/Active.antt =====
-- At most one pending or leased job for each source, task and entity, where jobs are scheduled by
-- `enqueue_job_if_no_active` alone.
use lobbytally.Base.{
  ℕ, ◌≤◌, ◌≡◌, refl, sym, ◌∙◌, inl, inr, String, eq_iff, Bool, true, false, Option, none, some,
  List, [], ◌∷◌, ◌++◌, arith, Bool-cases,
}
use lobbytally.Table.{count_where, count_where-append, Rows-count_where}
use lobbytally.Storage.{ok}
use lobbytally.Storage.Jobs.{JobRecord, EnqueueJob, is_held_by, is_active, has_active_job}
use lobbytally.Storage.Jobs.Enqueue.{new_row, enqueue_job_if_no_active}
use lobbytally.Storage.Jobs.Lease.{
  expire_row, bury_row, recycle_row, lease_row, yield_row, is_expired, is_spent, can_lease,
}
use lobbytally.Storage.Jobs.Finish.{complete_row, fail_row}
use lobbytally.Storage.Jobs.Calls.{
  Call, enqueues, enqueues_once, leases, recovers, yields, completes, fails, caller, identity,
  after,
}
use lobbytally.Storage.Jobs.Lifecycle.{
  Transition, expire, bury, recycle, acquire, give_back, finish, give_up, Moves, rows-once,
  rows-enqueue_job,
}
use lobbytally.Storage.Jobs.Growth.{Grows, moves_only, adds, after-Grows}

-- Any call but a plain `enqueue_job`.
abbrev pub IsScheduled : Call → Type 0
IsScheduled (enqueues fresh job) = ⊥
IsScheduled _ = Unit

module _ (source task_type entity_key : String) where
  abbrev pub actives : List JobRecord → ℕ
  actives = count_where (is_active source task_type entity_key)

  Transition-inactive :
      (actor : Option String) (now : ℕ) (r s : JobRecord)
      → Transition actor now r s
      → is_active source task_type entity_key r ≡ false
      → is_active source task_type entity_key s ≡ false
  unfolding is_active is_expired expire_row is_spent bury_row recycle_row can_lease lease_row
      is_held_by yield_row complete_row fail_row
  Transition-inactive actor now r s (expire h e) f = ground arith
  Transition-inactive actor now r s (bury h e) f = ground arith
  Transition-inactive actor now r s (recycle h e) f = ground arith
  Transition-inactive actor now r s (acquire owner expires a h e) f = ground arith
  Transition-inactive actor now r s (give_back owner due a h e) f = ground arith
  Transition-inactive actor now r s (finish owner key a h e) f = ground arith
  Transition-inactive actor now r s (give_up owner category permanent due a h e) f = ground arith

  Moves-actives :
      (actor : Option String) (now : ℕ) (jobs t : List JobRecord)
      → Moves actor now jobs t
      → actives jobs ≤ 1
      → actives t ≤ 1
  Moves-actives actor now jobs t m h = omega (
    arith,
    Rows-count_where (Transition actor now) (is_active source task_type entity_key)
        (Transition-inactive actor now) jobs t m,
  )

  -- A new active row is for the entity that `has_active_job` was asked about.
  new_row-same :
      (fresh : ℕ) (job : EnqueueJob)
      → is_active source task_type entity_key (new_row fresh job) ≡ true
      → (job.source ≡ source) × (job.task_type ≡ task_type) × (job.entity_key ≡ entity_key)
  unfolding is_active new_row
  new_row-same fresh job h = (
    ground (arith, eq_iff job.source source),
    ground (arith, eq_iff job.task_type task_type),
    ground (arith, eq_iff job.entity_key entity_key),
  )

  none_active :
      (jobs : List JobRecord)
      → has_active_job jobs source task_type entity_key ≡ ok false
      → actives jobs ≡ 0
  unfolding has_active_job
  none_active jobs h = ground arith

  new_row-actives :
      (fresh : ℕ) (job : EnqueueJob) (jobs : List JobRecord)
      → actives jobs ≤ 1
      → has_active_job jobs job.source job.task_type job.entity_key ≡ ok false
      → actives (jobs ++ new_row fresh job ∷ []) ≤ 1
  unfolding count_where
  new_row-actives fresh job jobs h free =
      elim (Bool-cases (is_active source task_type entity_key (new_row fresh job))) [
        | inl same ↦
            let (s, t, e) = new_row-same fresh job same in
            let empty : actives jobs ≡ 0 = none_active jobs (rw (s, t, e) at free) in
            rw
              (
                count_where-append (is_active source task_type entity_key) jobs
                    (new_row fresh job ∷ []),
                same,
              )
              (omega arith)
        | inr other ↦
            rw
              (
                count_where-append (is_active source task_type entity_key) jobs
                    (new_row fresh job ∷ []),
                other,
              )
              (omega arith)
      ]

  Grows-actives :
      (is_json : String → Bool) (now : ℕ) (call : Call) (jobs t : List JobRecord)
      → identity call ≡ none
      → Grows is_json now call jobs t
      → actives jobs ≤ 1
      → actives t ≤ 1
  Grows-actives is_json now call jobs t e (moves_only m) h =
      Moves-actives (caller call) now jobs t m h
  Grows-actives is_json now call jobs t e (adds row n w) h = absurd (never (sym e ∙ n.from_call))
    where
      never : {i : ℕ} → none ≡ some i → ⊥
      never p = cc

  -- Where jobs enter only by `enqueue_job_if_no_active`, no call makes a second active job for a
  -- source, a task and an entity: if at most one is pending or leased before the call, at most one
  -- is after it.
  pub after_one_active :
      (is_json : String → Bool) (now : ℕ) (call : Call) (jobs : List JobRecord)
      → IsScheduled call
      → actives jobs ≤ 1
      → actives (after is_json now call jobs) ≤ 1
  after_one_active is_json now (enqueues fresh job) jobs i h = absurd i
  after_one_active is_json now (enqueues_once fresh job) jobs i h =
      unfold after enqueue_job_if_no_active in
      rows-once (λ t. actives t ≤ 1) _ _ jobs h
        (λ free.
          rows-enqueue_job (λ t. actives t ≤ 1) is_json fresh job jobs h
            (λ _ _. new_row-actives fresh job jobs h free))
  after_one_active is_json now (leases locked owner limit lease_ms from) jobs i h =
      let call = leases locked owner limit lease_ms from in
      Grows-actives is_json now call jobs _ refl (after-Grows is_json now call jobs) h
  after_one_active is_json now (recovers from) jobs i h =
      Grows-actives is_json now (recovers from) jobs _ refl
        (after-Grows is_json now (recovers from) jobs) h
  after_one_active is_json now (yields id owner delay) jobs i h =
      Grows-actives is_json now (yields id owner delay) jobs _ refl
        (after-Grows is_json now (yields id owner delay) jobs) h
  after_one_active is_json now (completes id owner key) jobs i h =
      Grows-actives is_json now (completes id owner key) jobs _ refl
        (after-Grows is_json now (completes id owner key) jobs) h
  after_one_active is_json now (fails id owner category delay) jobs i h =
      Grows-actives is_json now (fails id owner category delay) jobs _ refl
        (after-Grows is_json now (fails id owner category delay) jobs) h
