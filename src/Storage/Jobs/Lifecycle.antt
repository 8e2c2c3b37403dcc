-- ===== src/Storage/Jobs/Lifecycle.antt =====
-- The steps that a stored job can take, and that the loops of `lease_jobs` move every job along them.
use lobbytally.Base.{
  ℕ, ◌≡◌, refl, String, Bool, true, false, ◌&&◌, Option, none, some, List, [], ◌∷◌, ◌++◌, arith,
  if◌then◌else◌,
}
use lobbytally.Table.{Rows, Star, Rows-refl, Rows-trans, update_where-Rows, update_where}
use lobbytally.Storage.{Result, ok, err, ◌>>=◌}
use lobbytally.Storage.Jobs.{JobRecord, EnqueueJob, has_id, is_held_by, get_job_by_idempotency}
use lobbytally.Storage.Jobs.Enqueue.{
  new_row, check_job, inserted, insert_job, reuse_job, same_job, enqueue_job,
}
use lobbytally.Storage.Jobs.Lease.{
  is_expired, expire_row, is_spent, bury_row, can_lease, lease_row, lease_each, recover_expired,
  recycle_row, yield_row,
}
use lobbytally.Storage.Jobs.Finish.{complete_row, fail_row}
use lobbytally.Storage.Jobs.Calls.{rows}

-- One step of one row, made at a time by a caller.
pub data Transition (actor : Option String) (now : ℕ) (r s : JobRecord) : Type 0 where
  expire : is_expired now r ≡ true → s ≡ expire_row r → Transition actor now r s
  bury : is_spent r ≡ true → s ≡ bury_row r → Transition actor now r s
  recycle : is_expired now r ≡ true → s ≡ recycle_row r → Transition actor now r s
  acquire :
      (owner : String) (expires : ℕ)
      → actor ≡ some owner
      → can_lease r ≡ true
      → s ≡ lease_row owner expires r
      → Transition actor now r s
  give_back :
      (owner : String) (due : ℕ)
      → actor ≡ some owner
      → is_held_by owner now r ≡ true
      → s ≡ yield_row due r
      → Transition actor now r s
  finish :
      (owner key : String)
      → actor ≡ some owner
      → is_held_by owner now r ≡ true
      → s ≡ complete_row key r
      → Transition actor now r s
  give_up :
      (owner category : String) (permanent : Bool) (due : ℕ)
      → actor ≡ some owner
      → is_held_by owner now r ≡ true
      → s ≡ fail_row permanent category due r
      → Transition actor now r s

abbrev pub Moves : Option String → ℕ → List JobRecord → List JobRecord → Type 0
Moves actor now = Rows (Star (Transition actor now))

pub and_right : (a b : Bool) → (a && b) ≡ true → b ≡ true
and_right a b h = ground arith

module _ (owner : String) (now : ℕ) where
  pub recover_expired-Moves :
      (jobs : List JobRecord) → Moves (some owner) now jobs (recover_expired now jobs)
  unfolding recover_expired
  recover_expired-Moves jobs =
      Rows-trans _ jobs _ _
        (update_where-Rows _ (is_expired now) expire_row jobs (λ r h. expire h refl))
        (update_where-Rows _ is_spent bury_row _ (λ r h. bury h refl))

  pub lease_each-Moves :
      (expires : ℕ) (ids : List ℕ) (jobs : List JobRecord)
      → Moves (some owner) now jobs (lease_each owner expires ids jobs).1
  unfolding lease_each
  lease_each-Moves expires [] jobs = Rows-refl _ jobs
  lease_each-Moves expires (id ∷ ids) jobs =
      let claim = λ (r : JobRecord). has_id id r && can_lease r in
      let jobs' = update_where claim (lease_row owner expires) jobs in
      Rows-trans _ jobs jobs' _
        (update_where-Rows _ claim (lease_row owner expires) jobs
          (λ r h. acquire owner expires refl (and_right (has_id id r) _ h) refl))
        (lease_each-Moves expires ids jobs')

-- What holds of the table after `enqueue_job`, from what holds where it inserts and where it does not.
pub rows-enqueue_job :
    (P : List JobRecord → Type 0) (is_json : String → Bool) (fresh : ℕ) (job : EnqueueJob)
    (jobs : List JobRecord)
    → P jobs
    → (check_job is_json job ≡ ok tt
        → get_job_by_idempotency jobs job.idempotency_key ≡ none
        → P (jobs ++ new_row fresh job ∷ []))
    → P (rows (enqueue_job is_json fresh job jobs) jobs)
unfolding enqueue_job check_job inserted insert_job reuse_job same_job get_job_by_idempotency
rows-enqueue_job P is_json fresh job jobs h k = ground (arith, h, k)

pub rows-once :
    (P : List JobRecord → Type 0) (active : Result Bool) (m : Result (ℕ × List JobRecord))
    (jobs : List JobRecord)
    → P jobs
    → (active ≡ ok false → P (rows m jobs))
    → P (
        rows {A = Option ℕ}
          (do
            found ← active
            if found then ok (none, jobs) else do (id, jobs') ← m; ok (some id, jobs'))
          jobs)
rows-once P (err e) m jobs h k = h
rows-once P (ok true) m jobs h k = h
rows-once P (ok false) (err e) jobs h k = h
rows-once P (ok false) (ok (id, jobs')) jobs h k = k refl
