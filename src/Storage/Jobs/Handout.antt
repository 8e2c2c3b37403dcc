-- ===== src/Storage/Jobs/Handout.antt =====
-- `lease_jobs` as its caller sees it: the jobs that it hands out, and the table afterwards.
use lobbytally.Base.{
  ℕ, suc, ◌≤◌, ◌<◌, ◌≡◌, ◌≢◌, refl, sym, ap, subst, ◌∙◌, String, Bool, true, false, ◌&&◌, not,
  Option, some, List, [], ◌∷◌, arith, sat_add, length, All,
}
use lobbytally.Table.{Distinct, map-update_where, InOrder}
use lobbytally.Storage.{ok}
use lobbytally.Storage.Jobs.{JobRecord, leased, get_job}
use lobbytally.Storage.Jobs.Lease.{
  from_source, can_lease, lease_row, lease_each, select_due, recover_expired, lease_jobs,
  comes_before, is_due,
}
use lobbytally.Storage.Jobs.Invariant.{ids, IsTable, Moves-Distinct-ids}
use lobbytally.Storage.Jobs.Lifecycle.{recover_expired-Moves}
use lobbytally.Storage.Jobs.Holder.{claims, updated, updated-met, updated-other}
use lobbytally.Storage.Jobs.Granted.{
  granted, Claimable, Claimable-updated, lease_each-granted, select_due-Claimable,
  select_due-Distinct, length-select_due, select_due-InOrder, select_due-picks, InOrder-granted,
}

module _ (owner : String) (expires : ℕ) where
  row_id : (r : JobRecord) → (lease_row owner expires r).job_id ≡ r.job_id
  unfolding lease_row
  row_id r = refl

  ids-updated :
      (jobs : List JobRecord) (id : ℕ)
      → Distinct (ids jobs)
      → Distinct (ids (updated (lease_row owner expires) id can_lease jobs))
  ids-updated jobs id d =
      rw
        (map-update_where (λ (s : JobRecord). s.job_id) (claims id can_lease)
          (lease_row owner expires) jobs row_id)
        d

  -- The loop leaves the jobs alone that it is not given.
  lease_each-other :
      (other : ℕ) (rs jobs : List JobRecord)
      → Distinct (ids jobs)
      → All (λ j. j ≢ other) (ids rs)
      → get_job (lease_each owner expires (ids rs) jobs).1 other ≡ get_job jobs other
  unfolding lease_each
  lease_each-other other [] jobs d away = refl
  lease_each-other other (r ∷ rs) jobs d away =
      lease_each-other other rs (updated (lease_row owner expires) r.job_id can_lease jobs)
        (ids-updated jobs r.job_id d) away.1
      ∙ updated-other jobs d r.job_id can_lease (lease_row owner expires) row_id other
          (λ e. away.0 (sym e))

  -- Each job that the loop is given is found leased in the table that it leaves.
  lease_each-found :
      (rs jobs : List JobRecord)
      → Distinct (ids jobs)
      → Distinct (ids rs)
      → Claimable jobs rs
      → All
          (λ r.
            get_job (lease_each owner expires (ids rs) jobs).1 r.job_id
            ≡ some (lease_row owner expires r))
          rs
  unfolding lease_each
  lease_each-found [] jobs d u c = tt
  lease_each-found (r ∷ rs) jobs d u c =
      let f = lease_row owner expires in
      let jobs' = updated f r.job_id can_lease jobs in
      let d' = ids-updated jobs r.job_id d in
      (
        lease_each-other r.job_id rs jobs' d' u.0
            ∙ (updated-met jobs d r.job_id can_lease f row_id r c.0.0 c.0.1).1,
        lease_each-found rs jobs' d' u.1 (Claimable-updated f row_id jobs r.job_id rs d u.0 c.1),
      )

-- The state of a job that was handed out.
pub record IsGranted (locked : ℕ → Bool) (owner : String) (expires now : ℕ) (source : Option String)
    (jobs' : List JobRecord) (j : JobRecord) : Type 0 where
  pub stored : get_job jobs' j.job_id ≡ some j
  pub status : j.status ≡ leased
  pub lease_owner : j.lease_owner ≡ some owner
  pub lease_expires : j.lease_expires_at_ms ≡ some expires
  pub counted : 0 < j.attempts
  pub within : j.attempts ≤ j.max_attempts
  pub due : j.due_at_ms ≤ now
  pub wanted : from_source source j ≡ true
  pub unlocked : locked j.job_id ≡ false

IsGranted-row :
    (locked : ℕ → Bool) (owner : String) (expires now : ℕ) (source : Option String)
    (jobs' : List JobRecord) (r : JobRecord)
    → (is_due now source r && not (locked r.job_id)) ≡ true
    → get_job jobs' r.job_id ≡ some (lease_row owner expires r)
    → IsGranted locked owner expires now source jobs' (lease_row owner expires r)
unfolding is_due lease_row
IsGranted-row locked owner expires now source jobs' r h found = ground arith

All-granted :
    (locked : ℕ → Bool) (owner : String) (expires now : ℕ) (source : Option String)
    (jobs' : List JobRecord) (rs : List JobRecord)
    → All (λ r. (is_due now source r && not (locked r.job_id)) ≡ true) rs
    → All (λ r. get_job jobs' r.job_id ≡ some (lease_row owner expires r)) rs
    → All (IsGranted locked owner expires now source jobs') (granted owner expires rs)
All-granted locked owner expires now source jobs' [] p f = tt
All-granted locked owner expires now source jobs' (r ∷ rs) p f = (
  IsGranted-row locked owner expires now source jobs' r p.0 f.0,
  All-granted locked owner expires now source jobs' rs p.1 f.1,
)

length-granted :
    (owner : String) (expires : ℕ) (rs : List JobRecord)
    → length (granted owner expires rs) ≡ length rs
length-granted owner expires [] = refl
length-granted owner expires (r ∷ rs) = ap suc (length-granted owner expires rs)

lease_jobs_ok :
    (locked : ℕ → Bool) (owner : String) (limit lease_ms now : ℕ) (source : Option String)
    (jobs out jobs' : List JobRecord)
    → lease_jobs locked owner limit lease_ms now source jobs ≡ ok (out, jobs')
    → let recovered = recover_expired now jobs in
      lease_each owner
        (sat_add now lease_ms)
        (ids (select_due locked now source limit recovered))
        recovered
      ≡ (out, jobs')
unfolding lease_jobs
lease_jobs_ok locked owner limit lease_ms now source jobs out jobs' h = ground arith

-- Where `lease_jobs` succeeds on a well formed table it hands out at most `limit` jobs, in the
-- order of priority, due time and identity. Each is stored in the new table as it was handed out:
-- leased by the caller until the lease runs out, with this attempt counted and no more attempts than
-- it may have, due, of the wanted source, and not locked by another transaction.
pub lease_jobs_outcome :
    (locked : ℕ → Bool) (owner : String) (limit lease_ms now : ℕ) (source : Option String)
    (jobs out jobs' : List JobRecord)
    → IsTable jobs
    → lease_jobs locked owner limit lease_ms now source jobs ≡ ok (out, jobs')
    → (length out ≤ limit)
      × InOrder comes_before out
      × All (IsGranted locked owner (sat_add now lease_ms) now source jobs') out
lease_jobs_outcome locked owner limit lease_ms now source jobs out jobs' v h =
    let recovered = recover_expired now jobs in
    let rs = select_due locked now source limit recovered in
    let expires = sat_add now lease_ms in
    let d =
      Moves-Distinct-ids (some owner) now jobs recovered (recover_expired-Moves owner now jobs)
        v.distinct_ids in
    let u = select_due-Distinct locked now source limit recovered d in
    let c = select_due-Claimable locked now source limit recovered d in
    let e = lease_jobs_ok locked owner limit lease_ms now source jobs out jobs' h in
    let handed : granted owner expires rs ≡ out =
      sym (lease_each-granted owner expires rs recovered d u c)
      ∙ ap (λ (p : List JobRecord × List JobRecord). p.0) e in
    let left : (lease_each owner expires (ids rs) recovered).1 ≡ jobs' =
      ap (λ (p : List JobRecord × List JobRecord). p.1) e in
    let found =
      subst (λ t. All (λ r. get_job t r.job_id ≡ some (lease_row owner expires r)) rs) left
        (lease_each-found owner expires rs recovered d u c) in
    subst
      (λ l.
        (length l ≤ limit)
        × InOrder comes_before l
        × All (IsGranted locked owner expires now source jobs') l)
      handed
      (
        omega (
          arith,
          length-granted owner expires rs,
          length-select_due locked now source limit recovered,
        ),
        InOrder-granted owner expires rs (select_due-InOrder locked now source limit recovered),
        All-granted locked owner expires now source jobs' rs
            (select_due-picks locked now source limit recovered) found,
      )
