-- ===== src/Storage/Jobs/Outcomes.antt =====
-- What a worker that gives a job back, by `yield_job` or by `fail_job`, is told, and what the table
-- then holds.
use lobbytally.Base.{
  ℕ, ◌*◌, ◌≤◌, ◌≡◌, refl, ap, subst, ◌⊎◌, inl, inr, String, true, false, none, some, List, [], ◌∷◌,
  max, arith, sat_add, is_blank, All, Bool-cases, Option-cases, ==_iff, ◌==◌,
}
use lobbytally.Table.{find_where}
use lobbytally.Storage.{LeaseFault, lease, Result, ok, err, not_found}
use lobbytally.Storage.Jobs.{JobRecord, is_held_by, has_id, get_job}
use lobbytally.Storage.Jobs.Lease.{day_ms, yield_row, yield_job}
use lobbytally.Storage.Jobs.Finish.{fail_row, is_permanent, is_known, fail_job}
use lobbytally.Storage.Jobs.Invariant.{IsRow, IsTable}
use lobbytally.Storage.Jobs.Holder.{updated, updated-met, updated-other}
use lobbytally.Storage.Jobs.Answers.{held_answer, yield_job-eq-answer, fail_job-eq-answer}
use lobbytally.Storage.Jobs.Faults.{Holds, IsFault, is_held_by-Holds, lease_state_error-IsFault}
use lobbytally.Storage.Jobs.Effects.{GivenBack, Failed, yield_row-GivenBack, fail_row-Failed}

-- The row under the identity becomes `s`, and no other row changes.
abbrev pub Replaces : ℕ → JobRecord → List JobRecord → List JobRecord → Type 0
Replaces id s jobs jobs' =
    (get_job jobs' id ≡ some s)
    × ((other : ℕ) → (other ≡ id) ⊎ (get_job jobs' other ≡ get_job jobs other))

-- What a call that only the holder of a live lease may make answers: the job that its change leaves,
-- the fault of the lease, or that there is no such job.
abbrev pub HolderOutcome :
    ℕ
    → String
    → ℕ
    → (JobRecord → JobRecord → Type 0)
    → List JobRecord
    → Result (JobRecord × List JobRecord)
    → Type 0
HolderOutcome id owner now Change jobs answer =
    ((r s : JobRecord) × (jobs' : List JobRecord) × (answer ≡ ok (s, jobs'))
      × (get_job jobs id ≡ some r)
      × Holds owner now r
      × Change r s
      × Replaces id s jobs jobs')
    ⊎ ((r : JobRecord) × (fault : LeaseFault) × (answer ≡ err (lease fault))
        × (get_job jobs id ≡ some r)
        × IsFault owner now r fault)
    ⊎ ((answer ≡ err (not_found id)) × (get_job jobs id ≡ none))

get_job-IsRow :
    (jobs : List JobRecord) (id : ℕ) (r : JobRecord)
    → All IsRow jobs
    → get_job jobs id ≡ some r
    → IsRow r
unfolding get_job find_where
get_job-IsRow [] id r v h = cc
get_job-IsRow (x ∷ jobs) id r (w, v) h = elim (Bool-cases (has_id id x)) [
  | inl e ↦ let same : some x ≡ some r = rw e at h in subst IsRow (cc) w
  | inr e ↦ get_job-IsRow jobs id r v (rw e at h)
]

module _ {jobs : List JobRecord} (v : IsTable jobs) (id : ℕ) (owner : String) (now : ℕ) where
  held_answer_cases :
      (Change : JobRecord → JobRecord → Type 0) (f : JobRecord → JobRecord)
      → ((r : JobRecord) → (f r).job_id ≡ r.job_id)
      → ((r : JobRecord) → Change r (f r))
      → HolderOutcome id owner now Change jobs (held_answer f id owner now jobs (get_job jobs id))
  held_answer_cases Change f keeps changes = elim (Option-cases (get_job jobs id)) [
    | inl e ↦ inr (inr (rw e refl, e))
    | inr (r, e) ↦ elim (Bool-cases (is_held_by owner now r)) [
      | inl held ↦ inl (
        r,
        f r,
        updated f id (is_held_by owner now) jobs,
        rw (e, held) refl,
        e,
        is_held_by-Holds owner now r held,
        changes r,
        ((updated-met jobs v.distinct_ids id (is_held_by owner now) f keeps r e held).1, elsewhere),
      )
      | inr free ↦
          let (fault, reason, told) =
            lease_state_error-IsFault owner now r (get_job-IsRow jobs id r v.each e) free in
          inr (inl (r, fault, rw (e, free) (ap err told), e, reason))
    ]
  ]
    where
      elsewhere :
          (other : ℕ)
          → (other ≡ id)
            ⊎ (get_job (updated f id (is_held_by owner now) jobs) other ≡ get_job jobs other)
      elsewhere other = elim (Bool-cases (other == id)) [
        | inl same ↦ inl ((==_iff other id).0 same)
        | inr differs ↦ inr (
            updated-other jobs v.distinct_ids id (is_held_by owner now) f keeps other
              (λ same. ground arith))
      ]

-- On a well formed table, with an owner and a delay that pass the checks, `yield_job` gives one of
-- three answers. The holder of a lease that has not expired gets the job back as it now is stored:
-- pending, without owner and expiry, its attempt taken back, due after the delay, else the same; no
-- other row changes. Anybody else is told the first fault of the lease: the job is not leased, the
-- owner is another, or the lease has expired. Without such a job, the answer is that it is not found.
pub yield_job_cases :
    (jobs : List JobRecord) (id : ℕ) (owner : String) (delay_ms now : ℕ)
    → IsTable jobs
    → is_blank owner ≡ false
    → delay_ms ≤ 7 * day_ms
    → HolderOutcome id owner now
        (GivenBack (sat_add now delay_ms))
        jobs
        (yield_job id owner delay_ms now jobs)
unfolding yield_row
yield_job_cases jobs id owner delay_ms now v o d =
    rw (yield_job-eq-answer jobs id owner delay_ms now v o d) (
      held_answer_cases v id owner now _ (yield_row (sat_add now delay_ms)) (λ r. refl)
        (yield_row-GivenBack (sat_add now delay_ms)))

-- On a well formed table, with arguments that pass the checks, `fail_job` gives one of three answers.
-- The holder of a lease that has not expired gets the job back as it now is stored, with the category,
-- without owner and expiry, the attempt still counted, else the same, and no other row changes: the
-- job is dead and its due time stays, because the category is `auth`, `not_found`, `invalid_payload`
-- or `parse_changed` or no attempt is left; otherwise it is pending, due after the delay. Anybody else
-- is told the first fault of the lease: the job is not leased, the owner is another, or the lease has
-- expired. Without such a job, the answer is that it is not found.
pub fail_job_cases :
    (jobs : List JobRecord) (id : ℕ) (owner category : String) (retry_delay_ms now : ℕ)
    → IsTable jobs
    → is_blank owner ≡ false
    → is_known category ≡ true
    → 1 ≤ retry_delay_ms
    → retry_delay_ms ≤ 7 * day_ms
    → HolderOutcome id owner now
        (Failed category (sat_add now retry_delay_ms))
        jobs
        (fail_job id owner category retry_delay_ms now jobs)
unfolding fail_row
fail_job_cases jobs id owner category retry_delay_ms now v o known low high =
    rw (fail_job-eq-answer jobs id owner category retry_delay_ms now v o known low high) (
      held_answer_cases v id owner now _
        (fail_row (is_permanent category) category (sat_add now (max retry_delay_ms 1))) (λ r. refl)
        (λ r. fail_row-Failed category now retry_delay_ms r low))
