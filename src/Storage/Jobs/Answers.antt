-- ===== src/Storage/Jobs/Answers.antt =====
-- What `complete_job`, `fail_job` and `yield_job` answer, as functions of the row that is stored.
use lobbytally.Base.{
  ℕ, ◌*◌, ◌≤◌, ◌≡◌, refl, max, inl, inr, String, len, true, false, Option, none, some, List, arith,
  if◌then◌else◌, sat_add, is_blank, Bool-cases, Option-cases,
}
use lobbytally.Table.{count_where}
use lobbytally.Storage.{Result, ok, err, not_found, conflict}
use lobbytally.Storage.Jobs.{
  JobRecord, is_completed, is_text, is_held_by, get_job, lease_state_error, holder_answer,
}
use lobbytally.Storage.Jobs.Lease.{day_ms, yield_row, yield_job}
use lobbytally.Storage.Jobs.Finish.{
  complete_row, completion, complete_job, fail_row, is_known, is_permanent, fail_job,
}
use lobbytally.Storage.Jobs.Invariant.{IsTable}
use lobbytally.Storage.Jobs.Holder.{claims, updated, updated-met, updated-unmet, updated_missing}

abbrev pub IsCompletionKey : String → Type 0
IsCompletionKey key = (is_blank key ≡ false) × (len key ≤ 128)

-- What `complete_job` should answer for the row that is stored under the identity.
abbrev pub complete_answer :
    ℕ
    → String
    → String
    → ℕ
    → List JobRecord
    → Option JobRecord
    → Result (JobRecord × List JobRecord)
complete_answer id owner key now jobs none = err (not_found id)
complete_answer id owner key now jobs (some r) =
    if is_held_by owner now r
    then ok (complete_row key r, updated (complete_row key) id (is_held_by owner now) jobs)
    else if is_completed r.status
    then (if is_text key r.completion_idempotency_key
        then ok (r, jobs)
        else err (conflict "job already completed with different idempotency context"))
    else err (lease_state_error r owner now)

-- The same for `yield_job` and `fail_job`, which only the holder of a live lease may call.
abbrev pub held_answer :
    (JobRecord → JobRecord)
    → ℕ
    → String
    → ℕ
    → List JobRecord
    → Option JobRecord
    → Result (JobRecord × List JobRecord)
held_answer f id owner now jobs none = err (not_found id)
held_answer f id owner now jobs (some r) =
    if is_held_by owner now r
    then ok (f r, updated f id (is_held_by owner now) jobs)
    else err (lease_state_error r owner now)

module _ {jobs : List JobRecord} (v : IsTable jobs) (id : ℕ) (owner : String) (now : ℕ) where
  completion-answer :
      (key : String)
      → completion
          (get_job (updated (complete_row key) id (is_held_by owner now) jobs) id)
          (count_where (claims id (is_held_by owner now)) jobs)
          id
          owner
          key
          now
          (updated (complete_row key) id (is_held_by owner now) jobs)
        ≡ complete_answer id owner key now jobs (get_job jobs id)
  unfolding completion complete_row
  completion-answer key = elim (Option-cases (get_job jobs id)) [
    | inl e ↦ rw (updated_missing jobs v.distinct_ids id (is_held_by owner now) f keeps e, e) refl
    | inr (r, e) ↦ elim (Bool-cases (is_held_by owner now r)) [
      | inl held ↦
          let (changed, there) =
            updated-met jobs v.distinct_ids id (is_held_by owner now) f keeps r e held in
          rw (changed, there, e, held) refl
      | inr free ↦
          let (unchanged, same) =
            updated-unmet jobs v.distinct_ids id (is_held_by owner now) f keeps r e free in
          rw (unchanged, same, e, free) refl
    ]
  ]
    where
      f : JobRecord → JobRecord
      f = complete_row key

      keeps : (r : JobRecord) → (f r).job_id ≡ r.job_id
      keeps r = refl

  pub holder-answer :
      (f : JobRecord → JobRecord)
      → ((r : JobRecord) → (f r).job_id ≡ r.job_id)
      → holder_answer
          (get_job (updated f id (is_held_by owner now) jobs) id)
          (count_where (claims id (is_held_by owner now)) jobs)
          id
          owner
          now
          (updated f id (is_held_by owner now) jobs)
        ≡ held_answer f id owner now jobs (get_job jobs id)
  unfolding holder_answer
  holder-answer f keeps = elim (Option-cases (get_job jobs id)) [
    | inl e ↦ rw (updated_missing jobs v.distinct_ids id (is_held_by owner now) f keeps e, e) refl
    | inr (r, e) ↦ elim (Bool-cases (is_held_by owner now r)) [
      | inl held ↦
          let (changed, there) =
            updated-met jobs v.distinct_ids id (is_held_by owner now) f keeps r e held in
          rw (changed, there, e, held) refl
      | inr free ↦
          let (unchanged, same) =
            updated-unmet jobs v.distinct_ids id (is_held_by owner now) f keeps r e free in
          rw (unchanged, same, e, free) refl
    ]
  ]

-- On a well formed table, with an owner and a key that pass the checks, `complete_job` answers by
-- the stored row, on every branch: a missing job is not found; the holder of a live lease
-- completes it, and no other row changes; a job that is completed is returned as it is for the
-- same key, and is a conflict for another; anybody else is told the fault of the lease.
pub complete_job-eq-answer :
    (jobs : List JobRecord) (id : ℕ) (owner key : String) (now : ℕ)
    → IsTable jobs
    → is_blank owner ≡ false
    → IsCompletionKey key
    → complete_job id owner key now jobs ≡ complete_answer id owner key now jobs (get_job jobs id)
unfolding complete_job
complete_job-eq-answer jobs id owner key now v o k =
    ground (arith, completion-answer v id owner now key)

-- On a well formed table, with an owner and a delay that pass the checks, `yield_job` answers by the
-- stored row: `yield_row` of it for the holder of a live lease, and an error on every other branch.
pub yield_job-eq-answer :
    (jobs : List JobRecord) (id : ℕ) (owner : String) (delay_ms now : ℕ)
    → IsTable jobs
    → is_blank owner ≡ false
    → delay_ms ≤ 7 * day_ms
    → yield_job id owner delay_ms now jobs
      ≡ held_answer (yield_row (sat_add now delay_ms)) id owner now jobs (get_job jobs id)
unfolding yield_job yield_row
yield_job-eq-answer jobs id owner delay_ms now v o d =
    ground (arith, holder-answer v id owner now (yield_row (sat_add now delay_ms)) (λ r. refl))

-- On a well formed table, with arguments that pass the checks, `fail_job` answers by the stored row:
-- `fail_row` of it for the holder of a live lease, and an error on every other branch.
pub fail_job-eq-answer :
    (jobs : List JobRecord) (id : ℕ) (owner category : String) (retry_delay_ms now : ℕ)
    → IsTable jobs
    → is_blank owner ≡ false
    → is_known category ≡ true
    → 1 ≤ retry_delay_ms
    → retry_delay_ms ≤ 7 * day_ms
    → fail_job id owner category retry_delay_ms now jobs
      ≡ held_answer
          (fail_row (is_permanent category) category (sat_add now (max retry_delay_ms 1)))
          id
          owner
          now
          jobs
          (get_job jobs id)
unfolding fail_job fail_row
fail_job-eq-answer jobs id owner category retry_delay_ms now v o known low high = ground (
  arith,
  holder-answer v id owner now
      (fail_row (is_permanent category) category (sat_add now (max retry_delay_ms 1))) (λ r. refl),
)
