-- ===== src/Storage/Jobs/Failure.antt =====
-- What a failed attempt leaves behind: a dead job, or one that waits for its retry.
use lobbytally.Base.{
  ℕ, ◌*◌, ◌≤◌, ◌<◌, ◌≡◌, refl, sym, ap, subst, ◌∙◌, ◌⊎◌, max, inl, inr, String, true, false, none,
  some, List, arith, sat_add, is_blank, Bool-cases, Option-cases,
}
use lobbytally.Storage.{Result, ok, err, not_found, ok_pair}
use lobbytally.Storage.Jobs.{JobRecord, pending, dead, is_held_by, get_job, lease_state_error}
use lobbytally.Storage.Jobs.Lease.{day_ms}
use lobbytally.Storage.Jobs.Finish.{fail_row, is_permanent, is_known, fail_job}
use lobbytally.Storage.Jobs.Invariant.{IsTable}
use lobbytally.Storage.Jobs.Holder.{updated, updated-met}
use lobbytally.Storage.Jobs.Answers.{held_answer, fail_job-eq-answer}

-- A dead job: the category is permanent or no attempt is left.
abbrev pub Buries : String → JobRecord → Type 0
Buries category s =
    (s.status ≡ dead) × ((is_permanent category ≡ true) ⊎ (s.max_attempts ≤ s.attempts))

-- A retry: the category is not permanent, an attempt is left, and the job is due later.
abbrev pub Retries : String → ℕ → JobRecord → Type 0
Retries category due s =
    (s.status ≡ pending)
    × (is_permanent category ≡ false)
    × (s.attempts < s.max_attempts)
    × (s.due_at_ms ≡ due)

fail_row_cases :
    (category : String) (now delay : ℕ) (r : JobRecord)
    → 1 ≤ delay
    → let s = fail_row (is_permanent category) category (sat_add now (max delay 1)) r in
      Buries category s ⊎ Retries category (sat_add now delay) s
unfolding fail_row
fail_row_cases category now delay r low = ground arith

fail_job_valid :
    (jobs : List JobRecord) (id : ℕ) (owner category : String) (delay now : ℕ)
    {p : JobRecord × List JobRecord}
    → fail_job id owner category delay now jobs ≡ ok p
    → (is_blank owner ≡ false) × (is_known category ≡ true) × (1 ≤ delay) × (delay ≤ 7 * day_ms)
unfolding fail_job
fail_job_valid jobs id owner category delay now h =
    (ground arith, ground arith, ground arith, ground arith)

held_answer_ok :
    (f : JobRecord → JobRecord) (jobs : List JobRecord) (id : ℕ) (owner : String) (now : ℕ)
    (s : JobRecord) (jobs' : List JobRecord)
    → held_answer f id owner now jobs (get_job jobs id) ≡ ok (s, jobs')
    → (r : JobRecord) × (get_job jobs id ≡ some r)
      × (is_held_by owner now r ≡ true)
      × (f r ≡ s)
      × (updated f id (is_held_by owner now) jobs ≡ jobs')
held_answer_ok f jobs id owner now s jobs' h = elim (Option-cases (get_job jobs id)) [
  | inl e ↦
      let refused : ◌≡◌ {A = Result (JobRecord × List JobRecord)} (err (not_found id))
          (ok (s, jobs')) =
        rw e at h in
      cc
  | inr (r, e) ↦ stored r e (rw e at h)
]
  where
    stored :
        (r : JobRecord)
        → get_job jobs id ≡ some r
        → held_answer f id owner now jobs (some r) ≡ ok (s, jobs')
        → (r : JobRecord) × (get_job jobs id ≡ some r)
          × (is_held_by owner now r ≡ true)
          × (f r ≡ s)
          × (updated f id (is_held_by owner now) jobs ≡ jobs')
    stored r e h = elim (Bool-cases (is_held_by owner now r)) [
      | inl held ↦ let (same, kept) = ok_pair (rw held at h) in (r, e, held, same, kept)
      | inr free ↦
          let refused : ◌≡◌ {A = Result (JobRecord × List JobRecord)}
              (err (lease_state_error r owner now)) (ok (s, jobs')) =
            rw free at h in
          cc
    ]

-- Where `fail_job` succeeds on a well formed table, its caller held a live lease on the job, the
-- job that it returns is the stored one, free of its owner and with the category of the error, and
-- it is either dead, because the category is permanent or no attempt is left, or waits with an
-- attempt left, after an error that is not permanent, for its retry after the delay. The attempts
-- made stay as they were.
pub fail_job_outcome :
    (jobs : List JobRecord) (id : ℕ) (owner category : String) (delay now : ℕ) (s : JobRecord)
    (jobs' : List JobRecord)
    → IsTable jobs
    → fail_job id owner category delay now jobs ≡ ok (s, jobs')
    → (r : JobRecord) × (get_job jobs id ≡ some r)
      × (is_held_by owner now r ≡ true)
      × (get_job jobs' id ≡ some s)
      × (s.lease_owner ≡ none)
      × (s.last_error_category ≡ some category)
      × (s.attempts ≡ r.attempts)
      × (Buries category s ⊎ Retries category (sat_add now delay) s)
unfolding fail_row
fail_job_outcome jobs id owner category delay now s jobs' v h =
    let (o, known, low, high) = fail_job_valid jobs id owner category delay now h in
    let f = fail_row (is_permanent category) category (sat_add now (max delay 1)) in
    let (r, e, held, same, kept) =
      held_answer_ok f jobs id owner now s jobs'
        (sym (fail_job-eq-answer jobs id owner category delay now v o known low high) ∙ h) in
    let there =
      (updated-met jobs v.distinct_ids id (is_held_by owner now) f (λ _. refl) r e held).1 in
    (
      r,
      e,
      held,
      (ap (λ (t : List JobRecord). get_job t id) (sym kept) ∙ there ∙ ap some same),
      ground arith,
      ground arith,
      ground arith,
      subst (λ x. Buries category x ⊎ Retries category (sat_add now delay) x) same
          (fail_row_cases category now delay r low),
    )
