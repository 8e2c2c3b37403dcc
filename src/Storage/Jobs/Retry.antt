-- ===== src/Storage/Jobs/Retry.antt =====
-- Repeated completions, and what a failed attempt leaves behind.
use text.Mathlib.TextPositions.{eq_refl}
use lobbytally.Base.{
  ℕ, ◌≡◌, ◌≢◌, refl, sym, ap, subst, ◌∙◌, inl, inr, String, eq_iff, true, false, Option, none, some,
  List, arith, if◌then◌else◌, is_blank, Bool-cases, Option-cases,
}
use lobbytally.Storage.{Result, ok, err, conflict, ok_pair}
use lobbytally.Storage.Jobs.{
  JobRecord, JobStatus, completed, is_completed, is_text, is_held_by, get_job,
}
use lobbytally.Storage.Jobs.Finish.{complete_row, complete_job}
use lobbytally.Storage.Jobs.Calls.{completes, rows, after}
use lobbytally.Storage.Jobs.Invariant.{IsTable, after-IsTable}
use lobbytally.Storage.Jobs.Holder.{updated, updated-met}
use lobbytally.Storage.Jobs.Answers.{IsCompletionKey, complete_answer, complete_job-eq-answer}

complete_job_valid :
    (jobs : List JobRecord) (id : ℕ) (owner key : String) (now : ℕ) {p : JobRecord × List JobRecord}
    → complete_job id owner key now jobs ≡ ok p
    → (is_blank owner ≡ false) × IsCompletionKey key
unfolding complete_job
complete_job_valid jobs id owner key now h = (ground arith, (ground arith, ground arith))

-- The job under an identity was completed with a key.
record IsDone (id : ℕ) (key : String) (jobs : List JobRecord) (r : JobRecord) : Type 0 where
  found : get_job jobs id ≡ some r
  status : r.status ≡ completed
  same_key : is_text key r.completion_idempotency_key ≡ true

IsDone-complete_row :
    (jobs : List JobRecord) (id : ℕ) (owner key : String) (now : ℕ) (r : JobRecord)
    → IsTable jobs
    → get_job jobs id ≡ some r
    → is_held_by owner now r ≡ true
    → IsDone id key (updated (complete_row key) id (is_held_by owner now) jobs) (complete_row key r)
unfolding complete_row
IsDone-complete_row jobs id owner key now r v e held = record {
  found =
      (updated-met jobs v.distinct_ids id (is_held_by owner now) (complete_row key) (λ s. refl) r e
        held).1;
  status = refl;
  same_key = eq_refl key;
}

unheld_done :
    (owner : String) (now : ℕ) (r : JobRecord)
    → r.status ≡ completed
    → is_held_by owner now r ≡ false
unfolding is_held_by
unheld_done owner now r e = ground arith

completed_is : (s : JobStatus) → is_completed s ≡ true → s ≡ completed
completed_is completed h = refl
completed_is _ h = cc

answer-IsDone :
    (jobs : List JobRecord) (id : ℕ) (owner key : String) (now : ℕ) (r : JobRecord)
    (jobs' : List JobRecord)
    → IsTable jobs
    → complete_answer id owner key now jobs (get_job jobs id) ≡ ok (r, jobs')
    → IsDone id key jobs' r
answer-IsDone jobs id owner key now r jobs' v h = elim (Option-cases (get_job jobs id)) [
  | inl e ↦
      let refused : complete_answer id owner key now jobs none ≡ ok (r, jobs') = rw e at h in cc
  | inr (s, e) ↦ stored s e (rw e at h)
]
  where
    moved :
        {s : JobRecord} {t : List JobRecord}
        → IsDone id key t s
        → (s ≡ r) × (t ≡ jobs')
        → IsDone id key jobs' r
    moved d (same, kept) = subst (λ t. IsDone id key t r) kept (subst (IsDone id key _) same d)

    done :
        (s : JobRecord)
        → get_job jobs id ≡ some s
        → is_completed s.status ≡ true
        → is_text key s.completion_idempotency_key ≡ true
        → s ≡ r
        → jobs ≡ jobs'
        → IsDone id key jobs' r
    done s e c k same kept =
        moved (record { found = e; status = completed_is s.status c; same_key = k }) (same, kept)

    stored :
        (s : JobRecord)
        → get_job jobs id ≡ some s
        → complete_answer id owner key now jobs (some s) ≡ ok (r, jobs')
        → IsDone id key jobs' r
    stored s e h = elim (Bool-cases (is_held_by owner now s)) [
      | inl held ↦
          moved (IsDone-complete_row jobs id owner key now s v e held) (ok_pair (rw held at h))
      | inr free ↦ ground (arith, done s e)
    ]

-- A completion that succeeded leaves a well formed table, with the job completed under the key.
module _ (jobs : List JobRecord) (id : ℕ) (owner key : String) (now : ℕ) {r : JobRecord}
    {jobs' : List JobRecord} (v : IsTable jobs)
    (first : complete_job id owner key now jobs ≡ ok (r, jobs')) where
  completed-IsDone : IsDone id key jobs' r
  completed-IsDone =
      let (o, k) = complete_job_valid jobs id owner key now first in
      answer-IsDone jobs id owner key now r jobs' v
        (sym (complete_job-eq-answer jobs id owner key now v o k) ∙ first)

  completed-IsTable : IsTable jobs'
  unfolding after
  completed-IsTable =
      subst IsTable (ap (λ (a : Result (JobRecord × List JobRecord)). rows a jobs) first)
        (after-IsTable (λ _. true) now (completes id owner key) jobs tt v)

  -- What a later call of `complete_job` answers, by any worker and at any time.
  completed_again :
      (other again : String) (later : ℕ)
      → is_blank other ≡ false
      → IsCompletionKey again
      → complete_job id other again later jobs' ≡ (
          if is_text again r.completion_idempotency_key
          then ok (r, jobs')
          else err (conflict "job already completed with different idempotency context"))
  completed_again other again later o k =
      let d = completed-IsDone in
      complete_job-eq-answer jobs' id other again later completed-IsTable o k
      ∙ rw (d.found, unheld_done other later r d.status, d.status) refl

-- Completing a job again with the same key succeeds, whoever asks and however late: it returns the
-- same job and leaves the table as the first completion left it.
pub complete_job-complete_job :
    (jobs : List JobRecord) (id : ℕ) (owner key : String) (now : ℕ) (r : JobRecord)
    (jobs' : List JobRecord)
    → IsTable jobs
    → complete_job id owner key now jobs ≡ ok (r, jobs')
    → (other : String) (later : ℕ) → is_blank other ≡ false
    → complete_job id other key later jobs' ≡ ok (r, jobs')
complete_job-complete_job jobs id owner key now r jobs' v first other later o =
    completed_again jobs id owner key now v first other key later o
      (complete_job_valid jobs id owner key now first).1
    ∙ rw ((completed-IsDone jobs id owner key now v first).same_key) refl

other_text : (s t : String) (o : Option String) → is_text s o ≡ true → s ≢ t → is_text t o ≡ false
other_text s t none h d = cc
other_text s t (some u) h d = ground (arith, eq_iff u s, eq_iff u t, d)

-- Completing a job again with another key that passes the checks is a conflict, whoever asks and
-- however late.
pub complete_job-complete_job_ne :
    (jobs : List JobRecord) (id : ℕ) (owner key : String) (now : ℕ) (r : JobRecord)
    (jobs' : List JobRecord)
    → IsTable jobs
    → complete_job id owner key now jobs ≡ ok (r, jobs')
    → (other again : String) (later : ℕ) → is_blank other ≡ false
    → IsCompletionKey again
    → key ≢ again
    → complete_job id other again later jobs'
      ≡ err (conflict "job already completed with different idempotency context")
complete_job-complete_job_ne jobs id owner key now r jobs' v first other again later o k differs =
    completed_again jobs id owner key now v first other again later o k
    ∙ rw (other_text key again _ (completed-IsDone jobs id owner key now v first).same_key differs)
        refl
