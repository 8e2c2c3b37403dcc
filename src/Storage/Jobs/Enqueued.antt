-- ===== src/Storage/Jobs/Enqueued.antt =====
-- Enqueueing the same job again, and one active job for each entity.
use text.Mathlib.TextPositions.{eq_refl}
use lobbytally.Base.{
  ℕ, ◌≡◌, refl, sym, ap, ◌∙◌, inl, inr, String, Bool, true, Option, none, some, List, [], ◌∷◌, ◌++◌,
  arith, Option-cases,
}
use lobbytally.Table.{find_where, find_where-none-append}
use lobbytally.Storage.{Result, ok, err, ok_pair, ◌>>◌}
use lobbytally.Storage.Jobs.{JobRecord, EnqueueJob, eq_text, has_key, get_job_by_idempotency}
use lobbytally.Storage.Jobs.Enqueue.{
  new_row, same_job, check_job, inserted, insert_job, reuse_job, enqueue_job,
}

eq_text_refl : (o : Option String) → eq_text o o ≡ true
eq_text_refl none = refl
eq_text_refl (some s) = eq_refl s

same_job-new_row : (fresh : ℕ) (job : EnqueueJob) → same_job (new_row fresh job) job ≡ true
unfolding same_job new_row
same_job-new_row fresh job =
    rw
      (
        eq_refl job.source,
        eq_refl job.task_type,
        eq_refl job.entity_key,
        eq_text_refl job.payload_json,
      )
      (ground arith)

found-new_row :
    (fresh : ℕ) (job : EnqueueJob) (jobs : List JobRecord)
    → get_job_by_idempotency jobs job.idempotency_key ≡ none
    → get_job_by_idempotency (jobs ++ new_row fresh job ∷ []) job.idempotency_key
      ≡ some (new_row fresh job)
unfolding get_job_by_idempotency new_row find_where
found-new_row fresh job jobs h =
    find_where-none-append (has_key job.idempotency_key) jobs _ h
    ∙ rw (eq_refl job.idempotency_key) refl

-- What `enqueue_job` answers, from the row that has the key.
abbrev enqueue_answer :
    ℕ → EnqueueJob → List JobRecord → Option JobRecord → Result (ℕ × List JobRecord)
enqueue_answer fresh job jobs none = ok (fresh, jobs ++ new_row fresh job ∷ [])
enqueue_answer fresh job jobs (some r) = reuse_job job jobs (some r)

>>-valid {ℓ} :
    {B : Type ℓ} (m : Result (Unit {0})) (k : Result B) {b : B} → (m >> k) ≡ ok b → m ≡ ok tt
>>-valid (ok tt) k h = refl
>>-valid (err e) k h = cc

enqueue_job_valid :
    (is_json : String → Bool) (fresh : ℕ) (job : EnqueueJob) (jobs : List JobRecord)
    {p : ℕ × List JobRecord}
    → enqueue_job is_json fresh job jobs ≡ ok p
    → check_job is_json job ≡ ok tt
unfolding enqueue_job
enqueue_job_valid is_json fresh job jobs h = >>-valid (check_job is_json job) _ h

insert_absent :
    (fresh : ℕ) (job : EnqueueJob) (jobs : List JobRecord)
    → get_job_by_idempotency jobs job.idempotency_key ≡ none
    → insert_job fresh job jobs ≡ (some fresh, jobs ++ new_row fresh job ∷ [])
unfolding insert_job
insert_absent fresh job jobs e = rw (e, insert_job) refl

insert_present :
    (fresh : ℕ) (job : EnqueueJob) (jobs : List JobRecord) {r : JobRecord}
    → get_job_by_idempotency jobs job.idempotency_key ≡ some r
    → insert_job fresh job jobs ≡ (none, jobs)
unfolding insert_job
insert_present fresh job jobs e = rw (e, insert_job) refl

enqueue_job-eq-answer :
    (is_json : String → Bool) (fresh : ℕ) (job : EnqueueJob) (jobs : List JobRecord)
    → check_job is_json job ≡ ok tt
    → enqueue_job is_json fresh job jobs
      ≡ enqueue_answer fresh job jobs (get_job_by_idempotency jobs job.idempotency_key)
unfolding enqueue_job inserted
enqueue_job-eq-answer is_json fresh job jobs checked =
    elim (Option-cases (get_job_by_idempotency jobs job.idempotency_key)) [
      | inl e ↦ rw (checked, insert_absent fresh job jobs e, e) refl
      | inr (r, e) ↦ rw (checked, insert_present fresh job jobs e, e) refl
    ]

reuse_same :
    (job : EnqueueJob) (jobs jobs' : List JobRecord) (r : JobRecord) (id : ℕ)
    → reuse_job job jobs (some r) ≡ ok (id, jobs')
    → (r.job_id ≡ id) × (jobs ≡ jobs') × (same_job r job ≡ true)
unfolding reuse_job
reuse_same job jobs jobs' r id h = (ground arith, ground arith, ground arith)

-- What a successful enqueue leaves: the row of the key has the returned identity and is the same job.
enqueued_row :
    (fresh : ℕ) (job : EnqueueJob) (jobs jobs' : List JobRecord) (id : ℕ)
    → enqueue_answer fresh job jobs (get_job_by_idempotency jobs job.idempotency_key)
      ≡ ok (id, jobs')
    → (r : JobRecord) × (get_job_by_idempotency jobs' job.idempotency_key ≡ some r)
      × (r.job_id ≡ id)
      × (same_job r job ≡ true)
enqueued_row fresh job jobs jobs' id h =
    elim (Option-cases (get_job_by_idempotency jobs job.idempotency_key)) [
      | inl e ↦
          let (same, kept) = ok_pair (rw e at h) in
          (
            new_row fresh job,
            ap (λ (t : List JobRecord). get_job_by_idempotency t job.idempotency_key) (sym kept)
                ∙ found-new_row fresh job jobs e,
            unfold new_row in same,
            same_job-new_row fresh job,
          )
      | inr (r, e) ↦
          let (same, kept, alike) = reuse_same job jobs jobs' r id (rw e at h) in
          (
            r,
            ap (λ (t : List JobRecord). get_job_by_idempotency t job.idempotency_key) (sym kept)
                ∙ e,
            same,
            alike,
          )
    ]

-- Enqueueing the same job again succeeds, whatever identity the database would give it: it returns
-- the identity of the first time and adds no row.
pub enqueue_job-enqueue_job :
    (is_json : String → Bool) (fresh later_fresh : ℕ) (job : EnqueueJob)
    (jobs jobs' : List JobRecord) (id : ℕ)
    → enqueue_job is_json fresh job jobs ≡ ok (id, jobs')
    → enqueue_job is_json later_fresh job jobs' ≡ ok (id, jobs')
unfolding reuse_job
enqueue_job-enqueue_job is_json fresh later_fresh job jobs jobs' id h =
    let checked = enqueue_job_valid is_json fresh job jobs h in
    let (r, found, same, alike) =
      enqueued_row fresh job jobs jobs' id
        (sym (enqueue_job-eq-answer is_json fresh job jobs checked) ∙ h) in
    enqueue_job-eq-answer is_json later_fresh job jobs' checked ∙ rw (found, alike, same) refl
