-- ===== src/Storage/Jobs/Examples.antt =====
-- A small queue, runs of the operations on it, and the theorems at those inputs.
use lobbytally.Base.{
  ℕ, ◌≤◌, ◌≡◌, ◌≢◌, refl, ◌⊎◌, inl, String, str_eq, eq_iff, Bool, true, false, none, some, List, [],
  ◌∷◌, ◌++◌, arith, is_blank, pos, length, All,
}
use lobbytally.Table.{InOrder, find_where, update_where, count_where, select_where, order_by}
use lobbytally.Storage.{ok, err, conflict}
use lobbytally.Storage.Jobs.{
  JobRecord, EnqueueJob, pending, leased, completed, dead, get_job, get_job_by_idempotency,
  is_held_by, is_active, holder_answer,
}
use lobbytally.Storage.Jobs.Enqueue.{
  new_row, check_job, inserted, insert_job, reuse_job, enqueue_job,
}
use lobbytally.Storage.Jobs.Lease.{
  is_due, comes_before, select_due, can_lease, lease_row, lease_each, recover_expired, lease_jobs,
  yield_job,
}
use lobbytally.Storage.Jobs.Finish.{
  complete_row, completion, complete_job, fail_row, is_known, is_permanent, fail_job,
}
use lobbytally.Storage.Jobs.Calls.{enqueues_once, leases, fails, after}
use lobbytally.Storage.Jobs.Invariant.{IsTable, after-IsTable}
use lobbytally.Storage.Jobs.Exclusive.{get_job-after_ended, get_job-after_held}
use lobbytally.Storage.Jobs.Answers.{complete_answer, complete_job-eq-answer}
use lobbytally.Storage.Jobs.Effects.{GivenBack, Failed}
use lobbytally.Storage.Jobs.Outcomes.{HolderOutcome, yield_job_cases, fail_job_cases}
use lobbytally.Storage.Jobs.Retry.{complete_job-complete_job, complete_job-complete_job_ne}
use lobbytally.Storage.Jobs.Failure.{Buries, Retries, fail_job_outcome}
use lobbytally.Storage.Jobs.Handout.{IsGranted, lease_jobs_outcome}
use lobbytally.Storage.Jobs.Enqueued.{enqueue_job-enqueue_job}
use lobbytally.Storage.Jobs.Active.{actives, after_one_active}

abbrev waiting : JobRecord
waiting = record {
  job_id = 1;
  source = "steam";
  task_type = "details";
  entity_key = "440";
  priority = pos 10;
  attempts = 0;
  max_attempts = 2;
  due_at_ms = 500;
  status = pending;
  lease_owner = none;
  lease_expires_at_ms = none;
  idempotency_key = "a";
  completion_idempotency_key = none;
  payload_json = none;
  last_error_category = none;
}

-- Leased by `w1` until 5000, on its last attempt.
abbrev running : JobRecord
running = record waiting {
  job_id = 2;
  entity_key = "570";
  attempts = 2;
  status = leased;
  lease_owner = some "w1";
  lease_expires_at_ms = some 5000;
  idempotency_key = "b";
}

abbrev finished : JobRecord
finished = record waiting {
  job_id = 3;
  entity_key = "730";
  attempts = 1;
  status = completed;
  idempotency_key = "c";
  completion_idempotency_key = some "done";
}

abbrev queue : List JobRecord
queue = waiting ∷ running ∷ finished ∷ []

abbrev no_locks : ℕ → Bool
no_locks id = false

abbrev any_json : String → Bool
any_json payload = true

abbrev wanted : EnqueueJob
wanted = record {
  source = "steam";
  task_type = "details";
  entity_key = "620";
  priority = pos 5;
  due_at_ms = 0;
  idempotency_key = "d";
  payload_json = none;
  max_attempts = 3;
}

text_ne : (s t : String) → str_eq s t ≡ false → s ≢ t
text_ne s t h e = let hit : str_eq s t ≡ true = (eq_iff s t).1 e in cc

queue-IsTable : IsTable queue
queue-IsTable = record {
  each = (ground arith, (ground arith, (ground arith, tt)));
  distinct_ids = ((omega arith, (omega arith, tt)), ((omega arith, tt), (tt, tt)));
  distinct_keys =
      ((text_ne "b" "a" refl, (text_ne "c" "a" refl, tt)), ((text_ne "c" "b" refl, tt), (tt, tt)));
}

wanted_is_new : All {A = ℕ} (λ k. k ≢ 4) (1 ∷ 2 ∷ 3 ∷ [])
wanted_is_new = (omega arith, (omega arith, (omega arith, tt)))

after-IsTable_example : IsTable (after any_json 1000 (enqueues_once 4 wanted) queue)
after-IsTable_example =
    after-IsTable any_json 1000 (enqueues_once 4 wanted) queue wanted_is_new queue-IsTable

get_job-after_ended_example :
    get_job (after any_json 9000 (leases no_locks "w2" 10 60000 none) queue) 3 ≡ some finished
get_job-after_ended_example =
    get_job-after_ended any_json 9000 (leases no_locks "w2" 10 60000 none) queue 3 finished
      (inl refl) (unfold get_job find_where in refl)

get_job-after_held_example :
    get_job (after any_json 4000 (fails 2 "w2" "network" 1000) queue) 2 ≡ some running
unfolding get_job find_where is_held_by
get_job-after_held_example =
    get_job-after_held any_json 4000 (fails 2 "w2" "network" 1000) queue 2 running "w1" refl
      (λ e. text_ne "w2" "w1" refl cc) refl

complete_job-eq-answer_example :
    complete_job 2 "w1" "k" 4000 queue ≡ complete_answer 2 "w1" "k" 4000 queue (get_job queue 2)
unfolding is_blank
complete_job-eq-answer_example =
    complete_job-eq-answer queue 2 "w1" "k" 4000 queue-IsTable refl (refl, omega arith)

yield_job_cases_example :
    HolderOutcome 2 "w1" 4000 (GivenBack 4500) queue (yield_job 2 "w1" 500 4000 queue)
unfolding is_blank
yield_job_cases_example = yield_job_cases queue 2 "w1" 500 4000 queue-IsTable refl (omega arith)

fail_job_cases_example :
    HolderOutcome 2 "w1" 4000
      (Failed "network" 5000)
      queue
      (fail_job 2 "w1" "network" 1000 4000 queue)
unfolding is_blank is_known
fail_job_cases_example =
    fail_job_cases queue 2 "w1" "network" 1000 4000 queue-IsTable refl refl (omega arith)
      (omega arith)

abbrev ended : JobRecord
ended = record running {
  status = completed;
  lease_owner = none;
  lease_expires_at_ms = none;
  completion_idempotency_key = some "k";
}

completes_running : complete_job 2 "w1" "k" 4000 queue ≡ ok (ended, waiting ∷ ended ∷ finished ∷ [])
unfolding complete_job completion complete_row is_blank is_held_by get_job find_where update_where
    count_where
completes_running = refl

complete_job-complete_job_example :
    complete_job 2 "w9" "k" 99000 (waiting ∷ ended ∷ finished ∷ [])
    ≡ ok (ended, waiting ∷ ended ∷ finished ∷ [])
unfolding is_blank
complete_job-complete_job_example =
    complete_job-complete_job queue 2 "w1" "k" 4000 ended (waiting ∷ ended ∷ finished ∷ [])
      queue-IsTable completes_running "w9" 99000 refl

complete_job-complete_job_ne_example :
    complete_job 2 "w1" "other" 4100 (waiting ∷ ended ∷ finished ∷ [])
    ≡ err (conflict "job already completed with different idempotency context")
unfolding is_blank
complete_job-complete_job_ne_example =
    complete_job-complete_job_ne queue 2 "w1" "k" 4000 ended (waiting ∷ ended ∷ finished ∷ [])
      queue-IsTable completes_running "w1" "other" 4100 refl (refl, omega arith)
      (text_ne "k" "other" refl)

abbrev buried : JobRecord
buried = record running {
  status = dead;
  lease_owner = none;
  lease_expires_at_ms = none;
  last_error_category = some "network";
}

fails_running :
    fail_job 2 "w1" "network" 1000 4000 queue ≡ ok (buried, waiting ∷ buried ∷ finished ∷ [])
unfolding fail_job holder_answer fail_row is_known is_permanent is_blank is_held_by get_job
    find_where update_where count_where
fails_running = refl

fail_job_outcome_example :
    (r : JobRecord) × (get_job queue 2 ≡ some r)
    × (is_held_by "w1" 4000 r ≡ true)
    × (get_job (waiting ∷ buried ∷ finished ∷ []) 2 ≡ some buried)
    × (buried.lease_owner ≡ none)
    × (buried.last_error_category ≡ some "network")
    × (buried.attempts ≡ r.attempts)
    × (Buries "network" buried ⊎ Retries "network" 5000 buried)
fail_job_outcome_example =
    fail_job_outcome queue 2 "w1" "network" 1000 4000 buried (waiting ∷ buried ∷ finished ∷ [])
      queue-IsTable fails_running

abbrev taken : JobRecord
taken = record waiting {
  attempts = 1;
  status = leased;
  lease_owner = some "w2";
  lease_expires_at_ms = some 61000;
}

hands_out :
    lease_jobs no_locks "w2" 10 60000 1000 none queue
    ≡ ok (taken ∷ [], taken ∷ running ∷ finished ∷ [])
unfolding lease_jobs is_blank recover_expired select_due is_due comes_before lease_each can_lease
    lease_row get_job find_where update_where count_where select_where order_by
hands_out = refl

lease_jobs_outcome_example :
    (length (taken ∷ []) ≤ 10)
    × InOrder comes_before (taken ∷ [])
    × All (IsGranted no_locks "w2" 61000 1000 none (taken ∷ running ∷ finished ∷ [])) (taken ∷ [])
lease_jobs_outcome_example =
    lease_jobs_outcome no_locks "w2" 10 60000 1000 none queue (taken ∷ [])
      (taken ∷ running ∷ finished ∷ []) queue-IsTable hands_out

enqueues_wanted : enqueue_job any_json 4 wanted queue ≡ ok (4, queue ++ new_row 4 wanted ∷ [])
unfolding enqueue_job check_job inserted insert_job reuse_job is_blank get_job_by_idempotency
    find_where
enqueues_wanted = refl

enqueue_job-enqueue_job_example :
    enqueue_job any_json 5 wanted (queue ++ new_row 4 wanted ∷ [])
    ≡ ok (4, queue ++ new_row 4 wanted ∷ [])
enqueue_job-enqueue_job_example =
    enqueue_job-enqueue_job any_json 4 5 wanted queue (queue ++ new_row 4 wanted ∷ []) 4
      enqueues_wanted

after_one_active_example :
    actives "steam" "details" "620" (after any_json 1000 (enqueues_once 4 wanted) queue) ≤ 1
unfolding count_where is_active
after_one_active_example =
    after_one_active "steam" "details" "620" any_json 1000 (enqueues_once 4 wanted) queue tt
      (omega arith)
