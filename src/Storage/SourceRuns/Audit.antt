-- ===== src/Storage/SourceRuns/Audit.antt =====
-- The history of the runs of crates/storage/src/source_state.rs.
use lobbytally.Base.{
  ℕ, ◌≤◌, ◌≡◌, refl, inl, inr, ℤ, String, str_eq, false, ◌&&◌, Option, none, some, List, [], ◌∷◌,
  ◌==◌, Bool-cases, arith, is_blank,
}
use lobbytally.Table.{count_where}
use lobbytally.Storage.{Result, ok, err}
use lobbytally.Storage.SourceRuns.{
  RunStatus, SourceRun, is_running, is_active, start_run, final_status, bad_counters, is_open_run,
  change_open, finalize, finish_run, update_run_progress,
}
use lobbytally.Storage.SourceRuns.Running.{
  and_false, final_status_ended, AtMostOne, change-AtMostOne, insert-AtMostOne,
}

pub data RunCall : Type 0 where
  starts : ℕ → String → String → String → Option String → ℕ → RunCall
  finishes : ℕ → String → ℤ → ℤ → Option String → Option String → ℕ → RunCall
  reports : ℕ → ℤ → ℤ → String → RunCall

abbrev pub rows_of_start : List SourceRun → Result (ℕ × List SourceRun) → List SourceRun
rows_of_start runs (ok (id, runs')) = runs'
rows_of_start runs (err e) = runs

abbrev pub rows_of : List SourceRun → Result (List SourceRun) → List SourceRun
rows_of runs (ok runs') = runs'
rows_of runs (err e) = runs

module _ (show : ℕ → String) where
  unfoldable pub call_run : RunCall → List SourceRun → List SourceRun
  call_run (starts fresh source task_type parser_version notes now) runs =
      rows_of_start runs (start_run fresh source task_type parser_version notes now runs)
  call_run (finishes id status request_count success_count error_category notes now) runs =
      rows_of runs
        (finish_run show id status request_count success_count error_category notes now runs)
  call_run (reports id request_count success_count notes) runs =
      rows_of runs (update_run_progress show id request_count success_count notes runs)

  -- The table after calls, the first one first.
  unfoldable pub runs_after : List RunCall → List SourceRun → List SourceRun
  runs_after [] runs = runs
  runs_after (call ∷ calls) runs = runs_after calls (call_run call runs)

  start_run-AtMostOne :
      (fresh : ℕ) (source task_type parser_version : String) (notes : Option String) (now : ℕ)
      (runs : List SourceRun)
      → AtMostOne runs
      → AtMostOne
          (rows_of_start runs (start_run fresh source task_type parser_version notes now runs))
  unfolding start_run
  start_run-AtMostOne fresh source task_type parser_version notes now runs one =
      elim (Bool-cases (is_blank source)) [
        | inl a ↦ rw a one
        | inr a ↦ elim (Bool-cases (is_blank task_type)) [
          | inl b ↦ rw (a, b) one
          | inr b ↦ elim (Bool-cases (is_blank parser_version)) [
            | inl c ↦ rw (a, b, c) one
            | inr c ↦ rw (a, b, c) (insert-AtMostOne source task_type now _ runs refl refl one)
          ]
        ]
      ]

  change_open-AtMostOne :
      (id : ℕ) (f : SourceRun → SourceRun) (runs : List SourceRun)
      → ((source task_type : String) (r : SourceRun)
          → is_active source task_type r ≡ false
          → is_active source task_type (f r) ≡ false)
      → AtMostOne runs
      → AtMostOne (rows_of runs (change_open show id f runs))
  unfolding change_open
  change_open-AtMostOne id f runs keep one =
      elim (Bool-cases (count_where (is_open_run id) runs == 1)) [
        | inl e ↦ rw e (change-AtMostOne (is_open_run id) f runs keep one)
        | inr e ↦ rw e one
      ]

  finalize-AtMostOne :
      (status : Option RunStatus) (id : ℕ) (request_count success_count : ℤ)
      (error_category notes : Option String) (now : ℕ) (runs : List SourceRun)
      → ((s : RunStatus) → status ≡ some s → is_running s ≡ false)
      → AtMostOne runs
      → AtMostOne (
          rows_of runs
            (finalize show status id request_count success_count error_category notes now runs))
  finalize-AtMostOne none id request_count success_count error_category notes now runs ended one =
      one
  finalize-AtMostOne (some status) id request_count success_count error_category notes now runs
        ended one =
      elim (Bool-cases (bad_counters request_count success_count)) [
        | inl e ↦ rw e one
        | inr e ↦ rw e (
            change_open-AtMostOne id _ runs
              (λ source task_type r h.
                rw (ended status refl)
                  (and_false (str_eq r.source source && str_eq r.task_type task_type)))
              one)
      ]

  call_run-AtMostOne :
      (call : RunCall) (runs : List SourceRun) → AtMostOne runs → AtMostOne (call_run call runs)
  unfolding call_run finish_run update_run_progress
  call_run-AtMostOne (starts fresh source task_type parser_version notes now) runs one =
      start_run-AtMostOne fresh source task_type parser_version notes now runs one
  call_run-AtMostOne (finishes id status request_count success_count error_category notes now) runs
        one =
      finalize-AtMostOne (final_status status) id request_count success_count error_category notes
        now runs (λ s e. final_status_ended status s e) one
  call_run-AtMostOne (reports id request_count success_count notes) runs one =
      elim (Bool-cases (bad_counters request_count success_count)) [
        | inl e ↦ rw e one
        | inr e ↦ rw e (change_open-AtMostOne id _ runs (λ source task_type r h. h) one)
      ]

  runs_after-AtMostOne :
      (calls : List RunCall) (runs : List SourceRun)
      → AtMostOne runs
      → AtMostOne (runs_after calls runs)
  unfolding runs_after
  runs_after-AtMostOne [] runs one = one
  runs_after-AtMostOne (call ∷ calls) runs one =
      runs_after-AtMostOne calls (call_run call runs) (call_run-AtMostOne call runs one)

  -- After any calls on an empty table, errors included, at most one run of each task of a source is running.
  pub runs_after_running :
      (calls : List RunCall) (source task_type : String)
      → count_where (is_active source task_type) (runs_after calls []) ≤ 1
  unfolding AtMostOne count_where
  runs_after_running calls source task_type =
      runs_after-AtMostOne calls [] (λ s t. omega arith) source task_type
