-- ===== src/Storage/SourceRuns/Finality.antt =====
-- A run of crates/storage/src/source_state.rs is finished once.
use lobbytally.Base.{
  ℕ, ◌≡◌, refl, subst, inl, inr, ℤ, String, false, Option, none, some, List, ◌==◌, Bool-cases,
}
use lobbytally.Table.{update_where, count_where}
use lobbytally.Storage.{Result, ok, err, validation, conflict}
use lobbytally.Storage.SourceRuns.{
  RunStatus, SourceRun, is_running, final_status, bad_counters, is_open_run, missing_run,
  change_open, finalize, finish_run, update_run_progress,
}
use lobbytally.Storage.SourceRuns.Running.{
  and_false, count_where-update_where_self, final_status_ended,
}

module _ (show : ℕ → String) where
  -- A change of a run that ends it leaves no row of it open.
  change_open_closes :
      (id : ℕ) (f : SourceRun → SourceRun) (runs runs' : List SourceRun)
      → ((r : SourceRun) → is_open_run id (f r) ≡ false)
      → change_open show id f runs ≡ ok runs'
      → count_where (is_open_run id) runs' ≡ 0
  unfolding change_open
  change_open_closes id f runs runs' ends h =
      elim (Bool-cases (count_where (is_open_run id) runs == 1)) [
        | inl e ↦
            let done : ◌≡◌ {A = Result (List SourceRun)} (ok (update_where (is_open_run id) f runs))
                (ok runs') =
              rw e at h in
            let same : update_where (is_open_run id) f runs ≡ runs' = cc in
            subst (λ v. count_where (is_open_run id) v ≡ 0) same
              (count_where-update_where_self (is_open_run id) f runs ends)
        | inr e ↦
            let clash : ◌≡◌ {A = Result (List SourceRun)} (err (conflict (missing_run show id)))
                (ok runs') =
              rw e at h in
            cc
      ]

  change_open_conflict :
      (id : ℕ) (f : SourceRun → SourceRun) (runs : List SourceRun)
      → count_where (is_open_run id) runs ≡ 0
      → change_open show id f runs ≡ err (conflict (missing_run show id))
  unfolding change_open
  change_open_conflict id f runs h = rw h refl

  finalize_closes :
      (status : Option RunStatus) (id : ℕ) (request_count success_count : ℤ)
      (error_category notes : Option String) (now : ℕ) (runs runs' : List SourceRun)
      → ((s : RunStatus) → status ≡ some s → is_running s ≡ false)
      → finalize show status id request_count success_count error_category notes now runs ≡ ok runs'
      → count_where (is_open_run id) runs' ≡ 0
  finalize_closes none id request_count success_count error_category notes now runs runs' ended h =
      cc
  finalize_closes (some status) id request_count success_count error_category notes now runs runs'
        ended h =
      elim (Bool-cases (bad_counters request_count success_count)) [
        | inl e ↦
            let clash : ◌≡◌ {A = Result (List SourceRun)}
                (err (validation "source run counters must be non-negative")) (ok runs') =
              rw e at h in
            cc
        | inr e ↦
            change_open_closes id _ runs runs'
              (λ (r : SourceRun). rw (ended status refl) (and_false (r.run_id == id))) (rw e at h)
      ]

  -- Once a run was finished, to finish it again or to report its progress, with arguments that are valid,
  -- is a conflict.
  pub finish_run_final :
      (id : ℕ) (status : String) (request_count success_count : ℤ)
      (error_category notes : Option String) (now : ℕ) (runs runs' : List SourceRun)
      (again : String) (outcome : RunStatus) (request_count' success_count' : ℤ)
      (error_category' notes' : Option String) (now' : ℕ) (progress : String)
      → finish_run show id status request_count success_count error_category notes now runs
        ≡ ok runs'
      → final_status again ≡ some outcome
      → bad_counters request_count' success_count' ≡ false
      → (finish_run show id again request_count' success_count' error_category' notes' now' runs'
          ≡ err (conflict (missing_run show id)))
        × (update_run_progress show id request_count' success_count' progress runs'
            ≡ err (conflict (missing_run show id)))
  unfolding finish_run update_run_progress
  finish_run_final id status request_count success_count error_category notes now runs runs' again
        outcome request_count' success_count' error_category' notes' now' progress done valid
        counters =
      let closed =
        finalize_closes (final_status status) id request_count success_count error_category notes
          now runs runs' (λ s e. final_status_ended status s e) done in
      (
        rw valid (rw counters (change_open_conflict id _ runs' closed)),
        rw counters (change_open_conflict id _ runs' closed),
      )
