-- ===== src/Storage/SourceRuns/Examples.antt =====
-- A run that is superseded, and one that is finished.
use lobbytally.Base.{ℕ, ◌≤◌, ◌≡◌, refl, pos, String, Option, none, some, List, [], ◌∷◌}
use lobbytally.Table.{count_where}
use lobbytally.Storage.{Result, ok, err, conflict}
use lobbytally.Storage.SourceRuns.{
  succeeded, failed, is_active, SourceRun, final_status, missing_run, start_run, finish_run,
  update_run_progress,
}
use lobbytally.Storage.SourceRuns.Audit.{
  RunCall, starts, finishes, reports, runs_after, runs_after_running,
}
use lobbytally.Storage.SourceRuns.Finality.{finish_run_final}

abbrev show : ℕ → String
show n = "1"

abbrev calls : List RunCall
calls =
    starts 1 "steam" "catalog" "v1" none 100
    ∷ reports 1 (pos 3) (pos 2) "half"
    ∷ starts 2 "steam" "catalog" "v1" none 200
    ∷ starts 3 "steam" "quality" "v1" none 300
    ∷ []

runs_after_running_example :
    count_where (is_active "steam" "catalog") (runs_after show calls []) ≤ 1
runs_after_running_example = runs_after_running show calls "steam" "catalog"

runs : List SourceRun
runs = runs_after show calls []

finished : Result (List SourceRun)
finished = finish_run show 2 "succeeded" (pos 5) (pos 5) none none 400 runs

rows : Result (List SourceRun) → List SourceRun
rows (ok runs') = runs'
rows (err e) = []

finishes_well : finished ≡ ok (rows finished)
unfolding finished rows runs finish_run count_where runs_after
    lobbytally.Storage.SourceRuns.Audit.call_run start_run lobbytally.Base.is_blank
    lobbytally.Table.update_where update_run_progress
finishes_well = refl

finish_run_final_example :
    (finish_run show 2 "failed" (pos 0) (pos 0) none none 500 (rows finished)
      ≡ err (conflict (missing_run show 2)))
    × (update_run_progress show 2 (pos 0) (pos 0) "late" (rows finished)
        ≡ err (conflict (missing_run show 2)))
unfolding finished final_status
finish_run_final_example =
    finish_run_final show 2 "succeeded" (pos 5) (pos 5) none none 400 runs (rows finished) "failed"
      failed (pos 0) (pos 0) none none 500 "late" finishes_well refl refl
