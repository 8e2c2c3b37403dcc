-- ===== src/Storage/SourceRuns.antt =====
-- `start_run`, `finish_run` and `update_run_progress` of crates/storage/src/source_state.rs, on the rows of
-- the table `source_runs`. The identity that the database gives to a new row and the decimal text of a
-- number are parameters.
pub mod Running
pub mod Audit
pub mod Finality
mod Examples
use Prim.Native.Char.{code}
use lobbytally.Base.{
  ℕ, ◌+◌, ℤ, pos, negsuc, String, str_eq, str_append, Bool, true, false, not, ◌&&◌, ◌||◌, Option,
  none, some, List, [], ◌∷◌, ◌++◌, ◌==◌, if◌then◌else◌, is_blank,
}
use lobbytally.Table.{update_where, count_where}
use lobbytally.Storage.{Result, ok, err, validation, conflict, ◌>>◌, ◌>>=◌, refuse_if}

pub data RunStatus : Type 0 where
  running succeeded failed partial : RunStatus

pub record SourceRun : Type 0 where
  pub run_id : ℕ
  pub source : String
  pub task_type : String
  pub status : RunStatus
  pub started_at_ms : ℕ
  pub finished_at_ms : Option ℕ
  pub request_count : ℤ
  pub success_count : ℤ
  pub error_category : Option String
  pub parser_version : String
  pub notes : Option String

abbrev pub is_running : RunStatus → Bool
is_running running = true
is_running _ = false

-- `WHERE source = $2 AND task_type = $3 AND status = 'running'`
abbrev pub is_active : String → String → SourceRun → Bool
is_active source task_type r =
    (str_eq r.source source && str_eq r.task_type task_type) && is_running r.status

-- `TRIM(notes) = ''`: SQL trims spaces.
unfoldable pub only_spaces : String → Bool
only_spaces String.[] = true
only_spaces (String.◌∷◌ c s) = (code c == 32) && only_spaces s

abbrev pub superseded_notes : Option String → String
superseded_notes none = "superseded by a newer run"
superseded_notes (some notes) =
    if only_spaces notes
    then "superseded by a newer run"
    else str_append notes "; superseded by a newer run"

-- `COALESCE(error_category, 'interrupted')`
abbrev pub or_interrupted : Option String → String
or_interrupted none = "interrupted"
or_interrupted (some category) = category

unfoldable pub supersede : ℕ → SourceRun → SourceRun
unfolding only_spaces
supersede now r = record r {
  status = failed;
  finished_at_ms = some now;
  error_category = some (or_interrupted r.error_category);
  notes = some (superseded_notes r.notes);
}

abbrev pub require_text : String → String → Result (Unit {0})
require_text label value = refuse_if (is_blank value) (validation (str_append label " is required"))

unfoldable pub start_run :
    ℕ → String → String → String → Option String → ℕ → List SourceRun → Result (ℕ × List SourceRun)
unfolding supersede
start_run fresh source task_type parser_version notes now runs = do
  require_text "source" source
  require_text "task_type" task_type
  require_text "parser_version" parser_version
  ok (
    fresh,
    update_where (is_active source task_type) (supersede now) runs
        ++ record {
          run_id = fresh;
          source = source;
          task_type = task_type;
          status = running;
          started_at_ms = now;
          finished_at_ms = none;
          request_count = pos 0;
          success_count = pos 0;
          error_category = none;
          parser_version = parser_version;
          notes = notes;
        }
          ∷ [],
  )

-- `matches!(status, "succeeded" | "failed" | "partial")`, with the status that the text names.
unfoldable pub final_status : String → Option RunStatus
final_status text =
    if str_eq text "succeeded"
    then some succeeded
    else if str_eq text "failed"
    then some failed
    else if str_eq text "partial"
    then some partial
    else none

abbrev pub is_negative : ℤ → Bool
is_negative (pos n) = false
is_negative (negsuc n) = true

-- `WHERE run_id = $7 AND status = 'running'`
abbrev pub is_open_run : ℕ → SourceRun → Bool
is_open_run id r = (r.run_id == id) && is_running r.status

abbrev pub bad_counters : ℤ → ℤ → Bool
bad_counters request_count success_count = is_negative request_count || is_negative success_count

module _ (show : ℕ → String) where
  abbrev pub missing_run : ℕ → String
  missing_run id =
      str_append "source run " (str_append (show id) " is missing or already finalized")

  -- One row of an open run is changed, or the call is a conflict.
  unfoldable pub change_open :
      ℕ → (SourceRun → SourceRun) → List SourceRun → Result (List SourceRun)
  change_open id change runs = do
    refuse_if (not (count_where (is_open_run id) runs == 1)) (conflict (missing_run id))
    ok (update_where (is_open_run id) change runs)

  abbrev pub finalize :
      Option RunStatus
      → ℕ
      → ℤ
      → ℤ
      → Option String
      → Option String
      → ℕ
      → List SourceRun
      → Result (List SourceRun)
  finalize none id request_count success_count error_category notes now runs =
      err (validation "source run final status must be succeeded, failed, or partial")
  finalize (some status) id request_count success_count error_category notes now runs = do
    refuse_if (bad_counters request_count success_count)
        (validation "source run counters must be non-negative")
    change_open id
        (λ (r : SourceRun). record r {
          status = status;
          finished_at_ms = some now;
          request_count = request_count;
          success_count = success_count;
          error_category = error_category;
          notes = notes;
        })
        runs

  unfoldable pub finish_run :
      ℕ
      → String
      → ℤ
      → ℤ
      → Option String
      → Option String
      → ℕ
      → List SourceRun
      → Result (List SourceRun)
  unfolding final_status change_open
  finish_run id status request_count success_count error_category notes now runs =
      finalize (final_status status) id request_count success_count error_category notes now runs

  unfoldable pub update_run_progress : ℕ → ℤ → ℤ → String → List SourceRun → Result (List SourceRun)
  unfolding change_open
  update_run_progress id request_count success_count notes runs = do
    refuse_if (bad_counters request_count success_count)
        (validation "source run counters must be non-negative")
    change_open id
        (λ (r : SourceRun). record r {
          request_count = request_count;
          success_count = success_count;
          notes = some notes;
        })
        runs
