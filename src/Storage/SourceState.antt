-- ===== src/Storage/SourceState.antt =====
-- The cursors and the states of the refresh tasks in crates/storage/src/source_state.rs. A table with a
-- text as its primary key is the list of its rows with their keys, and an upsert stores a row.
-- Whether a text is JSON, and the tests of a f64, are parameters.
pub mod Tasks
mod Examples
use lobbytally.Base.{
  ℕ, ℤ, String, len, Bool, true, false, not, ◌&&◌, ◌||◌, Option, none, some, List, [], ◌∷◌, ltb,
  if◌then◌else◌, is_blank, lookup, store,
}
use lobbytally.Storage.{Result, ok, err, validation, ◌>>◌, refuse_if}

pub record SourceCursor : Type 0 where
  pub source : String
  pub cursor_json : String
  pub last_success_at_ms : ℕ

unfoldable pub load_cursor : String → List (String × SourceCursor) → Option String
load_cursor cursor_key cursors = elim (lookup cursor_key cursors) [
  | none ↦ none
  | some c ↦ some c.cursor_json
]

unfoldable pub save_cursor :
    (String → Bool)
    → String
    → String
    → String
    → ℕ
    → List (String × SourceCursor)
    → Result (List (String × SourceCursor))
save_cursor is_json cursor_key source cursor_json now cursors = do
  refuse_if (is_blank cursor_key || is_blank source)
      (validation "cursor_key and source are required")
  refuse_if (not (is_json cursor_json)) (validation "cursor_json must be valid JSON")
  ok (
      store cursor_key
        (record { source = source; cursor_json = cursor_json; last_success_at_ms = now }) cursors)

pub record RefreshState (F : Type 0) : Type 0 where
  pub last_success_at_ms : Option ℤ
  pub next_run_at_ms : Option ℤ
  pub last_error_category : Option String
  pub cursor_value : Option String
  pub coverage_ratio : Option F
  pub updated_at_ms : ℤ

abbrev pub refresh_tasks : List String
refresh_tasks =
    "catalog_sync" ∷ "candidate_top_refresh" ∷ "candidate_continuation" ∷ "enrichment"
    ∷ "quality_check" ∷ "retrieval_sync" ∷ "pipeline_snapshot" ∷ []

abbrev pub bad_ratio : {F : Type 0} → (F → Bool) → (F → Bool) → Option F → Bool
bad_ratio is_finite in_unit none = false
bad_ratio is_finite in_unit (some ratio) = not (is_finite ratio) || not (in_unit ratio)

module _ {F : Type 0} where
  -- The state of a task that is to run at once.
  abbrev pub due_now : ℤ → RefreshState F
  due_now now = record {
    last_success_at_ms = none;
    next_run_at_ms = some now;
    last_error_category = none;
    cursor_value = none;
    coverage_ratio = none;
    updated_at_ms = now;
  }

  abbrev pub if_missing :
      Option (RefreshState F)
      → List (String × RefreshState F)
      → List (String × RefreshState F)
      → List (String × RefreshState F)
  if_missing none inserted states = inserted
  if_missing (some old) inserted states = states

  -- `INSERT … ON CONFLICT(task_name) DO NOTHING`
  unfoldable pub insert_missing :
      String → RefreshState F → List (String × RefreshState F) → List (String × RefreshState F)
  insert_missing task s states = if_missing (lookup task states) (store task s states) states

  unfoldable pub ensure_all :
      List String → ℤ → List (String × RefreshState F) → List (String × RefreshState F)
  unfolding insert_missing
  ensure_all [] now states = states
  ensure_all (task ∷ tasks) now states =
      ensure_all tasks now (insert_missing task (due_now now) states)

  unfoldable pub ensure_data_refresh_tasks :
      ℤ → List (String × RefreshState F) → List (String × RefreshState F)
  unfolding ensure_all
  ensure_data_refresh_tasks now states = ensure_all refresh_tasks now states

  -- The row that the arguments describe is one argument.
  unfoldable pub update_data_refresh_status :
      (F → Bool)
      → (F → Bool)
      → String
      → RefreshState F
      → List (String × RefreshState F)
      → Result (List (String × RefreshState F))
  update_data_refresh_status is_finite in_unit task_name s states = do
    refuse_if (is_blank task_name || ltb 80 (len task_name))
        (validation "data refresh task name is invalid")
    refuse_if (bad_ratio is_finite in_unit s.coverage_ratio)
        (validation "data coverage ratio is invalid")
    ok (store task_name s states)
