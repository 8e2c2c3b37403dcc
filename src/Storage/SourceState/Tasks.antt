-- ===== src/Storage/SourceState/Tasks.antt =====
-- Which states `ensure_data_refresh_tasks` of crates/storage/src/source_state.rs leaves.
use lobbytally.Base.{ℤ, Bool, true, false, Option, none, some}
use lobbytally.Storage.SourceState.{RefreshState, due_now}

abbrev pub or_due : {F : Type 0} → Bool → ℤ → Option (RefreshState F) → Option (RefreshState F)
or_due named now (some s) = some s
or_due true now none = some (due_now now)
or_due false now none = none
