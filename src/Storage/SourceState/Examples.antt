-- ===== src/Storage/SourceState/Examples.antt =====
-- A table in which one task has a state.
use lobbytally.Base.{pos, Bool, List, [], ◌∷◌, String}
use lobbytally.Storage.SourceState.{RefreshState, due_now}

abbrev states : List (String × RefreshState Bool)
states = ("enrichment", due_now (pos 5)) ∷ []
