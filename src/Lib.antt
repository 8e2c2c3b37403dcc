-- ===== src/Lib.antt =====
-- LobbyTally: a service that recommends games to play together. Workers fetch game data through a
-- queue of jobs in PostgreSQL, a recommender ranks it, an AI layer explains it, and a server answers
-- clients. This library models the parts with logic of their own; the paths below are from the
-- repository's root.
--
-- Parts and files
--   Base, Base/*      Booleans, lists, texts, maps and signed numbers that the models share. Base/Windows has
--                     the counters of a window of time, for the rate limits of Storage/HttpLimit and of
--                     Ai/Router.
--   Table, Table/*    SQL statements on a table as the list of its rows: UPDATE, SELECT, DELETE and
--                     ORDER BY, with what holds of a table after them.
--   Storage           crates/storage/src/error.rs: the errors of the storage crate.
--   Storage/Jobs      crates/storage/src/jobs.rs: the job queue. Enqueue has `enqueue_job` and
--                     `enqueue_job_if_no_active`, Lease has `lease_jobs`, `recover_leased_jobs` and
--                     `yield_job`, Finish has `complete_job` and `fail_job`; Calls has these as the
--                     calls of a history. The other files below it are proofs, named for their
--                     subject.
--   Storage/WorkerLease
--                     crates/storage/src/jobs.rs: `try_acquire_worker_lease` and
--                     `release_worker_lease`, which serialise the cloud batches.
--   Storage/AiLease   crates/storage/src/shared_limits.rs: `acquire_ai_lease` and `release_ai_lease`, the
--                     admission of calls to AI providers across the instances of the server.
--   Storage/HttpLimit crates/storage/src/shared_limits.rs: `consume_http_limit`, the budgets of requests
--                     that the instances of the server share.
--   Storage/SourceRuns
--                     crates/storage/src/source_state.rs: the audit rows of the worker's runs.
--   Storage/SourceState
--                     crates/storage/src/source_state.rs: the cursors and the states of refresh tasks.
--   Domain            crates/domain/src/lib.rs: `FeedSection` and `ModeFamily` with their texts,
--                     in Domain/Feedback `FeedbackType`, in Domain/Alias `ModeFamily::from_alias`.
--   Recommender       crates/recommender/src/lib.rs and pipeline.rs: the candidates and their scores.
--   Recommender/Mmr   crates/recommender/src/mmr.rs: the re-ranking. Baseline has the order that it
--                     starts from, Similarity `similarity` and the comparisons that it weighs,
--                     Guardrail `ModeGuardrail`, Choice `best_mmr_index` and
--                     `explore_candidate_index`, Rerank the loop; the other files are proofs.
--   Recommender/Quota crates/recommender/src/pipeline.rs: `ensure_fresh_release_quota`. Places is about swaps.
--   Source/DailyBudget
--                     crates/steam-source/src/rate_limit.rs: the budget of requests for a day.
--   Source/AppList    crates/steam-source/src/app_list.rs, cursor.rs and proposal.rs: the pages of the
--                     catalogue and the proposals that they yield.
--   Ai                crates/ai/src/types.rs and error.rs: what the AI layer shares.
--   Ai/Registry       crates/ai/src/model_registry.rs: the models that may be tried.
--   Ai/Router         crates/ai/src/router.rs: budget and circuit breakers; Router/Chain has one model of
--                     `structured_completion` with its protocols, Router/Walk the loop over the
--                     models and the entry. The other files below it are proofs.
--   Ai/HostLimit      crates/ai/src/host_limit.rs: permits for the calls to a host, with the cap on calls at
--                     once and the circuit after answers 429. HostLimit/History has the histories of one
--                     host and the circuit that they prescribe.
--   The files Examples hold runs at small inputs. The recommender reads modes through Domain; workers
--   take the batch lease of WorkerLease and then lease jobs from Jobs. The router asks the registry which
--   models it may try, and tells it which answered and which are missing.
--
-- How the models read the code
--   A call of the storage crate is one transaction on the rows of its table; one that returns an error
--   is rolled back. The rows that another transaction has locked (SKIP LOCKED), the identity that the
--   database gives to a new row, and the JSON parser are parameters. Times in milliseconds and counts
--   are natural numbers; a sum that the code saturates is `sat_add`, which saturates at the greatest
--   i64. The columns `created_at_ms` and `updated_at_ms` of the jobs, leases and cursors, which no modelled
--   query reads, are left out. An `Instant` or a `Duration` is a number of nanoseconds
--   without a greatest one: the panic of `Instant + Duration` in `release_429`, where the sum does not fit,
--   is not modelled.
--   Loops are structural recursions on a list, but for that of `mmr_rerank_with_tie_seed`: it runs
--   on fuel, as much as the window has candidates, and each round removes one of them. `none` stands
--   there for fuel that ran out and for an index out of range.
--   The router's provider and clocks are operations on a world that they change; one task at a time runs.
--   The counters of the router wrap around at 2 ^ 32, and a HashMap from names is the list of its entries;
--   that of the hosts of Ai/HostLimit is a function.
--   A f64 is a value of a type that is a parameter, with the operations that the code uses; no law of
--   them is assumed. Unicode lower case is a parameter too. A HashMap from modes to counts is a
--   function that is 0 where the map has no entry.
--
-- Not modelled
--   HTTP clients and handlers, the SQL of the catalogue and of accounts, migrations, the web client
--   and the desktop shell: they are input and output, or single statements with no state of their own.
pub mod Base
pub mod Table
pub mod Domain
pub mod Storage
pub mod Source
pub mod Ai
pub mod Recommender
