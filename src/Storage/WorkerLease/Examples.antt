-- ===== src/Storage/WorkerLease/Examples.antt =====
-- Runs of the worker lease.
use lobbytally.Base.{◌≤◌, ◌≡◌, ◌≢◌, refl, true, Option, some, List, [], ◌∷◌, arith, is_blank}
use lobbytally.Storage.{ok}
use lobbytally.Storage.WorkerLease.{
  WorkerLease, LeaseCall, tries, releases, try_acquire_worker_lease, release_worker_lease,
  row_after_all,
}
use lobbytally.Storage.WorkerLease.Exclusion.{try_acquire-row_after_all, try_acquire-recovers}

abbrev batch : WorkerLease
batch = record { lease_owner = "w1"; lease_expires_at_ms = 60000 }

abbrev others : List LeaseCall
others = tries "w2" 5000 1000 ∷ releases "w2" 1500 ∷ tries "w3" 5000 2000 ∷ []

try_acquire-row_after_all_example :
    (row_after_all others (some batch) ≡ some batch)
    × (try_acquire_worker_lease "w2" 5000 59999 (row_after_all others (some batch))
        ≢ ok (true, some batch))
try_acquire-row_after_all_example =
    try_acquire-row_after_all batch others ((refl, omega arith), (refl, ((refl, omega arith), tt)))
      "w2" 5000 59999 refl (omega arith) (some batch)

abbrev next_batch : WorkerLease
next_batch = record { lease_owner = "w2"; lease_expires_at_ms = 65000 }

try_acquire-recovers_example :
    (60000 ≤ 60000
      → try_acquire_worker_lease "w2" 5000 60000 (some batch) ≡ ok (true, some next_batch))
    × ((row : Option WorkerLease)
        → release_worker_lease "w1" 60000 (some batch) ≡ ok row
        → try_acquire_worker_lease "w2" 5000 60000 row ≡ ok (true, some next_batch))
unfolding is_blank
try_acquire-recovers_example =
    try_acquire-recovers batch "w2" 5000 60000 refl (omega arith) (omega arith)
