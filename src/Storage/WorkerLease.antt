-- ===== src/Storage/WorkerLease.antt =====
-- `try_acquire_worker_lease` and `release_worker_lease` of crates/storage/src/jobs.rs, on the row
-- `cloud_batch` of the table `worker_leases`, if there is one.
pub mod Exclusion
mod Examples
use lobbytally.Base.{
  ℕ, String, str_eq, Bool, true, false, not, ◌||◌, Option, none, some, List, [], ◌∷◌, leb, in_range,
  if◌then◌else◌, sat_add, is_blank,
}
use lobbytally.Storage.{Result, ok, err, validation, ◌>>◌, refuse_if}
use lobbytally.Storage.Jobs.Lease.{day_ms}

pub record WorkerLease : Type 0 where
  pub lease_owner : String
  pub lease_expires_at_ms : ℕ

-- The condition of `ON CONFLICT … DO UPDATE … WHERE`.
unfoldable pub is_free : String → ℕ → Option WorkerLease → Bool
is_free owner now none = true
is_free owner now (some held) = leb held.lease_expires_at_ms now || str_eq held.lease_owner owner

unfoldable pub try_acquire_worker_lease :
    String → ℕ → ℕ → Option WorkerLease → Result (Bool × Option WorkerLease)
try_acquire_worker_lease owner lease_ms now row = do
  refuse_if (is_blank owner) (validation "worker lease owner is required")
  refuse_if (not (in_range 1000 day_ms lease_ms))
      (validation "lease_ms must be between 1000 and 86400000")
  ok (
      if is_free owner now row
      then (true, some (record { lease_owner = owner; lease_expires_at_ms = sat_add now lease_ms }))
      else (false, row))

-- `UPDATE worker_leases SET lease_expires_at_ms = now WHERE … lease_owner = owner`
unfoldable pub release_row : String → ℕ → Option WorkerLease → Option WorkerLease
release_row owner now none = none
release_row owner now (some held) =
    if str_eq held.lease_owner owner
    then some (record held { lease_expires_at_ms = now })
    else some held

unfoldable pub release_worker_lease : String → ℕ → Option WorkerLease → Result (Option WorkerLease)
release_worker_lease owner now row = do
  refuse_if (is_blank owner) (validation "worker lease owner is required")
  ok (release_row owner now row)

-- A call of a worker, at a time.
pub data LeaseCall : Type 0 where
  tries : String → ℕ → ℕ → LeaseCall
  releases : String → ℕ → LeaseCall

abbrev tried : Result (Bool × Option WorkerLease) → Option WorkerLease → Option WorkerLease
tried (ok (answer, row')) row = row'
tried (err e) row = row

abbrev released : Result (Option WorkerLease) → Option WorkerLease → Option WorkerLease
released (ok row') row = row'
released (err e) row = row

unfoldable pub row_after : LeaseCall → Option WorkerLease → Option WorkerLease
row_after (tries owner lease_ms now) row =
    tried (try_acquire_worker_lease owner lease_ms now row) row
row_after (releases owner now) row = released (release_worker_lease owner now row) row

unfoldable pub row_after_all : List LeaseCall → Option WorkerLease → Option WorkerLease
row_after_all [] row = row
row_after_all (call ∷ calls) row = row_after_all calls (row_after call row)
