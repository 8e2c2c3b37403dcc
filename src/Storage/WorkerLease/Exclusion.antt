-- ===== src/Storage/WorkerLease/Exclusion.antt =====
-- One worker at a time holds the batch lease, and a crashed worker does not hold it for ever.
use lobbytally.Base.{
  ℕ, ◌≤◌, ◌<◌, ◌≡◌, ◌≢◌, refl, String, str_eq, eq_iff, true, false, Option, some, List, [], ◌∷◌,
  arith, sat_add, is_blank, All,
}
use lobbytally.Storage.{ok}
use lobbytally.Storage.Jobs.Lease.{day_ms}
use lobbytally.Storage.WorkerLease.{
  WorkerLease, is_free, try_acquire_worker_lease, release_row, release_worker_lease, LeaseCall,
  tries, releases, row_after, row_after_all,
}

-- A call by another worker before the lease runs out.
abbrev pub IsForeign : WorkerLease → LeaseCall → Type 0
IsForeign held (tries owner lease_ms now) =
    (str_eq held.lease_owner owner ≡ false) × (now < held.lease_expires_at_ms)
IsForeign held (releases owner now) = str_eq held.lease_owner owner ≡ false

row_after-foreign :
    (held : WorkerLease) (call : LeaseCall)
    → IsForeign held call
    → row_after call (some held) ≡ some held
unfolding row_after try_acquire_worker_lease is_free release_worker_lease release_row
row_after-foreign held (tries owner lease_ms now) h = ground arith
row_after-foreign held (releases owner now) h = ground arith

refused :
    (held : WorkerLease) (owner : String) (lease_ms now : ℕ) (row' : Option WorkerLease)
    → str_eq held.lease_owner owner ≡ false
    → now < held.lease_expires_at_ms
    → try_acquire_worker_lease owner lease_ms now (some held) ≢ ok (true, row')
unfolding try_acquire_worker_lease is_free
refused held owner lease_ms now row' other early = ground arith

-- However many calls other workers make before a lease runs out, the lease stays as it is, and a
-- worker that then asks for it before that time does not get it.
pub try_acquire-row_after_all :
    (held : WorkerLease) (calls : List LeaseCall)
    → All (IsForeign held) calls
    → (owner : String) (lease_ms now : ℕ) → str_eq held.lease_owner owner ≡ false
    → now < held.lease_expires_at_ms
    → (row' : Option WorkerLease)
    → (row_after_all calls (some held) ≡ some held)
      × (try_acquire_worker_lease owner lease_ms now (row_after_all calls (some held))
          ≢ ok (true, row'))
unfolding row_after_all
try_acquire-row_after_all held [] h owner lease_ms now other early row' =
    (refl, refused held owner lease_ms now row' other early)
try_acquire-row_after_all held (call ∷ calls) h owner lease_ms now other early row' =
    rw (row_after-foreign held call h.0)
      (try_acquire-row_after_all held calls h.1 owner lease_ms now other early row')

own : (s : String) → str_eq s s ≡ true
own s = (eq_iff s s).1 refl

-- A worker whose arguments pass the checks gets the lease from the time on at which the holder's
-- runs out, and right after the holder released it: it then holds it for the time asked for.
pub try_acquire-recovers :
    (held : WorkerLease) (owner : String) (lease_ms now : ℕ)
    → is_blank owner ≡ false
    → 1000 ≤ lease_ms
    → lease_ms ≤ day_ms
    → let taken : WorkerLease = record {
      lease_owner = owner;
      lease_expires_at_ms = sat_add now lease_ms;
    } in
      (held.lease_expires_at_ms ≤ now
        → try_acquire_worker_lease owner lease_ms now (some held) ≡ ok (true, some taken))
      × ((row : Option WorkerLease)
          → release_worker_lease held.lease_owner now (some held) ≡ ok row
          → try_acquire_worker_lease owner lease_ms now row ≡ ok (true, some taken))
unfolding try_acquire_worker_lease is_free release_worker_lease release_row
try_acquire-recovers held owner lease_ms now named low high =
    (λ late. ground arith, λ row h. freed row h)
  where
    freed :
        (row : Option WorkerLease)
        → release_worker_lease held.lease_owner now (some held) ≡ ok row
        → try_acquire_worker_lease owner lease_ms now row
          ≡ ok (
            true,
            some (record { lease_owner = owner; lease_expires_at_ms = sat_add now lease_ms }),
          )
    freed row h = let same = own held.lease_owner in ground arith
