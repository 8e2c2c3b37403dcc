-- ===== src/Storage.antt =====
-- crates/storage/src/error.rs: the errors that the modelled operations return, and `StorageResult`.
-- An operation takes the rows it works on and returns its value with the new rows; an error carries
-- no rows, since a transaction that ends in one is rolled back.
pub mod Jobs
pub mod WorkerLease
pub mod AiLease
pub mod HttpLimit
pub mod SourceRuns
pub mod SourceState
use lobbytally.Base.{ℕ, ◌≡◌, Bool, true, false, String}

-- The four messages of `lease_state_error`.
pub data LeaseFault : Type 0 where
  wrong_status another_owner lease_expired state_changed : LeaseFault

pub data StorageError : Type 0 where
  not_found : ℕ → StorageError
  conflict : String → StorageError
  validation : String → StorageError
  lease : LeaseFault → StorageError

pub data Result {ℓ} (A : Type ℓ) : Type ℓ where
  ok : A → Result A
  err : StorageError → Result A

-- `?`: an error ends the operation.
abbrev pub ◌>>=◌ {ℓ ℓ'} :
    {Value : Type ℓ} {Next : Type ℓ'} → Result Value → (Value → Result Next) → Result Next
err problem >>= next = err problem
ok value >>= next = next value

abbrev pub ◌>>◌ {ℓ} : {Next : Type ℓ} → Result (Unit {0}) → Result Next → Result Next
err problem >> next = err problem
ok tt >> next = next

infixl 5 ◌>>=◌ ◌>>◌
-- `if bad { return Err(error) }`
abbrev pub refuse_if : Bool → StorageError → Result (Unit {0})
refuse_if true e = err e
refuse_if false e = ok tt

-- The two parts of an answer.
pub ok_pair {ℓ} :
    {A B : Type ℓ} {a c : A} {b d : B}
    → ◌≡◌ {A = Result (A × B)} (ok (a, b)) (ok (c, d))
    → (a ≡ c) × (b ≡ d)
ok_pair h = (cc, cc)
