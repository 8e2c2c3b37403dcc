-- ===== src/Storage/Jobs/Invariant.antt =====
-- What holds of the table `jobs` between two calls.
use lobbytally.Base.{
  ℕ, ◌≤◌, ◌≡◌, ◌≢◌, inl, inr, String, Bool, Option, none, some, List, [], ◌∷◌, ◌++◌, map, arith,
  All, All-append, subst, eq_iff, Bool-cases,
}
use mathlib.Core.List.{map-append}
use lobbytally.Table.{Rows-All, Rows-map, Distinct, Distinct-snoc, find_where}
use lobbytally.Storage.{ok}
use lobbytally.Storage.Jobs.{
  JobRecord, EnqueueJob, leased, is_held_by, get_job_by_idempotency, has_key,
}
use lobbytally.Storage.Jobs.Enqueue.{new_row, check_job}
use lobbytally.Storage.Jobs.Lease.{
  is_expired, expire_row, is_spent, bury_row, can_lease, lease_row, recycle_row, yield_row,
}
use lobbytally.Storage.Jobs.Finish.{complete_row, fail_row}
use lobbytally.Storage.Jobs.Calls.{Call, identity, caller, after}
use lobbytally.Storage.Jobs.Lifecycle.{
  Transition, expire, bury, recycle, acquire, give_back, finish, give_up, Moves,
}
use lobbytally.Storage.Jobs.Growth.{Grows, moves_only, adds, IsNew, after-Grows}

-- A row never has more attempts than it may, and has an owner and an expiry exactly while leased.
pub record IsRow (r : JobRecord) : Type 0 where
  pub few : r.max_attempts ≤ 100
  pub some_allowed : 1 ≤ r.max_attempts
  pub within : r.attempts ≤ r.max_attempts
  pub owned : r.status ≡ leased → r.lease_owner ≢ none
  pub expires : r.status ≡ leased → r.lease_expires_at_ms ≢ none
  pub unowned : r.status ≢ leased → r.lease_owner ≡ none
  pub unexpiring : r.status ≢ leased → r.lease_expires_at_ms ≡ none

Transition-IsRow :
    (actor : Option String) (now : ℕ) (r s : JobRecord)
    → Transition actor now r s
    → IsRow r
    → IsRow s
unfolding is_expired expire_row is_spent bury_row recycle_row can_lease lease_row is_held_by
    yield_row complete_row fail_row
Transition-IsRow actor now r s (expire h e) v = ground arith
Transition-IsRow actor now r s (bury h e) v = ground arith
Transition-IsRow actor now r s (recycle h e) v = ground arith
Transition-IsRow actor now r s (acquire owner expires a h e) v = ground arith
Transition-IsRow actor now r s (give_back owner due a h e) v = ground arith
Transition-IsRow actor now r s (finish owner key a h e) v = ground arith
Transition-IsRow actor now r s (give_up owner category permanent due a h e) v = ground arith

-- What a job is stays as it was enqueued.
pub record SameJob (r s : JobRecord) : Type 0 where
  pub job_id : s.job_id ≡ r.job_id
  pub idempotency_key : s.idempotency_key ≡ r.idempotency_key
  pub source : s.source ≡ r.source
  pub task_type : s.task_type ≡ r.task_type
  pub entity_key : s.entity_key ≡ r.entity_key
  pub priority : s.priority ≡ r.priority
  pub max_attempts : s.max_attempts ≡ r.max_attempts
  pub payload_json : s.payload_json ≡ r.payload_json

pub Transition-SameJob :
    (actor : Option String) (now : ℕ) (r s : JobRecord) → Transition actor now r s → SameJob r s
unfolding expire_row bury_row recycle_row lease_row yield_row complete_row fail_row
Transition-SameJob actor now r s (expire h e) = ground arith
Transition-SameJob actor now r s (bury h e) = ground arith
Transition-SameJob actor now r s (recycle h e) = ground arith
Transition-SameJob actor now r s (acquire owner expires a h e) = ground arith
Transition-SameJob actor now r s (give_back owner due a h e) = ground arith
Transition-SameJob actor now r s (finish owner key a h e) = ground arith
Transition-SameJob actor now r s (give_up owner category permanent due a h e) = ground arith

abbrev pub ids : List JobRecord → List ℕ
ids = map (λ (r : JobRecord). r.job_id)

abbrev pub keys : List JobRecord → List String
keys = map (λ (r : JobRecord). r.idempotency_key)

-- The table is well formed: each row is, and no two rows share an identity or an idempotency key.
pub record IsTable (jobs : List JobRecord) : Type 0 where
  pub each : All IsRow jobs
  pub distinct_ids : Distinct (ids jobs)
  pub distinct_keys : Distinct (keys jobs)

new_row-IsRow :
    (is_json : String → Bool) (fresh : ℕ) (job : EnqueueJob)
    → check_job is_json job ≡ ok tt
    → IsRow (new_row fresh job)
unfolding new_row check_job
new_row-IsRow is_json fresh job h = ground arith

-- The text that a query by key did not find is not in the column.
absent-keys :
    (key : String) (jobs : List JobRecord)
    → find_where (has_key key) jobs ≡ none
    → All (λ k. k ≢ key) (keys jobs)
unfolding find_where
absent-keys key [] h = tt
absent-keys key (r ∷ jobs) h = elim (Bool-cases (has_key key r)) [
  | inl e ↦ let hit : some r ≡ none = rw e at h in cc
  | inr e ↦ (
    (λ same. let hit = (eq_iff r.idempotency_key key).1 same in cc),
    absent-keys key jobs (rw e at h),
  )
]

-- What the database promises of the identity that it gives to a new row: no row has it.
abbrev pub IsFresh : Option ℕ → List JobRecord → Type 0
IsFresh none jobs = Unit
IsFresh (some fresh) jobs = All (λ k. k ≢ fresh) (ids jobs)

fresh_of :
    (o : Option ℕ) (fresh : ℕ) (jobs : List JobRecord)
    → o ≡ some fresh
    → IsFresh o jobs
    → All (λ k. k ≢ fresh) (ids jobs)
fresh_of o fresh jobs e h = subst (λ i. IsFresh i jobs) e h

IsTable-snoc :
    (is_json : String → Bool) (call : Call) (jobs : List JobRecord) (row : JobRecord)
    → IsNew is_json (identity call) jobs row
    → IsFresh (identity call) jobs
    → IsTable jobs
    → IsTable (jobs ++ row ∷ [])
unfolding get_job_by_idempotency new_row
IsTable-snoc is_json call jobs row n f v = record {
  each =
      All-append IsRow jobs (row ∷ []) v.each
        (rw n.written (new_row-IsRow is_json n.fresh n.job n.checked), tt);
  distinct_ids =
      rw (map-append, n.written)
        (Distinct-snoc n.fresh (ids jobs) v.distinct_ids (fresh_of _ n.fresh jobs n.from_call f));
  distinct_keys =
      rw (map-append, n.written)
        (Distinct-snoc n.job.idempotency_key (keys jobs) v.distinct_keys
          (absent-keys n.job.idempotency_key jobs n.absent));
}

pub Moves-Distinct-ids :
    (actor : Option String) (now : ℕ) (jobs t : List JobRecord)
    → Moves actor now jobs t
    → Distinct (ids jobs)
    → Distinct (ids t)
Moves-Distinct-ids actor now jobs t m d =
    rw
      (Rows-map (Transition actor now) (λ (r : JobRecord). r.job_id)
        (λ r s x. (Transition-SameJob actor now r s x).job_id) jobs t m)
      d

Grows-IsTable :
    (is_json : String → Bool) (now : ℕ) (call : Call) (jobs t : List JobRecord)
    → Grows is_json now call jobs t
    → IsFresh (identity call) jobs
    → IsTable jobs
    → IsTable t
Grows-IsTable is_json now call jobs t (moves_only m) f v =
    let R = Transition (caller call) now in
    record {
      each = Rows-All R IsRow (Transition-IsRow (caller call) now) jobs t m v.each;
      distinct_ids = Moves-Distinct-ids (caller call) now jobs t m v.distinct_ids;
      distinct_keys =
          rw
            (Rows-map R (λ (r : JobRecord). r.idempotency_key)
              (λ r s x. (Transition-SameJob _ now r s x).idempotency_key) jobs t m)
            v.distinct_keys;
    }
Grows-IsTable is_json now call jobs t (adds row n e) f v =
    rw e (IsTable-snoc is_json call jobs row n f v)

-- Every call, failing or not, at any time and by any worker, keeps the table well formed, if the
-- database gives a fresh identity to the row that an enqueue inserts: attempts never pass the maximum, a row has an
-- owner and an expiry exactly while it is leased, and identities and idempotency keys stay unique.
pub after-IsTable :
    (is_json : String → Bool) (now : ℕ) (call : Call) (jobs : List JobRecord)
    → IsFresh (identity call) jobs
    → IsTable jobs
    → IsTable (after is_json now call jobs)
after-IsTable is_json now call jobs =
    Grows-IsTable is_json now call jobs _ (after-Grows is_json now call jobs)
