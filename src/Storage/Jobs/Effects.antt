-- ===== src/Storage/Jobs/Effects.antt =====
-- What `yield_job` and `fail_job` do to the row of a job.
use lobbytally.Base.{
  ℕ, ◌-◌, ◌≤◌, ◌<◌, ◌≡◌, ◌≢◌, refl, ◌⊎◌, inl, inr, String, true, false, none, some, max, arith,
  sat_add, str_eq, eq_iff, Bool-cases, leb,
}
use lobbytally.Storage.Jobs.{JobRecord, pending, dead}
use lobbytally.Storage.Jobs.Lease.{yield_row}
use lobbytally.Storage.Jobs.Finish.{one_of, fail_row, is_permanent}
use lobbytally.Storage.Jobs.Invariant.{SameJob}

-- The job waits again, without the attempt, and is due at a time.
pub record GivenBack (due : ℕ) (r s : JobRecord) : Type 0 where
  pub same_job : SameJob r s
  pub same_completion : s.completion_idempotency_key ≡ r.completion_idempotency_key
  pub waits : s.status ≡ pending
  pub refunded : s.attempts ≡ r.attempts - 1
  pub due_later : s.due_at_ms ≡ due
  pub no_owner : s.lease_owner ≡ none
  pub no_expiry : s.lease_expires_at_ms ≡ none
  pub same_category : s.last_error_category ≡ r.last_error_category

-- The categories after which a job is not tried again.
abbrev pub Permanent : String → Type 0
Permanent category =
    (category ≡ "auth")
    ⊎ (category ≡ "not_found")
    ⊎ (category ≡ "invalid_payload")
    ⊎ (category ≡ "parse_changed")

-- The attempt has failed, and the job is dead, or due again at a time.
pub record Failed (category : String) (due : ℕ) (r s : JobRecord) : Type 0 where
  pub same_job : SameJob r s
  pub same_completion : s.completion_idempotency_key ≡ r.completion_idempotency_key
  pub counted : s.attempts ≡ r.attempts
  pub noted : s.last_error_category ≡ some category
  pub no_owner : s.lease_owner ≡ none
  pub no_expiry : s.lease_expires_at_ms ≡ none
  pub dead_or_due :
      ((Permanent category ⊎ (r.max_attempts ≤ r.attempts))
        × (s.status ≡ dead)
        × (s.due_at_ms ≡ r.due_at_ms))
      ⊎ ((category ≢ "auth")
          × (category ≢ "not_found")
          × (category ≢ "invalid_payload")
          × (category ≢ "parse_changed")
          × (r.attempts < r.max_attempts)
          × (s.status ≡ pending)
          × (s.due_at_ms ≡ due))

pub yield_row-GivenBack : (due : ℕ) (r : JobRecord) → GivenBack due r (yield_row due r)
unfolding yield_row
yield_row-GivenBack due r = ground arith

is_permanent_cases :
    (category : String)
    → ((is_permanent category ≡ true) × Permanent category)
      ⊎ ((is_permanent category ≡ false)
          × (category ≢ "auth")
          × (category ≢ "not_found")
          × (category ≢ "invalid_payload")
          × (category ≢ "parse_changed"))
unfolding is_permanent one_of
is_permanent_cases category = elim (Bool-cases (is_permanent category)) [
  | inl e ↦ inl (e, permanent e)
  | inr e ↦ inr (
    e,
    differs "auth" (ground arith),
    differs "not_found" (ground arith),
    differs "invalid_payload" (ground arith),
    differs "parse_changed" (ground arith),
  )
]
  where
    permanent : is_permanent category ≡ true → Permanent category
    permanent e = ground (
      arith,
      (eq_iff category "auth").0,
      (eq_iff category "not_found").0,
      (eq_iff category "invalid_payload").0,
      (eq_iff category "parse_changed").0,
    )

    differs : (t : String) → str_eq category t ≡ false → category ≢ t
    differs t h e = let hit = (eq_iff category t).1 e in cc

pub fail_row-Failed :
    (category : String) (now delay : ℕ) (r : JobRecord)
    → 1 ≤ delay
    → Failed category
        (sat_add now delay)
        r
        (fail_row (is_permanent category) category (sat_add now (max delay 1)) r)
unfolding fail_row
fail_row-Failed category now delay r low = elim (is_permanent_cases category) [
  | inl (e, permanent) ↦ record {
    same_job = ground arith;
    same_completion = refl;
    counted = refl;
    noted = refl;
    no_owner = refl;
    no_expiry = refl;
    dead_or_due = inl (inl permanent, rw e refl, rw e refl);
  }
  | inr (e, a, b, c, d) ↦ record {
    same_job = ground arith;
    same_completion = refl;
    counted = refl;
    noted = refl;
    no_owner = refl;
    no_expiry = refl;
    dead_or_due = elim (Bool-cases (leb r.max_attempts r.attempts)) [
      | inl t ↦ inl (inr (ground arith), rw (e, t) refl, rw (e, t) refl)
      | inr f ↦ inr (a, b, c, d, ground arith, rw (e, f) refl, rw (e, f) (ground arith))
    ];
  }
]
