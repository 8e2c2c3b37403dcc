-- ===== src/Storage/Jobs/Faults.antt =====
-- Who holds the lease on a job, and why a worker does not.
use lobbytally.Base.{
  ℕ, ◌≤◌, ◌<◌, ◌≡◌, ◌≢◌, refl, ap, inl, inr, String, true, false, Option, none, some, arith, eq_iff,
  Bool-cases, Option-cases, leb, ltb,
}
use lobbytally.Storage.{LeaseFault, wrong_status, another_owner, lease_expired, lease}
use lobbytally.Storage.Jobs.{JobRecord, leased, is_leased, is_text, is_held_by, lease_state_error}
use lobbytally.Storage.Jobs.Invariant.{IsRow}

-- A lease of the owner on the job that has not expired.
pub record Holds (owner : String) (now : ℕ) (r : JobRecord) : Type 0 where
  pub expires : ℕ
  pub is_out : r.status ≡ leased
  pub is_mine : r.lease_owner ≡ some owner
  pub until : r.lease_expires_at_ms ≡ some expires
  pub is_live : now < expires

-- Why the owner has no such lease: the first of the three that holds.
pub data IsFault (owner : String) (now : ℕ) (r : JobRecord) : LeaseFault → Type 0 where
  not_out : r.status ≢ leased → IsFault owner now r wrong_status
  not_mine : r.status ≡ leased → r.lease_owner ≢ some owner → IsFault owner now r another_owner
  not_live :
      (expires : ℕ)
      → r.status ≡ leased
      → r.lease_owner ≡ some owner
      → r.lease_expires_at_ms ≡ some expires
      → expires ≤ now
      → IsFault owner now r lease_expired

is_text_same : (s : String) (o : Option String) → is_text s o ≡ true → o ≡ some s
is_text_same s none h = cc
is_text_same s (some t) h = ap some ((eq_iff t s).0 h)

is_text_other : (s : String) (o : Option String) → is_text s o ≡ false → o ≢ some s
is_text_other s none h e = cc
is_text_other s (some t) h e = let same : t ≡ s = cc in let hit = (eq_iff t s).1 same in cc

pub is_held_by-Holds :
    (owner : String) (now : ℕ) (r : JobRecord) → is_held_by owner now r ≡ true → Holds owner now r
unfolding is_held_by
is_held_by-Holds owner now r h = elim (Option-cases r.lease_expires_at_ms) [
  | inl none_set ↦ absurd (never none_set)
  | inr (expires, until) ↦ record {
    expires = expires;
    is_out = ground arith;
    is_mine = is_text_same owner r.lease_owner (ground arith);
    until = until;
    is_live = ground arith;
  }
]
  where
    never : r.lease_expires_at_ms ≡ none → ⊥
    never e = ground arith

pub lease_state_error-IsFault :
    (owner : String) (now : ℕ) (r : JobRecord)
    → IsRow r
    → is_held_by owner now r ≡ false
    → (fault : LeaseFault) × (IsFault owner now r fault)
      × (lease_state_error r owner now ≡ lease fault)
unfolding is_held_by lease_state_error
lease_state_error-IsFault owner now r v h = elim (Bool-cases (is_leased r.status)) [
  | inr e ↦ (wrong_status, not_out (λ out. ground arith), rw e refl)
  | inl out ↦ elim (Bool-cases (is_text owner r.lease_owner)) [
    | inr e ↦ (
      another_owner,
      not_mine (ground arith) (is_text_other owner r.lease_owner e),
      rw (out, e) refl,
    )
    | inl mine ↦ elim (Option-cases r.lease_expires_at_ms) [
      | inl e ↦ absurd (v.expires (ground arith) e)
      | inr (expires, until) ↦
          let past : ltb now expires ≡ false = rw (out, mine, until) at h in
          let over : leb expires now ≡ true = ground arith in
          (
            lease_expired,
            not_live expires (ground arith) (is_text_same owner r.lease_owner mine) until
                (ground arith),
            rw (out, mine, until, over) refl,
          )
    ]
  ]
]
