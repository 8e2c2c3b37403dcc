-- ===== src/Storage/HttpLimit/Rate.antt =====
-- How many requests the calls of `consume_http_limit` in crates/storage/src/shared_limits.rs let through.
use native.Mathlib.Nat.{lt-div-mul-add, le-div_iff_mul-le, div-mul-le_self, mul-le-mul_right}
use lobbytally.Base.{
  has_name, ℕ, zero, suc, ◌+◌, ◌*◌, ◌/◌, ◌<◌, ◌≤◌, ◌≡◌, ◌⊎◌, refl, subst, ◌∙◌, inl, inr, String,
  str_eq, eq_iff, Bool, true, false, not, ◌||◌, List, [], ltb, ◌==◌, Bool-cases, arith, i64_max,
  in_range, length, same_name, Ascending, Ascending-mono, Stepped, kept, admitted_in, within,
}
use lobbytally.Table.{delete_where, find_where, Single}
use lobbytally.Storage.{Result, StorageError, ok, err}
use lobbytally.Storage.HttpLimit.{
  HttpRate, namespace_of, key_set, global_key, budgets_of, window_start, is_old, charge,
  is_exhausted, consume_http_limit, count_in,
}
use lobbytally.Storage.HttpLimit.Rows.{at, delete_where-Single}
use lobbytally.Storage.HttpLimit.Charge.{count_all-Single, scope_counter, charge-Stepped}
use lobbytally.Storage.HttpLimit.Keys.{
  Accepts, key_set-Accepts, budgets_of-Apart, has_name-budgets_of, HaveRoom-key, HaveRoom-global,
  or_true,
}

-- A call of an instance of the server, at a time.
pub record HttpCall : Type 0 where
  pub identity_keys : List String
  pub now : ℕ

abbrev pub settled : List HttpRate → Result (Bool × List HttpRate) → Bool × List HttpRate
settled rows (ok answer) = answer
settled rows (err e) = (false, rows)

abbrev pub in_namespace : String → Result String → Bool
in_namespace namespace (ok prefix) = str_eq prefix namespace
in_namespace namespace (err e) = false

-- At most one row for each scope.
Unique : List HttpRate → Type 0
Unique rows = (k : String) → Single (at k) rows

empty-Unique : Unique []
unfolding Unique
empty-Unique k = tt

charge-Unique :
    (start now : ℕ) (budgets : List (String × ℕ)) (rows : List HttpRate)
    → Unique rows
    → Unique (charge start now budgets rows).1
unfolding Unique charge
charge-Unique start now budgets rows unique k =
    let live = delete_where (is_old now) rows in
    let single = delete_where-Single (is_old now) (at k) rows (unique k) in
    elim (Bool-cases (is_exhausted start budgets live)) [
      | inl full ↦ rw full single
      | inr free ↦ rw free (count_all-Single start k budgets live single)
    ]

window_start_mono :
    (window_seconds a b : ℕ) → a ≤ b → window_start window_seconds a ≤ window_start window_seconds b
window_start_mono zero a b h = omega arith
window_start_mono (suc n) a b h =
    let width = suc n * 1000 in
    mul-le-mul_right width (
      (le-div_iff_mul-le {k = width} {x = a / width} {y = b} (omega arith)).1
        (omega (arith, div-mul-le_self a width, h)))

Result-cases :
    {A : Type 0} (r : Result A) → ((e : StorageError) × (r ≡ err e)) ⊎ ((a : A) × (r ≡ ok a))
Result-cases (err e) = inl (e, refl)
Result-cases (ok a) = inr (a, refl)

module _ (identity_limit global_limit window_seconds : ℕ) where
  -- A call with its answer, where an error lets nothing through and changes no row.
  unfoldable pub answered_call : HttpCall → List HttpRate → Bool × List HttpRate
  answered_call call rows = settled rows (
      consume_http_limit call.identity_keys identity_limit global_limit window_seconds call.now
        rows)

  -- The calls that name a key, and those of a namespace.
  abbrev pub names : String → HttpCall → Bool
  names key call = has_name call.identity_keys key

  abbrev pub belongs : String → HttpCall → Bool
  belongs namespace call = in_namespace namespace (namespace_of call.identity_keys)

  abbrev pub window_at : HttpCall → ℕ
  window_at call = window_start window_seconds call.now

  -- A call that gets as far as the transaction.
  Charges : HttpCall → List HttpRate → Type 0
  Charges call rows =
      (namespace : String) × (keys : List String) × (namespace_of call.identity_keys ≡ ok namespace)
      × Accepts [] call.identity_keys keys
      × (call.now < window_at call + 7200000)
      × (answered_call call rows
          ≡ charge (window_at call) call.now (budgets_of keys namespace identity_limit global_limit)
              rows)

  recent :
      (now : ℕ)
      → in_range 1 3600 window_seconds ≡ true
      → now < window_start window_seconds now + 7200000
  recent now h =
      let (low, high) = bounds in
      omega (arith, lt-div-mul-add {a = now} {b = window_seconds * 1000} (omega (arith, low)), high)
    where
      bounds : (1 ≤ window_seconds) × (window_seconds ≤ 3600)
      bounds = (ground (arith, h), ground (arith, h))

  answered_call-cases :
      (call : HttpCall) (rows : List HttpRate)
      → (answered_call call rows ≡ (false, rows)) ⊎ Charges call rows
  unfolding answered_call Charges consume_http_limit
  answered_call-cases call rows =
      let shape =
        (length call.identity_keys == 0)
        || (ltb 8 (length call.identity_keys)
            || ((identity_limit == 0)
                || ((global_limit == 0) || not (in_range 1 3600 window_seconds)))) in
      elim (Bool-cases (ltb i64_max identity_limit)) [
        | inl a ↦ inl (rw a refl)
        | inr a ↦ elim (Bool-cases (ltb i64_max global_limit)) [
          | inl b ↦ inl (rw (a, b) refl)
          | inr b ↦ elim (Bool-cases shape) [
            | inl c ↦ inl (rw (a, b, c) refl)
            | inr c ↦ elim (Result-cases (namespace_of call.identity_keys)) [
              | inl (e, d) ↦ inl (rw (a, b, c, d) refl)
              | inr (namespace, d) ↦ elim (Result-cases (key_set namespace [] call.identity_keys)) [
                | inl (e, f) ↦ inl (rw (a, b, c, d) (rw f refl))
                | inr (keys, f) ↦ inr (
                  namespace,
                  keys,
                  d,
                  key_set-Accepts namespace [] call.identity_keys keys tt tt f,
                  recent call.now (ground (arith, c)),
                  rw (a, b, c, d) (rw f refl),
                )
              ]
            ]
          ]
        ]
      ]

  answered_call-Unique :
      (call : HttpCall) (rows : List HttpRate) → Unique rows → Unique (answered_call call rows).1
  unfolding Charges
  answered_call-Unique call rows unique = elim (answered_call-cases call rows) [
    | inl e ↦ rw e unique
    | inr (namespace, keys, n, accepts, now, e) ↦ rw e (
        charge-Unique (window_at call) call.now
          (budgets_of keys namespace identity_limit global_limit) rows unique)
  ]

  abbrev StepsOf : String → ℕ → (HttpCall → Bool) → Type 0
  StepsOf k limit wanted =
      (call : HttpCall) (rows : List HttpRate)
      → Unique rows
      → Stepped (scope_counter k limit window_at wanted) call rows (answered_call call rows).0
          (answered_call call rows).1

  names-StepsOf : (key : String) → StepsOf key identity_limit (names key)
  unfolding Charges Unique
  names-StepsOf key call rows unique = elim (answered_call-cases call rows) [
    | inl e ↦ rw e (kept refl refl refl)
    | inr (namespace, keys, n, (apart, local, old, new), now, e) ↦ rw e (
        charge-Stepped key identity_limit window_at (names key) call rows call.now
          (budgets_of keys namespace identity_limit global_limit) (unique key)
          (budgets_of-Apart keys namespace identity_limit global_limit apart local) now
          (λ want.
            has_name-budgets_of keys namespace identity_limit global_limit key
            ∙ rw (new key want) refl)
          (λ live want room.
            HaveRoom-key (window_at call) live namespace identity_limit global_limit keys key
              (new key want) room))
  ]

  belongs-StepsOf :
      (namespace : String) → StepsOf (global_key namespace) global_limit (belongs namespace)
  unfolding Charges Unique
  belongs-StepsOf namespace call rows unique = elim (answered_call-cases call rows) [
    | inl e ↦ rw e (kept refl refl refl)
    | inr (prefix, keys, n, (apart, local, old, new), now, e) ↦
        let same = λ (want : belongs namespace call ≡ true).
          (eq_iff prefix namespace).0 (subst (λ r. in_namespace namespace r ≡ true) n want) in
        rw e (
          charge-Stepped (global_key namespace) global_limit window_at (belongs namespace) call rows
            call.now (budgets_of keys prefix identity_limit global_limit)
            (unique (global_key namespace))
            (budgets_of-Apart keys prefix identity_limit global_limit apart local) now
            (λ want.
              has_name-budgets_of keys prefix identity_limit global_limit (global_key namespace)
              ∙ rw (same want, same_name (global_key namespace))
                  (or_true (has_name keys (global_key namespace))))
            (λ live want room.
              subst (λ v. count_in (window_at call) (global_key v) live < global_limit) (same want)
                (HaveRoom-global (window_at call) live prefix identity_limit global_limit keys
                  room)))
  ]

  bounded_by :
      (k : String) (limit : ℕ) (wanted : HttpCall → Bool) (steps : StepsOf k limit wanted)
      (first : ℕ) (calls : List HttpCall) (window : ℕ)
      → Ascending (λ (call : HttpCall). call.now) first calls
      → admitted_in answered_call wanted window_at window calls [] ≤ limit
  unfolding find_where
  bounded_by k limit wanted steps first calls window up =
      let windows =
        Ascending-mono (λ (call : HttpCall). call.now) (window_start window_seconds)
          (window_start_mono window_seconds) first calls up in
      let sum =
        within answered_call (scope_counter k limit window_at wanted) (length calls) Unique
          answered_call-Unique (λ call rows good old small. steps call rows good) window
          (window_start window_seconds first) calls [] empty-Unique windows (omega arith)
          (omega arith) in
      ground arith

  -- Over any calls with the same limits and window, at times that do not go back and from an empty table:
  -- in each window at most as many calls that name a key are let through as the limit of a key, and at
  -- most as many calls whose first key is of a namespace as the global limit.
  pub consume_http_limit_bounded :
      (first : ℕ) (calls : List HttpCall) (key namespace : String) (window : ℕ)
      → Ascending (λ (call : HttpCall). call.now) first calls
      → (admitted_in answered_call (names key) window_at window calls [] ≤ identity_limit)
        × (admitted_in answered_call (belongs namespace) window_at window calls [] ≤ global_limit)
  consume_http_limit_bounded first calls key namespace window up = (
    bounded_by key identity_limit (names key) (names-StepsOf key) first calls window up,
    bounded_by (global_key namespace) global_limit (belongs namespace) (belongs-StepsOf namespace)
        first calls window up,
  )
