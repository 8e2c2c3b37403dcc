-- ===== src/Storage/HttpLimit/Rows.antt =====
-- What the statements of `consume_http_limit` in crates/storage/src/shared_limits.rs do to the row of
-- one scope.
use lobbytally.Base.{
  ℕ, ◌≡◌, refl, ap, inl, inr, String, str_eq, eq_iff, Bool, true, false, ◌&&◌, Option, none, some,
  List, [], ◌∷◌, ◌==◌, if◌then◌else◌, All, Bool-cases, one_name,
}
use lobbytally.Table.{delete_where, find_where, Single}
use lobbytally.Storage.HttpLimit.{HttpRate, counted_by, count_in, bump, count_request}

abbrev pub at : String → HttpRate → Bool
at k r = str_eq r.scope k

abbrev pub kept_if : (HttpRate → Bool) → Option HttpRate → Option HttpRate
kept_if d none = none
kept_if d (some r) = if d r then none else some r

module _ (d p : HttpRate → Bool) where
  delete_where-none :
      (rows : List HttpRate)
      → All (λ r. p r ≡ false) rows
      → All (λ r. p r ≡ false) (delete_where d rows)
  unfolding delete_where
  delete_where-none [] h = tt
  delete_where-none (r ∷ rows) h = elim (Bool-cases (d r)) [
    | inl e ↦ rw e (delete_where-none rows h.1)
    | inr e ↦ rw e (h.0, delete_where-none rows h.1)
  ]

  pub delete_where-Single : (rows : List HttpRate) → Single p rows → Single p (delete_where d rows)
  unfolding delete_where
  delete_where-Single [] h = tt
  delete_where-Single (r ∷ rows) h = elim (Bool-cases (d r)) [
    | inl e ↦ rw e (delete_where-Single rows h.1)
    | inr e ↦ rw e (λ hit. delete_where-none rows (h.0 hit), delete_where-Single rows h.1)
  ]

  find_none : (rows : List HttpRate) → All (λ r. p r ≡ false) rows → find_where p rows ≡ none
  unfolding find_where
  find_none [] h = refl
  find_none (r ∷ rows) h = rw (h.0) (find_none rows h.1)

  pub find_where-delete_where :
      (rows : List HttpRate)
      → Single p rows
      → find_where p (delete_where d rows) ≡ kept_if d (find_where p rows)
  unfolding delete_where find_where
  find_where-delete_where [] h = refl
  find_where-delete_where (r ∷ rows) h = elim (Bool-cases (d r)) [
    | inl e ↦ elim (Bool-cases (p r)) [
      | inl hit ↦
          rw (e, hit) (rw e (find_none (delete_where d rows) (delete_where-none rows (h.0 hit))))
      | inr miss ↦ rw (e, miss) (find_where-delete_where rows h.1)
    ]
    | inr e ↦ elim (Bool-cases (p r)) [
      | inl hit ↦ rw (e, hit) (rw e refl)
      | inr miss ↦ rw (e, miss) (find_where-delete_where rows h.1)
    ]
  ]

-- The count of a row in a window.
abbrev pub counted_now : ℕ → Option HttpRate → ℕ
counted_now start none = 0
counted_now start (some r) = if r.window_started_at_ms == start then r.request_count else 0

both_none :
    (p q : HttpRate → Bool) (rows : List HttpRate)
    → All (λ r. p r ≡ false) rows
    → find_where (λ r. p r && q r) rows ≡ none
unfolding find_where
both_none p q [] h = refl
both_none p q (r ∷ rows) h = rw (h.0) (both_none p q rows h.1)

pub count_in-counted_now :
    (start : ℕ) (k : String) (rows : List HttpRate)
    → Single (at k) rows
    → count_in start k rows ≡ counted_now start (find_where (at k) rows)
unfolding count_in find_where
count_in-counted_now start k [] h = refl
count_in-counted_now start k (r ∷ rows) h = elim (Bool-cases (str_eq r.scope k)) [
  | inl hit ↦ elim (Bool-cases (r.window_started_at_ms == start)) [
    | inl now ↦ rw (hit, now) refl
    | inr past ↦
        rw (hit, past)
          (ap counted_by (both_none (at k) (λ x. x.window_started_at_ms == start) rows (h.0 hit)))
  ]
  | inr miss ↦ rw miss (count_in-counted_now start k rows h.1)
]

-- The row that a counted request leaves.
abbrev pub bumped : ℕ → String → Option HttpRate → HttpRate
bumped start key none = record { scope = key; window_started_at_ms = start; request_count = 1 }
bumped start key (some r) = bump start r

pub find_where-count_request :
    (start : ℕ) (key k : String) (rows : List HttpRate)
    → find_where (at k) (count_request start key rows) ≡ (
        if str_eq key k
        then some (bumped start key (find_where (at key) rows))
        else find_where (at k) rows)
unfolding find_where count_request bump
find_where-count_request start key k [] = refl
find_where-count_request start key k (r ∷ rows) = elim (Bool-cases (str_eq r.scope key)) [
  | inl hit ↦
      let same = (eq_iff r.scope key).0 hit in
      elim (Bool-cases (str_eq key k)) [
        | inl e ↦ let here : str_eq r.scope k ≡ true = rw same e in rw (hit, e, here) refl
        | inr e ↦ let here : str_eq r.scope k ≡ false = rw same e in rw (hit, e, here) refl
      ]
  | inr miss ↦
      let ih = find_where-count_request start key k rows in
      elim (Bool-cases (str_eq r.scope k)) [
        | inl e ↦ rw (miss, e, one_name r.scope key k miss e) refl
        | inr e ↦ rw (miss, e) ih
      ]
]

count_request-none :
    (start : ℕ) (key k : String) (rows : List HttpRate)
    → str_eq key k ≡ false
    → All (λ r. at k r ≡ false) rows
    → All (λ r. at k r ≡ false) (count_request start key rows)
unfolding count_request bump
count_request-none start key k [] apart h = (apart, tt)
count_request-none start key k (r ∷ rows) apart h = elim (Bool-cases (str_eq r.scope key)) [
  | inl hit ↦ rw hit h
  | inr miss ↦ rw miss (h.0, count_request-none start key k rows apart h.1)
]

pub count_request-Single :
    (start : ℕ) (key k : String) (rows : List HttpRate)
    → Single (at k) rows
    → Single (at k) (count_request start key rows)
unfolding count_request bump
count_request-Single start key k [] h = (λ hit. tt, tt)
count_request-Single start key k (r ∷ rows) h = elim (Bool-cases (str_eq r.scope key)) [
  | inl hit ↦ rw hit h
  | inr miss ↦ rw miss (
    λ e. count_request-none start key k rows (one_name r.scope key k miss e) (h.0 e),
    count_request-Single start key k rows h.1,
  )
]
