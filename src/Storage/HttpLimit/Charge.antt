-- ===== src/Storage/HttpLimit/Charge.antt =====
-- What the transaction of `consume_http_limit` in crates/storage/src/shared_limits.rs does to the count
-- of one scope.
use lobbytally.Base.{
  has_name, ℕ, ◌+◌, ◌<◌, ◌≡◌, refl, ap, ◌∙◌, inl, inr, String, str_eq, eq_iff, Bool, true, false,
  ◌&&◌, Option, none, some, List, [], ◌∷◌, leb, ◌==◌, if◌then◌else◌, Bool-cases, arith, subst,
  Option-cases, Counter, Stepped, counted, kept, forgotten,
}
use lobbytally.Table.{delete_where, find_where, Single}
use lobbytally.Storage.HttpLimit.{
  HttpRate, counted_by, count_in, is_exhausted, count_request, count_all, is_old, charge, bump,
}
use lobbytally.Storage.HttpLimit.Rows.{
  at, kept_if, delete_where-Single, find_where-delete_where, counted_now, count_in-counted_now,
  bumped, find_where-count_request, count_request-Single,
}

abbrev pub scopes : List (String × ℕ) → List String
scopes [] = []
scopes ((key, limit) ∷ budgets) = key ∷ scopes budgets

-- No scope stands twice.
abbrev pub Apart : List String → Type 0
Apart [] = Unit
Apart (k ∷ ks) = (has_name ks k ≡ false) × Apart ks

find_where-count_all_other :
    (start : ℕ) (k : String) (budgets : List (String × ℕ)) (rows : List HttpRate)
    → has_name (scopes budgets) k ≡ false
    → find_where (at k) (count_all start budgets rows) ≡ find_where (at k) rows
unfolding count_all has_name
find_where-count_all_other start k [] rows h = refl
find_where-count_all_other start k ((key, limit) ∷ budgets) rows h =
    elim (Bool-cases (str_eq key k)) [
      | inl e ↦ let clash : true ≡ false = rw e at h in cc
      | inr e ↦
          let later : has_name (scopes budgets) k ≡ false = rw e at h in
          find_where-count_all_other start k budgets (count_request start key rows) later
          ∙ rw (find_where-count_request start key k rows, e) refl
    ]

pub find_where-count_all :
    (start : ℕ) (k : String) (budgets : List (String × ℕ)) (rows : List HttpRate)
    → Apart (scopes budgets)
    → find_where (at k) (count_all start budgets rows) ≡ (
        if has_name (scopes budgets) k
        then some (bumped start k (find_where (at k) rows))
        else find_where (at k) rows)
unfolding count_all has_name
find_where-count_all start k [] rows h = refl
find_where-count_all start k ((key, limit) ∷ budgets) rows h = elim (Bool-cases (str_eq key k)) [
  | inl e ↦
      let same = (eq_iff key k).0 e in
      let once : has_name (scopes budgets) k ≡ false =
        subst (λ v. has_name (scopes budgets) v ≡ false) same h.0 in
      rw e (
        find_where-count_all_other start k budgets (count_request start key rows) once
        ∙ rw (find_where-count_request start key k rows, e) (rw same refl))
  | inr e ↦ rw e (
      find_where-count_all start k budgets (count_request start key rows) h.1
      ∙ rw (find_where-count_request start key k rows, e) refl)
]

pub count_all-Single :
    (start : ℕ) (k : String) (budgets : List (String × ℕ)) (rows : List HttpRate)
    → Single (at k) rows
    → Single (at k) (count_all start budgets rows)
unfolding count_all
count_all-Single start k [] rows h = h
count_all-Single start k ((key, limit) ∷ budgets) rows h =
    count_all-Single start k budgets (count_request start key rows)
      (count_request-Single start key k rows h)

-- Every budget has room.
abbrev pub HaveRoom : ℕ → List HttpRate → List (String × ℕ) → Type 0
HaveRoom start rows [] = Unit
HaveRoom start rows ((key, limit) ∷ budgets) =
    (count_in start key rows < limit) × HaveRoom start rows budgets

is_exhausted-HaveRoom :
    (start : ℕ) (budgets : List (String × ℕ)) (rows : List HttpRate)
    → is_exhausted start budgets rows ≡ false
    → HaveRoom start rows budgets
unfolding is_exhausted
is_exhausted-HaveRoom start [] rows h = tt
is_exhausted-HaveRoom start ((key, limit) ∷ budgets) rows h =
    elim (Bool-cases (leb limit (count_in start key rows))) [
      | inl e ↦ let clash : true ≡ false = rw e at h in cc
      | inr e ↦
          let later : is_exhausted start budgets rows ≡ false = rw e at h in
          (ground arith, is_exhausted-HaveRoom start budgets rows later)
    ]

abbrev pub window_in : Option HttpRate → ℕ
window_in none = 0
window_in (some r) = r.window_started_at_ms

-- The counter of a scope: the window and the count of its row.
abbrev pub scope_counter :
    {E : Type 0} → String → ℕ → (E → ℕ) → (E → Bool) → Counter E (List HttpRate)
scope_counter k limit window_of wanted = record {
  window_of = window_of;
  counts = wanted;
  window = λ rows. window_in (find_where (at k) rows);
  count = λ rows. counted_by (find_where (at k) rows);
  limit = limit;
}

module _ {E : Type 0} (k : String) (limit : ℕ) (window_of : E → ℕ) (wanted : E → Bool) (e : E)
    (rows : List HttpRate) where
  abbrev After : Bool → List HttpRate → Type 0
  After admitted rows' = Stepped (scope_counter k limit window_of wanted) e rows admitted rows'

  -- A call that does not count the scope leaves its row, or forgets it when it is old.
  uncounted :
      (now : ℕ) (admitted : Bool) (rows' : List HttpRate)
      → find_where (at k) rows' ≡ kept_if (is_old now) (find_where (at k) rows)
      → now < window_of e + 7200000
      → (admitted && wanted e) ≡ false
      → After admitted rows'
  uncounted now admitted rows' found recent refused = elim (Option-cases (find_where (at k) rows)) [
    | inl absent ↦
        let still : find_where (at k) rows' ≡ none = found ∙ rw absent refl in
        kept (rw (still, absent) refl) (rw (still, absent) refl) refused
    | inr (r, present) ↦ elim (Bool-cases (is_old now r)) [
      | inl old ↦
          let gone : find_where (at k) rows' ≡ none = found ∙ rw present (rw old refl) in
          forgotten (rw present (ground arith)) (rw gone refl) (rw gone refl) refused
      | inr fresh ↦
          let still : find_where (at k) rows' ≡ some r = found ∙ rw present (rw fresh refl) in
          kept (rw (still, present) refl) (rw (still, present) refl) refused
    ]
  ]

  -- The row that a counted call leaves.
  one_more :
      (now : ℕ) (f : Option HttpRate)
      → now < window_of e + 7200000
      → (window_in (some (bumped (window_of e) k (kept_if (is_old now) f))) ≡ window_of e)
        × (counted_by (some (bumped (window_of e) k (kept_if (is_old now) f)))
            ≡ (if window_in f == window_of e then counted_by f else 0) + 1)
        × (counted_by (some (bumped (window_of e) k (kept_if (is_old now) f)))
            ≡ counted_now (window_of e) (kept_if (is_old now) f) + 1)
  unfolding bump
  one_more now none recent = (refl, ground arith, refl)
  one_more now (some r) recent = elim (Bool-cases (is_old now r)) [
    | inl old ↦ rw old (refl, ground arith, refl)
    | inr fresh ↦ rw fresh (refl, ground arith, ground arith)
  ]

  pub charge-Stepped :
      (now : ℕ) (budgets : List (String × ℕ))
      → Single (at k) rows
      → Apart (scopes budgets)
      → now < window_of e + 7200000
      → (wanted e ≡ true → has_name (scopes budgets) k ≡ true)
      → ((live : List HttpRate)
          → wanted e ≡ true
          → HaveRoom (window_of e) live budgets
          → count_in (window_of e) k live < limit)
      → After (charge (window_of e) now budgets rows).0 (charge (window_of e) now budgets rows).1
  unfolding charge
  charge-Stepped now budgets single apart recent listed room =
      let live = delete_where (is_old now) rows in
      let found = find_where-delete_where (is_old now) (at k) rows single in
      let all = find_where-count_all (window_of e) k budgets live apart in
      elim (Bool-cases (is_exhausted (window_of e) budgets live)) [
        | inl full ↦ rw full (uncounted now false live found recent refl)
        | inr free ↦ rw free (elim (Bool-cases (has_name (scopes budgets) k)) [
          | inl here ↦
              let row = bumped (window_of e) k (find_where (at k) live) in
              let left : find_where (at k) (count_all (window_of e) budgets live) ≡ some row =
                all ∙ rw here refl in
              let (w, c, d) = one_more now (find_where (at k) rows) recent in
              let now_row : find_where (at k) (count_all (window_of e) budgets live)
                  ≡ some (bumped (window_of e) k (kept_if (is_old now) (find_where (at k) rows))) =
                left ∙ ap (λ o. some (bumped (window_of e) k o)) found in
              counted (rw now_row w) (rw now_row c) (λ want.
                let before =
                  count_in-counted_now (window_of e) k live
                    (delete_where-Single (is_old now) (at k) rows single)
                  ∙ ap (counted_now (window_of e)) found in
                let space =
                  room live want (is_exhausted-HaveRoom (window_of e) budgets live free) in
                rw now_row (omega (arith, d, before, space)))
          | inr away ↦
              let left : find_where (at k) (count_all (window_of e) budgets live)
                  ≡ find_where (at k) live =
                all ∙ rw away refl in
              uncounted now true (count_all (window_of e) budgets live) (left ∙ found) recent
                (elim (Bool-cases (wanted e)) [
                  | inl w ↦ let here : has_name (scopes budgets) k ≡ true = listed w in cc
                  | inr w ↦ w
                ])
        ])
      ]
