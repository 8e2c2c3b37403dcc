-- ===== src/Storage/AiLease/Concurrency.antt =====
-- How many calls to AI providers run at once.
use lobbytally.Base.{
  ℕ, ◌≤◌, ◌<◌, ◌≡◌, refl, String, str_eq, Bool, true, false, ◌||◌, inl, inr, Option, none, some,
  List, [], ◌∷◌, ◌++◌, arith, length, length-append, Bool-cases, leb, sym, eq_iff, if◌then◌else◌,
}
use lobbytally.Table.{count_where, count_where-append, delete_where, length-delete_where}
use lobbytally.Storage.{Result, StorageError, ok, err, ◌>>◌, refuse_if}
use lobbytally.Storage.AiLease.{AiLease, is_over, in_scope, acquire_ai_lease, release_ai_lease}

-- A call of an instance of the server, at a time.
pub data AiCall : Type 0 where
  acquires : String → String → ℕ → ℕ → AiCall
  releases : String → AiCall

abbrev rows : Result (Option String × List AiLease) → List AiLease → List AiLease
rows (ok (answer, leases')) leases = leases'
rows (err e) leases = leases

-- The table after calls that all use the same limits.
unfoldable pub leases_after : ℕ → ℕ → List AiCall → List AiLease → List AiLease
leases_after scope_limit global_limit [] leases = leases
leases_after scope_limit global_limit (acquires random scope ttl_seconds now ∷ calls) leases =
    leases_after scope_limit global_limit calls
      (rows (acquire_ai_lease random scope scope_limit global_limit ttl_seconds now leases) leases)
leases_after scope_limit global_limit (releases lease_id ∷ calls) leases =
    leases_after scope_limit global_limit calls (release_ai_lease lease_id leases)

module _ (d : AiLease → Bool) where
  count_where-delete_where :
      (p : AiLease → Bool) (rs : List AiLease)
      → count_where p (delete_where d rs) ≤ count_where p rs
  unfolding delete_where count_where
  count_where-delete_where p [] = omega arith
  count_where-delete_where p (r ∷ rs) = ground (arith, count_where-delete_where p rs)

-- The table keeps to the limits.
pub record IsAdmitted (scope_limit global_limit : ℕ) (leases : List AiLease) : Type 0 where
  pub all : length leases ≤ global_limit
  pub each : (scope : String) → count_where (in_scope scope) leases ≤ scope_limit

module _ (scope_limit global_limit : ℕ) where
  delete_where-IsAdmitted :
      (d : AiLease → Bool) (leases : List AiLease)
      → IsAdmitted scope_limit global_limit leases
      → IsAdmitted scope_limit global_limit (delete_where d leases)
  delete_where-IsAdmitted d leases h = record {
    all = omega (arith, h.all, length-delete_where d leases);
    each = λ scope. omega (arith, h.each scope, count_where-delete_where d (in_scope scope) leases);
  }

  append-IsAdmitted :
      (row : AiLease) (live : List AiLease)
      → IsAdmitted scope_limit global_limit live
      → length live < global_limit
      → count_where (in_scope row.scope) live < scope_limit
      → IsAdmitted scope_limit global_limit (live ++ row ∷ [])
  unfolding count_where
  append-IsAdmitted row live h free room = record {
    all = omega (arith, free, length-append live (row ∷ []));
    each = λ scope. one_more scope;
  }
    where
      one_more : (scope : String) → count_where (in_scope scope) (live ++ row ∷ []) ≤ scope_limit
      one_more scope = elim (Bool-cases (str_eq row.scope scope)) [
        | inl e ↦
            let same = (eq_iff row.scope scope).0 e in
            let one : count_where (in_scope scope) (row ∷ []) ≡ 1 = rw e (omega arith) in
            let here : count_where (in_scope scope) live < scope_limit = rw (sym same) room in
            omega (arith, count_where-append (in_scope scope) live (row ∷ []), one, here)
        | inr e ↦
            let none_more : count_where (in_scope scope) (row ∷ []) ≡ 0 = rw e (omega arith) in
            omega
              (arith, count_where-append (in_scope scope) live (row ∷ []), none_more, h.each scope)
      ]

  rows-answer :
      (P : List AiLease → Type 0) (bad full : Bool) (e : StorageError) (id : String)
      (leases live more : List AiLease)
      → P leases
      → P live
      → (full ≡ false → P more)
      → P (rows (refuse_if bad e >> ok (if full then (none, live) else (some id, more))) leases)
  rows-answer P true full e id leases live more a b c = a
  rows-answer P false true e id leases live more a b c = b
  rows-answer P false false e id leases live more a b c = c refl

  both_free : (a b c d : ℕ) → (leb a b || leb c d) ≡ false → (b < a) × (d < c)
  both_free a b c d e = (ground arith, ground arith)

  acquire-IsAdmitted :
      (random scope : String) (ttl_seconds now : ℕ) (leases : List AiLease)
      → IsAdmitted scope_limit global_limit leases
      → IsAdmitted scope_limit global_limit (
          rows
            (acquire_ai_lease random scope scope_limit global_limit ttl_seconds now leases)
            leases)
  unfolding acquire_ai_lease
  acquire-IsAdmitted random scope ttl_seconds now leases h =
      let live = delete_where (is_over now) leases in
      let kept = delete_where-IsAdmitted (is_over now) leases h in
      rows-answer (IsAdmitted scope_limit global_limit) _ _ _ random leases live _ h kept (λ e.
        let (free, room) =
          both_free global_limit (length live) scope_limit (count_where (in_scope scope) live) e in
        append-IsAdmitted _ live kept free room)

  -- However many instances acquire and release leases under the same limits, the table never has
  -- more leases than the global limit, nor more of one scope than the limit of a scope.
  pub leases_after-IsAdmitted :
      (calls : List AiCall) (leases : List AiLease)
      → IsAdmitted scope_limit global_limit leases
      → IsAdmitted scope_limit global_limit (leases_after scope_limit global_limit calls leases)
  unfolding leases_after release_ai_lease
  leases_after-IsAdmitted [] leases h = h
  leases_after-IsAdmitted (acquires random scope ttl_seconds now ∷ calls) leases h =
      leases_after-IsAdmitted calls _ (acquire-IsAdmitted random scope ttl_seconds now leases h)
  leases_after-IsAdmitted (releases lease_id ∷ calls) leases h =
      leases_after-IsAdmitted calls _ (delete_where-IsAdmitted _ leases h)
