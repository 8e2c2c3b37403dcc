-- ===== src/Storage/Jobs/Granted.antt =====
-- Which jobs `lease_jobs` hands out, and in which state.
use lobbytally.Base.{
  ℕ, ◌≤◌, ◌≡◌, ◌≢◌, refl, ap, ◌∙◌, ◌⊎◌, String, Bool, true, ◌&&◌, not, Option, some, List, [], ◌∷◌,
  map, arith, length, length-take, All, All-take, All-imp, All-map,
}
use lobbytally.Table.{
  Distinct, map-update_where, select_where, select_where-keeps, select_where-All,
  select_where-Apart, order_by, order_by-All, order_by-Apart, order_by-InOrder, InOrder, take-Apart,
  take-InOrder, find_where,
}
use lobbytally.Storage.Jobs.{JobRecord, get_job}
use lobbytally.Storage.Jobs.Lease.{
  can_lease, lease_row, lease_each, select_due, comes_before, is_due,
}
use lobbytally.Storage.Jobs.Invariant.{ids}
use lobbytally.Storage.Jobs.Holder.{claims, updated, updated-met, updated-other}

-- The rows of these identities are there to be leased.
abbrev pub Claimable : List JobRecord → List JobRecord → Type 0
Claimable jobs = All (λ r. (get_job jobs r.job_id ≡ some r) × (can_lease r ≡ true))

-- What the loop has for its result: each row leased by the owner until the expiry.
abbrev pub granted : String → ℕ → List JobRecord → List JobRecord
granted owner expires = map (lease_row owner expires)

pub Claimable-updated :
    (f : JobRecord → JobRecord) (keeps : (r : JobRecord) → (f r).job_id ≡ r.job_id)
    (jobs : List JobRecord) (id : ℕ) (rs : List JobRecord)
    → Distinct (ids jobs)
    → All (λ j. j ≢ id) (ids rs)
    → Claimable jobs rs
    → Claimable (updated f id can_lease jobs) rs
Claimable-updated f keeps jobs id [] d away c = tt
Claimable-updated f keeps jobs id (r ∷ rs) d away c = (
  (updated-other jobs d id can_lease f keeps r.job_id away.0 ∙ c.0.0, c.0.1),
  Claimable-updated f keeps jobs id rs d away.1 c.1,
)

-- The loop leases every row that it is given, in their order.
pub lease_each-granted :
    (owner : String) (expires : ℕ) (rs jobs : List JobRecord)
    → Distinct (ids jobs)
    → Distinct (ids rs)
    → Claimable jobs rs
    → (lease_each owner expires (ids rs) jobs).0 ≡ granted owner expires rs
unfolding lease_each
lease_each-granted owner expires [] jobs d u c = refl
lease_each-granted owner expires (r ∷ rs) jobs d u c =
    let f = lease_row owner expires in
    let keeps : (s : JobRecord) → (f s).job_id ≡ s.job_id = λ s. unfold lease_row in refl in
    let (changed, there) = updated-met jobs d r.job_id can_lease f keeps r c.0.0 c.0.1 in
    let jobs' = updated f r.job_id can_lease jobs in
    let d' : Distinct (ids jobs') =
      rw (map-update_where (λ (s : JobRecord). s.job_id) (claims r.job_id can_lease) f jobs keeps)
        d in
    rw (changed, there)
      (ap (◌∷◌ (f r)) (
        lease_each-granted owner expires rs jobs' d' u.1
          (Claimable-updated f keeps jobs r.job_id rs d u.0 c.1)))

found_behind :
    (x : JobRecord) (rs xs : List JobRecord)
    → All (λ j. j ≢ x.job_id) (ids rs)
    → All (λ r. get_job xs r.job_id ≡ some r) rs
    → All (λ r. get_job (x ∷ xs) r.job_id ≡ some r) rs
unfolding get_job find_where
found_behind x [] xs away h = tt
found_behind x (r ∷ rs) xs away h = (ground (arith, away.0), found_behind x rs xs away.1 h.1)

-- Where identities are unique, every row is the one that its identity finds.
found_self :
    (jobs : List JobRecord) → Distinct (ids jobs) → All (λ r. get_job jobs r.job_id ≡ some r) jobs
unfolding get_job find_where
found_self [] d = tt
found_self (x ∷ xs) d = (ground arith, found_behind x xs xs d.0 (found_self xs d.1))

due_claimable :
    (now : ℕ) (source : Option String) (locked : ℕ → Bool) (r : JobRecord)
    → (is_due now source r && not (locked r.job_id)) ≡ true
    → can_lease r ≡ true
unfolding is_due can_lease
due_claimable now source locked r h = ground arith

module _ (locked : ℕ → Bool) (now : ℕ) (source : Option String) (limit : ℕ)
    (jobs : List JobRecord) where
  abbrev pub picks : JobRecord → Bool
  picks r = is_due now source r && not (locked r.job_id)

  pub select_due-Claimable :
      Distinct (ids jobs) → Claimable jobs (select_due locked now source limit jobs)
  unfolding select_due
  select_due-Claimable d =
      All-imp (select_due locked now source limit jobs)
        (λ r h. (h.0, due_claimable now source locked r h.1))
        (All-take _ limit _
          (order_by-All comes_before _ _ (select_where-keeps _ picks jobs (found_self jobs d))))

  pub select_due-Distinct :
      Distinct (ids jobs) → Distinct (ids (select_due locked now source limit jobs))
  unfolding select_due
  select_due-Distinct d =
      let key = λ (r : JobRecord). r.job_id in
      take-Apart key limit _
        (order_by-Apart key comes_before _ (select_where-Apart key picks jobs d))

  pub length-select_due : length (select_due locked now source limit jobs) ≤ limit
  unfolding select_due
  length-select_due =
      omega (arith, length-take limit (order_by comes_before (select_where picks jobs)))

comes_before_total : (a b : JobRecord) → (comes_before a b ≡ true) ⊎ (comes_before b a ≡ true)
unfolding comes_before
comes_before_total a b = ground arith

comes_before_trans :
    (a b c : JobRecord)
    → comes_before a b ≡ true
    → comes_before b c ≡ true
    → comes_before a c ≡ true
unfolding comes_before
comes_before_trans a b c h k = ground arith

pub InOrder-granted :
    (owner : String) (expires : ℕ) (rs : List JobRecord)
    → InOrder comes_before rs
    → InOrder comes_before (granted owner expires rs)
unfolding comes_before lease_row
InOrder-granted owner expires [] s = tt
InOrder-granted owner expires (r ∷ rs) s = (
  All-map (λ q. comes_before (lease_row owner expires r) q ≡ true) (lease_row owner expires) rs s.0,
  InOrder-granted owner expires rs s.1,
)

pub select_due-InOrder :
    (locked : ℕ → Bool) (now : ℕ) (source : Option String) (limit : ℕ) (jobs : List JobRecord)
    → InOrder comes_before (select_due locked now source limit jobs)
unfolding select_due
select_due-InOrder locked now source limit jobs =
    take-InOrder comes_before limit _
      (order_by-InOrder comes_before comes_before_total comes_before_trans _)

pub select_due-picks :
    (locked : ℕ → Bool) (now : ℕ) (source : Option String) (limit : ℕ) (jobs : List JobRecord)
    → All
        (λ r. (is_due now source r && not (locked r.job_id)) ≡ true)
        (select_due locked now source limit jobs)
unfolding select_due
select_due-picks locked now source limit jobs =
    All-take _ limit _ (order_by-All comes_before _ _ (select_where-All _ _ jobs (λ r h. h)))
