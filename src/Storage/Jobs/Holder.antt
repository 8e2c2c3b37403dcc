-- ===== src/Storage/Jobs/Holder.antt =====
-- Guarded updates of the row under one identity: `UPDATE jobs SET … WHERE job_id = $1 AND …`, the
-- number of rows that they report, and the rows that a query finds afterwards.
use mathlib.Core.Option
use lobbytally.Base.{
  ℕ, ◌≡◌, ◌≢◌, refl, ◌∙◌, inl, inr, Bool, true, false, ◌&&◌, none, some, List, arith, ==_iff,
  Option-cases,
}
use lobbytally.Table.{
  Distinct, find_where_holds, update_where, update_where_none, count_where, count_where-hits,
  find_where-update_where, Single-of, hits, changed_by,
}
use lobbytally.Storage.Jobs.{JobRecord, has_id, get_job}
use lobbytally.Storage.Jobs.Invariant.{ids}

abbrev pub claims : ℕ → (JobRecord → Bool) → JobRecord → Bool
claims id g r = has_id id r && g r

-- The table with the row under the identity that meets the condition changed by `f`.
abbrev pub updated :
    (JobRecord → JobRecord) → ℕ → (JobRecord → Bool) → List JobRecord → List JobRecord
updated f id g = update_where (claims id g) f

module _ (jobs : List JobRecord) (v : Distinct (ids jobs)) (id : ℕ) (g : JobRecord → Bool) where
  count-claims : count_where (claims id g) jobs ≡ hits g (get_job jobs id)
  unfolding get_job
  count-claims = count_where-hits (has_id id) g jobs (
      Single-of (λ (r : JobRecord). r.job_id) (has_id id) id jobs (λ r h. (==_iff r.job_id id).0 h)
        v)

  found_id : (other : ℕ) (r : JobRecord) → get_job jobs other ≡ some r → has_id other r ≡ true
  unfolding get_job
  found_id other r e = find_where_holds (has_id other) jobs e

  module _ (f : JobRecord → JobRecord) (keeps_id : (r : JobRecord) → (f r).job_id ≡ r.job_id) where
    get_job-updated :
        (other : ℕ)
        → get_job (updated f id g jobs) other
          ≡ Option.map (changed_by (claims id g) f) (get_job jobs other)
    unfolding get_job
    get_job-updated other =
        find_where-update_where (has_id other) (claims id g) f jobs (λ r. rw (keeps_id r))

    -- The guarded update of one row, where the row meets the condition.
    pub updated-met :
        (r : JobRecord)
        → get_job jobs id ≡ some r
        → g r ≡ true
        → (count_where (claims id g) jobs ≡ 1) × (get_job (updated f id g jobs) id ≡ some (f r))
    unfolding get_job
    updated-met r found held =
        let here = find_where_holds (has_id id) jobs found in
        (count-claims ∙ (rw (found, held) refl), get_job-updated id ∙ rw (found, here, held) refl)

    pub updated-unmet :
        (r : JobRecord)
        → get_job jobs id ≡ some r
        → g r ≡ false
        → (count_where (claims id g) jobs ≡ 0) × (updated f id g jobs ≡ jobs)
    updated-unmet r found free =
        let none_held = count-claims ∙ rw (found, free) refl in
        (none_held, update_where_none _ f jobs none_held)

    pub updated_missing : get_job jobs id ≡ none → updated f id g jobs ≡ jobs
    updated_missing absent = update_where_none _ f jobs (count-claims ∙ rw absent refl)

    pub updated-other :
        (other : ℕ) → other ≢ id → get_job (updated f id g jobs) other ≡ get_job jobs other
    updated-other other differs = elim (Option-cases (get_job jobs other)) [
      | inl e ↦ get_job-updated other ∙ rw e refl
      | inr (r, e) ↦ get_job-updated other ∙ rw (e, elsewhere r e) refl
    ]
      where
        elsewhere : (r : JobRecord) → get_job jobs other ≡ some r → has_id id r ≡ false
        elsewhere r e =
            let there = (==_iff r.job_id other).0 (found_id other r e) in ground (arith, differs)
