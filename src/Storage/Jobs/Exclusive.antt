-- ===== src/Storage/Jobs/Exclusive.antt =====
-- Who may change a job: nobody a job that has ended, and only its holder a job under a live lease.
use lobbytally.Base.{
  ℕ, ◌≡◌, ◌≢◌, refl, ap, ◌∙◌, sym, ◌⊎◌, String, Bool, true, false, Option, none, some, List, [],
  ◌∷◌, arith, subst, eq_iff,
}
use lobbytally.Table.{Star, Star-keeps, Rows-find_where, find_where, find_where-append}
use lobbytally.Storage.Jobs.{
  JobRecord, JobStatus, completed, failed, dead, has_id, is_text, get_job, is_held_by,
}
use lobbytally.Storage.Jobs.Lease.{is_expired, is_spent, can_lease}
use lobbytally.Storage.Jobs.Calls.{Call, caller, after}
use lobbytally.Storage.Jobs.Lifecycle.{
  Transition, expire, bury, recycle, acquire, give_back, finish, give_up,
}
use lobbytally.Storage.Jobs.Growth.{Grows, moves_only, adds, after-Grows}
use lobbytally.Storage.Jobs.Invariant.{Transition-SameJob}

module _ (actor : Option String) (now : ℕ) where
  has_id_kept :
      (id : ℕ) (b : Bool) (r s : JobRecord)
      → Transition actor now r s
      → has_id id r ≡ b
      → has_id id s ≡ b
  has_id_kept id b r s t h = rw ((Transition-SameJob actor now r s t).job_id) h

  -- A row with no step to take stays where it is.
  stuck :
      (r : JobRecord)
      → ((s : JobRecord) → ¬ Transition actor now r s)
      → {s : JobRecord} → Star (Transition actor now) r s
      → s ≡ r
  stuck r no_step star =
      Star-keeps (Transition actor now) (λ x. x ≡ r)
        (λ x y t e. absurd (no_step y (subst (λ z. Transition actor now z y) e t))) star refl

get_job-after :
    (is_json : String → Bool) (now : ℕ) (call : Call) (jobs : List JobRecord) (id : ℕ)
    (r : JobRecord)
    → ((s : JobRecord) → ¬ Transition (caller call) now r s)
    → get_job jobs id ≡ some r
    → get_job (after is_json now call jobs) id ≡ some r
unfolding get_job
get_job-after is_json now call jobs id r no_step found = go (after-Grows is_json now call jobs)
  where
    go : {t : List JobRecord} → Grows is_json now call jobs t → find_where (has_id id) t ≡ some r
    go {t} (moves_only m) =
        let (s, there, star) =
          Rows-find_where _ (has_id id) (has_id_kept (caller call) now id true)
            (has_id_kept (caller call) now id false) jobs t m found in
        let same : s ≡ r = stuck (caller call) now r no_step star in cc
    go {t} (adds row n e) = rw e (find_where-append (has_id id) jobs (row ∷ []) found)

abbrev pub IsEnded : JobStatus → Type 0
IsEnded status = (status ≡ completed) ⊎ (status ≡ failed) ⊎ (status ≡ dead)

ended_stuck :
    (actor : Option String) (now : ℕ) (r : JobRecord)
    → IsEnded r.status
    → (s : JobRecord) → ¬ Transition actor now r s
unfolding is_expired is_spent can_lease is_held_by
ended_stuck actor now r ended s (expire h e) = ground arith
ended_stuck actor now r ended s (bury h e) = ground arith
ended_stuck actor now r ended s (recycle h e) = ground arith
ended_stuck actor now r ended s (acquire owner expires a h e) = ground arith
ended_stuck actor now r ended s (give_back owner due a h e) = ground arith
ended_stuck actor now r ended s (finish owner key a h e) = ground arith
ended_stuck actor now r ended s (give_up owner category permanent due a h e) = ground arith

-- A job that is completed, failed or dead is never touched again: after any call it is found
-- under its identity exactly as it was.
pub get_job-after_ended :
    (is_json : String → Bool) (now : ℕ) (call : Call) (jobs : List JobRecord) (id : ℕ)
    (r : JobRecord)
    → IsEnded r.status
    → get_job jobs id ≡ some r
    → get_job (after is_json now call jobs) id ≡ some r
get_job-after_ended is_json now call jobs id r ended =
    get_job-after is_json now call jobs id r (ended_stuck (caller call) now r ended)

one_text : (s t : String) (o : Option String) → is_text s o ≡ true → is_text t o ≡ true → s ≡ t
one_text s t none h k = cc
one_text s t (some u) h k = sym ((eq_iff u s).0 h) ∙ (eq_iff u t).0 k

one_holder :
    (s t : String) (now : ℕ) (r : JobRecord)
    → is_held_by s now r ≡ true
    → is_held_by t now r ≡ true
    → s ≡ t
unfolding is_held_by
one_holder s t now r h k = one_text s t r.lease_owner (ground arith) (ground arith)

held_stuck :
    (actor : Option String) (owner : String) (now : ℕ) (r : JobRecord)
    → is_held_by owner now r ≡ true
    → actor ≢ some owner
    → (s : JobRecord) → ¬ Transition actor now r s
unfolding is_expired is_spent can_lease is_held_by
held_stuck actor owner now r held other s (expire h e) = ground arith
held_stuck actor owner now r held other s (bury h e) = ground arith
held_stuck actor owner now r held other s (recycle h e) = ground arith
held_stuck actor owner now r held other s (acquire o expires a h e) = ground arith
held_stuck actor owner now r held other s (give_back o due a h e) =
    other (a ∙ ap some (one_holder o owner now r h held))
held_stuck actor owner now r held other s (finish o key a h e) =
    other (a ∙ ap some (one_holder o owner now r h held))
held_stuck actor owner now r held other s (give_up o category permanent due a h e) =
    other (a ∙ ap some (one_holder o owner now r h held))

-- While a worker holds a live lease on a job, no call by anybody else changes the job: it is not
-- leased again, recovered, completed, failed or given back.
pub get_job-after_held :
    (is_json : String → Bool) (now : ℕ) (call : Call) (jobs : List JobRecord) (id : ℕ)
    (r : JobRecord) (owner : String)
    → is_held_by owner now r ≡ true
    → caller call ≢ some owner
    → get_job jobs id ≡ some r
    → get_job (after is_json now call jobs) id ≡ some r
get_job-after_held is_json now call jobs id r owner held other =
    get_job-after is_json now call jobs id r (held_stuck (caller call) owner now r held other)
