-- ===== src/Storage/SourceRuns/Running.antt =====
-- Which runs of crates/storage/src/source_state.rs are running.
use lobbytally.Base.{
  ℕ, ◌≤◌, ◌≡◌, refl, sym, ◌∙◌, inl, inr, String, str_eq, eq_iff, Bool, true, false, ◌&&◌, none,
  some, List, [], ◌∷◌, ◌++◌, if◌then◌else◌, Bool-cases, arith,
}
use lobbytally.Table.{update_where, count_where, count_where-append}
use lobbytally.Storage.SourceRuns.{
  RunStatus, running, succeeded, failed, partial, SourceRun, is_running, is_active, supersede,
  final_status,
}

module _ {A : Type 0} (p q : A → Bool) (f : A → A) where
  count_where-update_where :
      (xs : List A)
      → ((x : A) → p x ≡ false → p (f x) ≡ false)
      → count_where p (update_where q f xs) ≤ count_where p xs
  unfolding count_where update_where
  count_where-update_where [] keep = omega arith
  count_where-update_where (x ∷ xs) keep =
      let ih = count_where-update_where xs keep in
      elim (Bool-cases (q x)) [
        | inr e ↦ rw e (omega (arith, ih))
        | inl e ↦ elim (Bool-cases (p x)) [
          | inl h ↦ rw (e, h) (ground (arith, ih))
          | inr h ↦ let off = keep x h in rw (e, h, off) (omega (arith, ih))
        ]
      ]

pub count_where-update_where_self :
    {A : Type 0} (p : A → Bool) (f : A → A) (xs : List A)
    → ((x : A) → p (f x) ≡ false)
    → count_where p (update_where p f xs) ≡ 0
unfolding count_where update_where
count_where-update_where_self p f [] off = refl
count_where-update_where_self p f (x ∷ xs) off =
    let ih = count_where-update_where_self p f xs off in
    elim (Bool-cases (p x)) [
      | inl e ↦ let gone = off x in rw (e, gone) (omega (arith, ih))
      | inr e ↦ rw (e, e) (omega (arith, ih))
    ]

pub and_false : (b : Bool) → (b && false) ≡ false
and_false true = refl
and_false false = refl

pub final_status_ended :
    (text : String) (status : RunStatus)
    → final_status text ≡ some status
    → is_running status ≡ false
unfolding final_status
final_status_ended text running h =
    absurd (never (str_eq text "succeeded") (str_eq text "failed") (str_eq text "partial") h)
  where
    never :
        (a b c : Bool)
        → (if a
            then some succeeded
            else if b
            then some failed
            else if c
            then some partial
            else none)
          ≡ some running
        → ⊥
    never true b c e = cc
    never false true c e = cc
    never false false true e = cc
    never false false false e = cc
final_status_ended text succeeded h = refl
final_status_ended text failed h = refl
final_status_ended text partial h = refl

-- Each task of a source has at most one run that is running.
unfoldable pub AtMostOne : List SourceRun → Type 0
AtMostOne runs = (source task_type : String) → count_where (is_active source task_type) runs ≤ 1

pub change-AtMostOne :
    (q : SourceRun → Bool) (f : SourceRun → SourceRun) (runs : List SourceRun)
    → ((source task_type : String) (r : SourceRun)
        → is_active source task_type r ≡ false
        → is_active source task_type (f r) ≡ false)
    → AtMostOne runs
    → AtMostOne (update_where q f runs)
unfolding AtMostOne
change-AtMostOne q f runs keep one source task_type = omega (
  arith,
  one source task_type,
  count_where-update_where (is_active source task_type) q f runs (keep source task_type),
)

-- An insertion after its task was superseded.
pub insert-AtMostOne :
    (source task_type : String) (now : ℕ) (row : SourceRun) (runs : List SourceRun)
    → row.source ≡ source
    → row.task_type ≡ task_type
    → AtMostOne runs
    → AtMostOne (update_where (is_active source task_type) (supersede now) runs ++ row ∷ [])
unfolding AtMostOne supersede count_where
insert-AtMostOne source task_type now row runs same_source same_task one s t =
    let mine = is_active source task_type in
    let old = update_where mine (supersede now) runs in
    let sum = count_where-append (is_active s t) old (row ∷ []) in
    let fewer =
      count_where-update_where (is_active s t) mine (supersede now) runs
        (λ (r : SourceRun) h. and_false (str_eq r.source s && str_eq r.task_type t)) in
    let before = one s t in
    elim (Bool-cases (str_eq row.source s && str_eq row.task_type t)) [
      | inr other ↦
          let none_new : count_where (is_active s t) (row ∷ []) ≡ 0 = rw other (omega arith) in
          omega (arith, sum, fewer, before, none_new)
      | inl here ↦
          let (here_source, here_task) =
            both_true (str_eq row.source s) (str_eq row.task_type t) here in
          let s_same : source ≡ s = sym same_source ∙ (eq_iff row.source s).0 here_source in
          let t_same : task_type ≡ t = sym same_task ∙ (eq_iff row.task_type t).0 here_task in
          let gone : count_where (is_active source task_type) old ≡ 0 =
            count_where-update_where_self mine (supersede now) runs (λ (r : SourceRun).
              and_false (str_eq r.source source && str_eq r.task_type task_type)) in
          let gone' : count_where (is_active s t) old ≡ 0 = rw⁻¹ (s_same, t_same) gone in
          let one_new : count_where (is_active s t) (row ∷ []) ≤ 1 = ground arith in
          omega (arith, sum, gone', one_new)
    ]
  where
    both_true : (a b : Bool) → (a && b) ≡ true → (a ≡ true) × (b ≡ true)
    both_true true true h = (refl, refl)
    both_true true false h = cc
    both_true false b h = cc
