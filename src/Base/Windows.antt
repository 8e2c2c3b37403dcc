-- ===== src/Base/Windows.antt =====
-- Counters that start anew in each window of time, as rate limits keep them, and what they admit.
use Prim.Native.Nat.{ℕ, ◌+◌, ◌≤◌, ◌<◌, max}
use mathlib.Core.Path.{◌≡◌, refl, subst}
use mathlib.Core.Bool.{Bool, true, false, ◌&&◌}
use mathlib.Core.List.{List, [], ◌∷◌}
use native.Mathlib.Omega.{arith}
use lobbytally.Base.Tests.{◌==◌, if◌then◌else◌}
use lobbytally.Base.Lists.{length}

-- Events whose times, or windows, never go back, from a first one on.
abbrev pub Ascending : {E : Type 0} → (E → ℕ) → ℕ → List E → Type 0
Ascending time low [] = Unit
Ascending time low (e ∷ es) = (low ≤ time e) × Ascending time (time e) es

pub Ascending-mono :
    {E : Type 0} (time : E → ℕ) (window_of : ℕ → ℕ)
    → ((a b : ℕ) → a ≤ b → window_of a ≤ window_of b)
    → (low : ℕ) (es : List E) → Ascending time low es
    → Ascending (λ e. window_of (time e)) (window_of low) es
Ascending-mono time window_of mono low [] up = tt
Ascending-mono time window_of mono low (e ∷ es) up =
    (mono low (time e) up.0, Ascending-mono time window_of mono (time e) es up.1)

-- A counter of a state: the window of an event, whether it is to be counted, the window and the count
-- that the state holds, and the greatest count that is admitted.
pub record Counter (E S : Type 0) : Type 0 where
  pub window_of : E → ℕ
  pub counts : E → Bool
  pub window : S → ℕ
  pub count : S → ℕ
  pub limit : ℕ

module _ {E S : Type 0} where
  abbrev pub used : Counter E S → ℕ → S → ℕ
  used c w s = if c.window s == w then c.count s else 0

  -- How many of the events that are to be counted are admitted in a window.
  unfoldable pub admitted_in : (E → S → Bool × S) → (E → Bool) → (E → ℕ) → ℕ → List E → S → ℕ
  admitted_in step counts window_of w [] s = 0
  admitted_in step counts window_of w (e ∷ es) s =
      let (admitted, s') = step e s in
      let later = admitted_in step counts window_of w es s' in
      (if admitted && counts e && (window_of e == w) then 1 else 0) + later

  -- A step counts the event in its window, leaves the counter alone, or forgets a window that has passed.
  pub data Stepped (c : Counter E S) (e : E) (s : S) (admitted : Bool) (s' : S) : Type 0 where
    counted :
        c.window s' ≡ c.window_of e
        → c.count s' ≡ used c (c.window_of e) s + 1
        → ((admitted && c.counts e) ≡ true → c.count s' ≤ c.limit)
        → Stepped c e s admitted s'
    kept :
        c.window s' ≡ c.window s
        → c.count s' ≡ c.count s
        → (admitted && c.counts e) ≡ false
        → Stepped c e s admitted s'
    forgotten :
        c.window s < c.window_of e
        → c.window s' ≡ 0
        → c.count s' ≡ 0
        → (admitted && c.counts e) ≡ false
        → Stepped c e s admitted s'

-- The numbers of a step that counts.
counting :
    (wanted : Bool) (limit at w window count later count' : ℕ)
    → count' ≡ (if window == at then count else 0) + 1
    → (wanted ≡ true → count' ≤ limit)
    → window ≤ at
    → (w < at → later ≡ 0)
    → later + (if at == w then count' else 0) ≤ max limit (if at == w then count' else 0)
    → (if wanted && (at == w) then 1 else 0) + later + (if window == w then count else 0)
      ≤ max limit (if window == w then count else 0)
counting true limit at w window count later count' e capped old gone ih =
    let cap = capped refl in ground arith
counting false limit at w window count later count' e capped old gone ih = ground arith

module _ {E S : Type 0} (step : E → S → Bool × S) (c : Counter E S) (bound : ℕ) (Good : S → Type 0)
    (keeps : (e : E) (s : S) → Good s → Good (step e s).1)
    (steps : (e : E) (s : S)
      → Good s
      → c.window s ≤ c.window_of e
      → c.count s < bound
      → Stepped c e s (step e s).0 (step e s).1) where
  -- A window that has passed admits nothing more.
  passed :
      (w low : ℕ) (es : List E) (s : S)
      → Ascending c.window_of low es
      → w < low
      → admitted_in step c.counts c.window_of w es s ≡ 0
  unfolding admitted_in
  passed w low [] s up gone = refl
  passed w low (e ∷ es) s up gone =
      let ih = passed w (c.window_of e) es (step e s).1 up.1 (omega (arith, up.0, gone)) in
      ground (arith, up.0)

  -- What is admitted in a window, with what was counted there before, stays within the limit, or
  -- nothing more is admitted where more was counted.
  pub within :
      (w low : ℕ) (es : List E) (s : S)
      → Good s
      → Ascending c.window_of low es
      → c.window s ≤ low
      → c.count s + length es ≤ bound
      → admitted_in step c.counts c.window_of w es s + used c w s ≤ max c.limit (used c w s)
  unfolding admitted_in
  within w low [] s good up old small = ground arith
  within w low (e ∷ es) s good up old small =
      let s' = (step e s).1 in
      let ih = within w (c.window_of e) es s' (keeps e s good) up.1 in
      let gone = passed w (c.window_of e) es s' up.1 in
      elim (steps e s good (omega (arith, up.0, old)) (omega (arith, small))) [
        | counted moved more capped ↦
            counting ((step e s).0 && c.counts e) c.limit (c.window_of e) w (c.window s) (c.count s)
              (admitted_in step c.counts c.window_of w es s') (c.count s') more capped
              (omega (arith, up.0, old)) gone
              (subst
                (λ v.
                  admitted_in step c.counts c.window_of w es s' + (if v == w then c.count s' else 0)
                  ≤ max c.limit (if v == w then c.count s' else 0))
                moved (ih (omega (arith, moved)) (ground arith)))
        | kept stayed same refused ↦
            let rest = ih (omega (arith, stayed, up.0, old)) (omega (arith, same, small)) in
            ground arith
        | forgotten old' away none_left refused ↦
            let rest = ih (omega (arith, away)) (omega (arith, none_left, small)) in ground arith
      ]
