-- ===== src/Ai/Router/Budget.antt =====
-- What the budget of crates/ai/src/router.rs admits over a run of requests.
use lobbytally.Base.{
  ℕ, ◌-◌, ◌/◌, ◌^◌, ◌<◌, ◌≤◌, Bool, true, List, ltb, inl, inr, Bool-cases, arith, length, Ascending,
  Ascending-mono, Counter, Stepped, counted, kept, admitted_in, within,
}
use lobbytally.Ai.Router.{RouterPolicy, GlobalBudget, count_minute, count_day, consume_budget}

-- `RouterPolicy`'s windows of the wall clock.
abbrev pub minute_of : ℕ → ℕ
minute_of now_ms = now_ms / 1000 / 60

abbrev pub day_of : ℕ → ℕ
day_of now_ms = now_ms / 1000 / 86400

abbrev pub empty_budget : GlobalBudget
empty_budget = record { minute_window = 0; minute_count = 0; day_window = 0; day_count = 0 }

abbrev any_request : ℕ → Bool
any_request now_ms = true

-- How many of the requests at the given times are admitted in a window.
abbrev pub admitted_of : (ℕ → ℕ) → ℕ → RouterPolicy → List ℕ → ℕ
admitted_of window_of window policy times =
    admitted_in (consume_budget policy) any_request window_of window times empty_budget

abbrev minutes : RouterPolicy → Counter ℕ GlobalBudget
minutes policy = record {
  window_of = minute_of;
  counts = any_request;
  window = λ b. b.minute_window;
  count = λ b. b.minute_count;
  limit = policy.minute_budget;
}

abbrev days : RouterPolicy → Counter ℕ GlobalBudget
days policy = record {
  window_of = day_of;
  counts = any_request;
  window = λ b. b.day_window;
  count = λ b. b.day_count;
  limit = policy.daily_budget;
}

abbrev Steps : RouterPolicy → Counter ℕ GlobalBudget → Type 0
Steps policy c =
    (now : ℕ) (b : GlobalBudget)
    → Unit {0}
    → c.window b ≤ c.window_of now
    → c.count b < 2 ^ 32 - 1
    → Stepped c now b (consume_budget policy now b).0 (consume_budget policy now b).1

minutes-Steps : (policy : RouterPolicy) → Steps policy (minutes policy)
unfolding consume_budget count_minute count_day
minutes-Steps policy now b good old small =
    counted (ground arith) (ground arith) (λ h. ground arith)

days-Steps : (policy : RouterPolicy) → Steps policy (days policy)
unfolding consume_budget count_minute count_day
days-Steps policy now b good old small =
    elim (Bool-cases (ltb policy.minute_budget (count_minute (now / 1000 / 60) b).minute_count)) [
      | inl e ↦ kept (ground arith) (ground arith) (ground arith)
      | inr e ↦ counted (ground arith) (ground arith) (λ h. ground arith)
    ]

-- Over any requests at times that do not go back, from a budget that starts empty, fewer than 2 ^ 32
-- of them: no minute admits more of them than the minute's budget, and no day more than the daily
-- one.
pub consume_budget_bounded :
    (policy : RouterPolicy) (first : ℕ) (times : List ℕ) (minute day : ℕ)
    → Ascending (λ now. now) first times
    → length times < 2 ^ 32
    → (admitted_of minute_of minute policy times ≤ policy.minute_budget)
      × (admitted_of day_of day policy times ≤ policy.daily_budget)
consume_budget_bounded policy first times minute day up small =
    let in_minutes =
      Ascending-mono (λ now. now) minute_of (λ a b h. omega (arith, h)) first times up in
    let in_days = Ascending-mono (λ now. now) day_of (λ a b h. omega (arith, h)) first times up in
    let m =
      within (consume_budget policy) (minutes policy) (2 ^ 32 - 1) (λ b. Unit) (λ now b good. tt)
        (minutes-Steps policy) minute (minute_of first) times empty_budget tt in_minutes
        (omega arith) (omega (arith, small)) in
    let d =
      within (consume_budget policy) (days policy) (2 ^ 32 - 1) (λ b. Unit) (λ now b good. tt)
        (days-Steps policy) day (day_of first) times empty_budget tt in_days (omega arith)
        (omega (arith, small)) in
    (ground arith, ground arith)
