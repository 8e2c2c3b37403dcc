-- ===== src/Source/DailyBudget.antt =====
-- `DailyBudget` of crates/steam-source/src/rate_limit.rs, on numbers of 64 bits.
pub mod Spending
mod Examples
use lobbytally.Base.{ℕ, ◌+◌, ◌-◌, ◌^◌, min, not, Option, none, some, ltb, ◌==◌, if◌then◌else◌}

-- `saturating_add` on `u64`.
abbrev pub sat_add_u64 : ℕ → ℕ → ℕ
sat_add_u64 a b = min (a + b) (2 ^ 64 - 1)

pub record DailyBudget : Type 0 where
  pub limit : ℕ
  pub used : ℕ
  pub day_key : ℕ

unfoldable pub new_budget : ℕ → ℕ → DailyBudget
new_budget limit day_key = record { limit = limit; used = 0; day_key = day_key }

-- The budget of the day, empty where the day is a new one.
unfoldable pub on_day : DailyBudget → ℕ → DailyBudget
on_day b day_key =
    if not (day_key == b.day_key) then record b { used = 0; day_key = day_key } else b

-- The remaining budget where the cost is refused.
unfoldable pub try_consume : DailyBudget → ℕ → ℕ → Option ℕ × DailyBudget
unfolding on_day
try_consume b day_key cost =
    let today = on_day b day_key in
    if ltb today.limit (sat_add_u64 today.used cost)
    then (some (today.limit - today.used), today)
    else (none, record today { used = today.used + cost })

unfoldable pub remaining : DailyBudget → ℕ
remaining b = b.limit - b.used
