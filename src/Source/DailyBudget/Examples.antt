-- ===== src/Source/DailyBudget/Examples.antt =====
-- Three requests of a day, of which the second is refused.
use lobbytally.Base.{◌+◌, ◌≤◌, ◌≡◌, refl, [], ◌∷◌, arith}
use lobbytally.Source.DailyBudget.{DailyBudget}
use lobbytally.Source.DailyBudget.Spending.{spend, spend_within}

abbrev budget : DailyBudget
budget = record { limit = 100; used = 10; day_key = 7 }

spend_within_example :
    (10 + (spend 7 (60 ∷ 50 ∷ 30 ∷ []) budget).0 ≤ 100)
    × ((spend 7 (60 ∷ 50 ∷ 30 ∷ []) budget).1.used ≡ 10 + (spend 7 (60 ∷ 50 ∷ 30 ∷ []) budget).0)
spend_within_example = spend_within 7 (60 ∷ 50 ∷ 30 ∷ []) budget refl (omega arith) (omega arith)
