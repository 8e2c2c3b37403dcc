-- ===== src/Source/DailyBudget/Spending.antt =====
-- What the requests of a day may spend.
use lobbytally.Base.{ℕ, ◌+◌, ◌-◌, ◌^◌, ◌≤◌, ◌<◌, ◌≡◌, Option, none, some, List, [], ◌∷◌, arith}
use lobbytally.Source.DailyBudget.{DailyBudget, on_day, try_consume}

abbrev granted : Option ℕ → ℕ → ℕ
granted none cost = cost
granted (some left) cost = 0

-- The sum of the granted costs of a run of requests on one day, and the budget after it.
unfoldable pub spend : ℕ → List ℕ → DailyBudget → ℕ × DailyBudget
spend day [] b = (0, b)
spend day (cost ∷ costs) b =
    let (answer, b') = try_consume b day cost in
    let (sum, last) = spend day costs b' in (granted answer cost + sum, last)

one_step :
    (b : DailyBudget) (day cost : ℕ)
    → b.limit < 2 ^ 64 - 1
    → ((try_consume b day cost).1.limit ≡ b.limit)
      × ((try_consume b day cost).1.day_key ≡ day)
      × (((on_day b day).used ≤ b.limit) → (try_consume b day cost).1.used ≤ b.limit)
      × ((try_consume b day cost).1.used
          ≡ (on_day b day).used + granted (try_consume b day cost).0 cost)
unfolding try_consume on_day
one_step b day cost h = (ground arith, ground arith, ground arith, ground arith)

same_day : (b : DailyBudget) (day : ℕ) → b.day_key ≡ day → (on_day b day).used ≡ b.used
unfolding on_day
same_day b day e = ground arith

-- On one day, whatever is asked for, the costs that are granted and what was used before them stay
-- within the limit, if that is below the greatest u64, and are what the budget then counts as used.
pub spend_within :
    (day : ℕ) (costs : List ℕ) (b : DailyBudget)
    → b.day_key ≡ day
    → b.used ≤ b.limit
    → b.limit < 2 ^ 64 - 1
    → (b.used + (spend day costs b).0 ≤ b.limit)
      × ((spend day costs b).1.used ≡ b.used + (spend day costs b).0)
unfolding spend
spend_within day [] b e h small = (omega (arith, h), omega arith)
spend_within day (cost ∷ costs) b e h small =
    let (limit, key, fits, used) = one_step b day cost small in
    let now = same_day b day e in
    let within = fits (omega (arith, now, h)) in
    let (x, y) =
      spend_within day costs (try_consume b day cost).1 key (omega (arith, within, limit))
        (omega (arith, limit, small)) in
    (omega (arith, x, limit, used, now), omega (arith, y, used, now))
