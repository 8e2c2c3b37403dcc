-- ===== src/Storage/HttpLimit/Examples.antt =====
-- Three requests of one window, of which the last finds the budget of its key used up.
use lobbytally.Base.{ℕ, ◌≤◌, ◌≡◌, refl, List, [], ◌∷◌, arith}
use lobbytally.Base.{admitted_in}
use lobbytally.Storage.HttpLimit.{consume_http_limit}
use lobbytally.Storage.HttpLimit.Rate.{
  HttpCall, answered_call, names, belongs, window_at, consume_http_limit_bounded,
}

abbrev calls : List HttpCall
calls =
    record { identity_keys = "ip:a" ∷ "ip:b" ∷ []; now = 61000 }
    ∷ record { identity_keys = "ip:a" ∷ []; now = 62000 }
    ∷ record { identity_keys = "ip:a" ∷ []; now = 63000 }
    ∷ []

consume_http_limit_bounded_example :
    (admitted_in (answered_call 2 9 60) (names 2 9 60 "ip:a") (window_at 2 9 60) 60000 calls [] ≤ 2)
    × (admitted_in (answered_call 2 9 60) (belongs 2 9 60 "ip") (window_at 2 9 60) 60000 calls []
        ≤ 9)
consume_http_limit_bounded_example =
    consume_http_limit_bounded 2 9 60 61000 calls "ip:a" "ip" 60000
      (omega arith, (omega arith, (omega arith, tt)))

-- The first two are let through.
let_through :
    ◌≡◌ {A = ℕ}
      (admitted_in (answered_call 2 9 60) (names 2 9 60 "ip:a") (window_at 2 9 60) 60000 calls [])
      2
unfolding admitted_in answered_call consume_http_limit lobbytally.Table.find_where
    lobbytally.Table.delete_where
let_through = refl
