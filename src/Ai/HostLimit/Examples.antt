-- ===== src/Ai/HostLimit/Examples.antt =====
-- A client of one host, with tokens that are natural numbers.
use lobbytally.Base.{
  ℕ, ◌+◌, ◌-◌, ◌*◌, ◌/◌, ◌≤◌, ◌<◌, ◌≡◌, refl, ◌≢◌, ◌⊎◌, min, none, some, List, [], ◌∷◌, ltb, leb,
  codes, arith,
}
use lobbytally.Ai.{circuit_open, err}
use lobbytally.Ai.HostLimit.{TokenOps, HostLimitConfig, HostClock, try_acquire, limited}
use lobbytally.Ai.HostLimit.Permits.{
  HostCall, acquires, gives_back, call_all, open_permits, in_flight_of,
}
use lobbytally.Ai.HostLimit.Concurrency.{nothing_held, call_all-open_permits}
use lobbytally.Ai.HostLimit.History.{
  HostEvent, asked, answered_429, replay, answers_429, opening_end,
}
use lobbytally.Ai.HostLimit.Circuit.{replay-try_acquire}

abbrev tokens : TokenOps ℕ
tokens = record {
  zero_tokens = 0;
  one_token = 1;
  add = λ a b. a + b;
  sub = λ a b. a - b;
  mul = λ a b. a * b;
  min_of = λ a b. min a b;
  le = leb;
  lt = ltb;
  as_secs = λ n. n / 1000000000;
}

abbrev limits : HostLimitConfig ℕ
limits = record {
  max_tokens = 10;
  refill_per_sec = 2;
  max_concurrency = 2;
  circuit_open_for = 30000000000;
  consecutive_429_threshold = 2;
}

abbrev at_second : ℕ → HostClock
at_second n = record {
  created = n * 1000000000;
  checked = n * 1000000000;
  measured = n * 1000000000;
  refilled = n * 1000000000;
}

abbrev calls : List HostCall
calls =
    acquires " Store.example " (at_second 1)
    ∷ acquires "store.example" (at_second 2)
    ∷ acquires "store.example" (at_second 3)
    ∷ gives_back 0 (limited none) 4000000000
    ∷ acquires "store.example" (at_second 5)
    ∷ []

call_all-open_permits_example :
    (in_flight_of
        ((call_all tokens calls (nothing_held limits)).limiter.hosts (codes "store.example"))
      ≡ open_permits (codes "store.example") (call_all tokens calls (nothing_held limits)).permits)
    × (open_permits (codes "store.example") (call_all tokens calls (nothing_held limits)).permits
        ≤ 2)
call_all-open_permits_example =
    call_all-open_permits tokens limits calls (codes "store.example") (omega arith)

-- Two calls that are answered 429, each after its permit, the second with a retry-after.
abbrev two_429 : List HostEvent
two_429 =
    answered_429 (some 5000000000) 7000000000
    ∷ asked (at_second 6)
    ∷ answered_429 none 4000000000
    ∷ asked (at_second 3)
    ∷ []

replay-try_acquire_example :
    (((at_second 9).checked < opening_end limits two_429)
      × (try_acquire tokens (at_second 9) (replay tokens limits 0 two_429)
          ≡ (err circuit_open, replay tokens limits 0 two_429)))
    ⊎ ((opening_end limits two_429 ≤ (at_second 9).checked)
        × ((try_acquire tokens (at_second 9) (replay tokens limits 0 two_429)).0
            ≢ err circuit_open))
replay-try_acquire_example =
    replay-try_acquire tokens limits 0 two_429 (at_second 9) (omega arith)
      ((omega arith, (omega arith, tt)), ((omega arith, tt), (tt, tt)))

-- The second answer has opened the circuit.
opens_at_12 : opening_end limits two_429 ≡ 12000000000
unfolding opening_end answers_429
opens_at_12 = refl
