-- ===== src/Ai/HostLimit/Permits.antt =====
-- How many permits of crates/ai/src/host_limit.rs are open at once.
use lobbytally.Base.{
  ℕ, zero, suc, ◌+◌, ◌-◌, ◌^◌, ◌<◌, ◌≤◌, ◌≡◌, refl, ap, ◌∙◌, inl, inr, String, true, false, Option,
  none, some, List, [], ◌∷◌, leb, ◌==◌, ==_iff, if◌then◌else◌, eq_codes, Bool-cases, arith,
}
use lobbytally.Ai.{AiResult, ok, err}
use lobbytally.Ai.HostLimit.{
  TokenOps, HostLimitConfig, HostState, HostClock, is_shut, refill, admit, try_acquire, HostRelease,
  HostLimiter, acquire_host, release_host,
}

pub eq_codes_iff : (a b : List ℕ) → eq_codes a b ≡ true → a ≡ b
unfolding eq_codes
eq_codes_iff [] [] h = refl
eq_codes_iff [] (y ∷ b) h = cc
eq_codes_iff (x ∷ a) [] h = cc
eq_codes_iff (x ∷ a) (y ∷ b) h = elim (Bool-cases (x == y)) [
  | inl e ↦
      let rest : eq_codes a b ≡ true = rw e at h in
      let first = (==_iff x y).0 e in let tail = eq_codes_iff a b rest in cc
  | inr e ↦ let clash : false ≡ true = rw e at h in cc
]

pub same_codes : (a : List ℕ) → eq_codes a a ≡ true
unfolding eq_codes
same_codes [] = refl
same_codes (x ∷ a) = rw ((==_iff x x).1 refl, same_codes a) refl

-- What a client does: it asks for a permit, or gives back one of those it holds, by its position. A
-- permit that is dropped is given back as `failed`.
pub data HostCall : Type 0 where
  acquires : String → HostClock → HostCall
  gives_back : ℕ → HostRelease → ℕ → HostCall

-- The permits that are open, by their hosts.
pub record Held (F : Type 0) : Type 0 where
  pub limiter : HostLimiter F
  pub permits : List (List ℕ)

unfoldable pub take_out : ℕ → List (List ℕ) → Option (List ℕ × List (List ℕ))
take_out n [] = none
take_out zero (p ∷ ps) = some (p, ps)
take_out (suc n) (p ∷ ps) = elim (take_out n ps) [
  | none ↦ none
  | some (q, rest) ↦ some (q, p ∷ rest)
]

abbrev pub with_permit : AiResult (List ℕ) → List (List ℕ) → List (List ℕ)
with_permit (ok host) permits = host ∷ permits
with_permit (err e) permits = permits

abbrev pub give_back :
    {F : Type 0} → HostRelease → ℕ → Option (List ℕ × List (List ℕ)) → Held F → Held F
give_back outcome now none held = held
give_back outcome now (some (host, rest)) held = record {
  limiter = release_host host outcome now held.limiter;
  permits = rest;
}

unfoldable pub call_limiter : {F : Type 0} → TokenOps F → HostCall → Held F → Held F
call_limiter ops (acquires host clock) held =
    let (answer, limiter) = acquire_host ops host clock held.limiter in
    record { limiter = limiter; permits = with_permit answer held.permits }
call_limiter ops (gives_back n outcome now) held =
    give_back outcome now (take_out n held.permits) held

unfoldable pub call_all : {F : Type 0} → TokenOps F → List HostCall → Held F → Held F
call_all ops [] held = held
call_all ops (call ∷ calls) held = call_all ops calls (call_limiter ops call held)

unfoldable pub open_permits : List ℕ → List (List ℕ) → ℕ
open_permits host [] = 0
open_permits host (p ∷ ps) = (if eq_codes p host then 1 else 0) + open_permits host ps

abbrev pub in_flight_of : {F : Type 0} → Option (HostState F) → ℕ
in_flight_of none = 0
in_flight_of (some s) = s.in_flight

abbrev pub HasCap : {F : Type 0} → ℕ → Option (HostState F) → Type 0
HasCap cap none = Unit
HasCap cap (some s) = s.limits.max_concurrency ≡ cap

-- A host's calls in flight are its open permits, and no more than the cap.
abbrev pub Tallies : {F : Type 0} → ℕ → List (List ℕ) → List ℕ → Option (HostState F) → Type 0
Tallies cap permits host f =
    (in_flight_of f ≡ open_permits host permits) × (in_flight_of f ≤ cap) × HasCap cap f

abbrev pub granted : AiResult (Unit {0}) → ℕ
granted (ok tt) = 1
granted (err e) = 0

module _ {F : Type 0} (ops : TokenOps F) where
  -- What an acquisition does to the number in flight, and to the limits.
  refill_in_flight :
      (measured refilled : ℕ) (s : HostState F)
      → ((refill ops measured refilled s).in_flight ≡ s.in_flight)
        × ((refill ops measured refilled s).limits ≡ s.limits)
  unfolding refill
  refill_in_flight measured refilled s =
      elim (Bool-cases (ops.le (ops.as_secs (measured - s.last_refill)) ops.zero_tokens)) [
        | inl e ↦ rw e (refl, refl)
        | inr e ↦ rw e (refl, refl)
      ]

  admit_in_flight :
      (s : HostState F)
      → s.limits.max_concurrency < 2 ^ 32
      → s.in_flight ≤ s.limits.max_concurrency
      → ((admit ops s).1.in_flight ≡ granted (admit ops s).0 + s.in_flight)
        × ((admit ops s).1.in_flight ≤ s.limits.max_concurrency)
        × ((admit ops s).1.limits ≡ s.limits)
  admit_in_flight s small fits = elim (Bool-cases (leb s.limits.max_concurrency s.in_flight)) [
    | inl full ↦ rw full (omega arith, fits, refl)
    | inr free ↦ elim (Bool-cases (ops.lt s.tokens ops.one_token)) [
      | inl dry ↦ rw (free, dry) (omega arith, fits, refl)
      | inr wet ↦ rw (free, wet) (ground arith, ground arith, refl)
    ]
  ]

  pub try_acquire_in_flight :
      (clock : HostClock) (s : HostState F)
      → s.limits.max_concurrency < 2 ^ 32
      → s.in_flight ≤ s.limits.max_concurrency
      → ((try_acquire ops clock s).1.in_flight ≡ granted (try_acquire ops clock s).0 + s.in_flight)
        × ((try_acquire ops clock s).1.in_flight ≤ s.limits.max_concurrency)
        × ((try_acquire ops clock s).1.limits ≡ s.limits)
  unfolding try_acquire
  try_acquire_in_flight clock s small fits =
      elim (Bool-cases (is_shut s.circuit_open_until clock.checked)) [
        | inl shut ↦ rw shut (omega arith, fits, refl)
        | inr open_now ↦ rw open_now (
            let closed : HostState F = record s { circuit_open_until = none } in
            let (same, limits) = refill_in_flight clock.measured clock.refilled closed in
            let filled = refill ops clock.measured clock.refilled closed in
            let cap = ap (λ (l : HostLimitConfig F). l.max_concurrency) limits in
            let (a, b, c) =
              admit_in_flight filled (omega (arith, cap, small)) (omega (arith, same, cap, fits)) in
            (omega (arith, a, same), omega (arith, b, cap), c ∙ limits))
      ]
