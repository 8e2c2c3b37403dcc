-- ===== src/Ai/HostLimit/Concurrency.antt =====
-- The cap on concurrent calls to a host in crates/ai/src/host_limit.rs.
use lobbytally.Base.{
  ℕ, zero, suc, ◌+◌, ◌^◌, ◌<◌, ◌≤◌, ◌≡◌, refl, sym, ap, subst, ◌∙◌, inl, inr, String, false, Option,
  none, some, List, [], ◌∷◌, if◌then◌else◌, eq_codes, Bool-cases, Option-cases, arith,
}
use lobbytally.Ai.{AiResult, ok, err}
use lobbytally.Ai.HostLimit.{
  TokenOps, HostLimitConfig, HostState, HostClock, new_host, try_acquire, release_ok, release_429,
  release_error, HostRelease, succeeded, limited, failed, new_limiter, host_key, is_empty, or_new,
  set_host, permit_for, acquire_host, released, release_host,
}
use lobbytally.Ai.HostLimit.Permits.{
  eq_codes_iff, same_codes, HostCall, acquires, gives_back, Held, take_out, with_permit,
  call_limiter, call_all, open_permits, in_flight_of, Tallies, granted, try_acquire_in_flight,
}

open_permits-take_out :
    (n : ℕ) (permits : List (List ℕ)) (host h : List ℕ) (rest : List (List ℕ))
    → take_out n permits ≡ some (host, rest)
    → open_permits h permits ≡ (if eq_codes host h then 1 else 0) + open_permits h rest
unfolding take_out open_permits
open_permits-take_out n [] host h rest e = cc
open_permits-take_out zero (p ∷ ps) host h rest e =
    let first : p ≡ host = cc in let others : ps ≡ rest = cc in rw (first, others) refl
open_permits-take_out (suc n) (p ∷ ps) host h rest e =
    taken (open_permits-take_out n ps) (take_out n ps) refl e
  where
    taken :
        ((q h' : List ℕ) (more : List (List ℕ))
          → take_out n ps ≡ some (q, more)
          → open_permits h' ps ≡ (if eq_codes q h' then 1 else 0) + open_permits h' more)
        → (o : Option (List ℕ × List (List ℕ))) → take_out n ps ≡ o
        → ◌≡◌ {A = Option (List ℕ × List (List ℕ))}
            (elim o [ none ↦ none | some (q, more) ↦ some (q, p ∷ more) ])
            (some (host, rest))
        → open_permits h (p ∷ ps) ≡ (if eq_codes host h then 1 else 0) + open_permits h rest
    taken before none o e = cc
    taken before (some (q, more)) o e =
        let first : q ≡ host = cc in
        let others : p ∷ more ≡ rest = cc in
        let ih = before q h more o in rw⁻¹ (first, others) (omega (arith, ih))

open_permits-with_permit :
    (key h : List ℕ) (answer : AiResult (Unit {0})) (permits : List (List ℕ))
    → open_permits h (with_permit (permit_for key answer) permits)
      ≡ (if eq_codes key h then granted answer else 0) + open_permits h permits
unfolding open_permits
open_permits-with_permit key h (ok tt) permits = refl
open_permits-with_permit key h (err e) permits = ground arith

module _ {F : Type 0} (cap : ℕ) where
  -- Every host's calls in flight are counted, and the limits are those of the limiter.
  Sound : Held F → Type 0
  Sound held =
      (held.limiter.default_config.max_concurrency ≡ cap)
      × ((h : List ℕ) → Tallies cap held.permits h (held.limiter.hosts h))

  Sound-default_config :
      (held : Held F) → Sound held → held.limiter.default_config.max_concurrency ≡ cap
  unfolding Sound
  Sound-default_config held sound = sound.0

  Sound-hosts :
      (held : Held F)
      → Sound held
      → (h : List ℕ) → Tallies cap held.permits h (held.limiter.hosts h)
  unfolding Sound
  Sound-hosts held sound = sound.1

  or_new-Tallies :
      (limits : HostLimitConfig F) (created : ℕ) (permits : List (List ℕ)) (key : List ℕ)
      (f : Option (HostState F))
      → limits.max_concurrency ≡ cap
      → Tallies cap permits key f
      → Tallies cap permits key (some (or_new (new_host limits created) f))
  unfolding new_host
  or_new-Tallies limits created permits key none same t = (t.0, t.1, same)
  or_new-Tallies limits created permits key (some s) same t = t

  -- One host's state is replaced.
  set_host-Sound :
      (held : Held F) (key : List ℕ) (s : HostState F) (permits : List (List ℕ))
      → Sound held
      → Tallies cap permits key (some s)
      → ((h : List ℕ)
          → eq_codes key h ≡ false
          → open_permits h permits ≡ open_permits h held.permits)
      → Sound (record { limiter = set_host key s held.limiter; permits = permits })
  unfolding Sound set_host
  set_host-Sound held key s permits sound here others = (
    sound.0,
    λ h. elim (Bool-cases (eq_codes key h)) [
      | inl e ↦ rw e (subst (λ v. Tallies cap permits v (some s)) (eq_codes_iff key h e) here)
      | inr e ↦ rw e (let (a, b, c) = sound.1 h in (a ∙ sym (others h e), b, c))
    ],
  )

  released-Tallies :
      (outcome : HostRelease) (now : ℕ) (s : HostState F) (permits : List (List ℕ)) (key : List ℕ)
      → s.in_flight ≡ 1 + open_permits key permits
      → s.in_flight ≤ cap
      → s.limits.max_concurrency ≡ cap
      → Tallies cap permits key (some (released outcome now s))
  unfolding release_ok release_429 release_error
  released-Tallies succeeded now s permits key a b c = (omega (arith, a), omega (arith, b), c)
  released-Tallies (limited after) now s permits key a b c = (omega (arith, a), omega (arith, b), c)
  released-Tallies failed now s permits key a b c = (omega (arith, a), omega (arith, b), c)

  module _ (ops : TokenOps F) (small : cap < 2 ^ 32) where
    acquires-Sound :
        (host : String) (clock : HostClock) (held : Held F)
        → Sound held
        → Sound (call_limiter ops (acquires host clock) held)
    unfolding call_limiter acquire_host
    acquires-Sound host clock held sound =
        let key = host_key host in
        let fresh = new_host held.limiter.default_config clock.created in
        let s = or_new fresh (held.limiter.hosts key) in
        let (answer, s') = try_acquire ops clock s in
        let permits = with_permit (permit_for key answer) held.permits in
        elim (Bool-cases (is_empty key)) [
          | inl e ↦ rw e sound
          | inr e ↦ rw e (
              let (flight, fits, limits) =
                or_new-Tallies held.limiter.default_config clock.created held.permits key
                  (held.limiter.hosts key) (Sound-default_config held sound)
                  (Sound-hosts held sound key) in
              let (a, b, c) =
                try_acquire_in_flight ops clock s (omega (arith, limits, small))
                  (omega (arith, limits, fits)) in
              let capped = ap (λ (l : HostLimitConfig F). l.max_concurrency) c ∙ limits in
              let mine : open_permits key permits ≡ granted answer + open_permits key held.permits =
                open_permits-with_permit key key answer held.permits ∙ rw (same_codes key) refl in
              set_host-Sound held key s' permits sound
                (omega (arith, a, flight, mine), omega (arith, b, limits), capped)
                (λ h apart.
                  open_permits-with_permit key h answer held.permits ∙ rw apart (omega arith)))
        ]

    gives_back-Sound :
        (n : ℕ) (outcome : HostRelease) (now : ℕ) (held : Held F)
        → Sound held
        → Sound (call_limiter ops (gives_back n outcome now) held)
    unfolding call_limiter release_host
    gives_back-Sound n outcome now held sound = elim (Option-cases (take_out n held.permits)) [
      | inl absent ↦ rw absent sound
      | inr ((host, rest), taken) ↦ rw taken (
          let law = λ (h : List ℕ). open_permits-take_out n held.permits host h rest taken in
          let mine : open_permits host held.permits ≡ 1 + open_permits host rest =
            law host ∙ rw (same_codes host) refl in
          let (flight, fits, capped) = Sound-hosts held sound host in
          elim (Option-cases (held.limiter.hosts host)) [
            | inl missing ↦
                let idle : in_flight_of (held.limiter.hosts host) ≡ 0 = rw missing refl in
                let clash : ⊥ = omega (arith, idle, flight, mine) in absurd clash
            | inr (s, present) ↦
                let (flight', fits', capped') =
                  subst (Tallies cap held.permits host) present (Sound-hosts held sound host) in
                rw present (
                  set_host-Sound held host (released outcome now s) rest sound
                    (released-Tallies outcome now s rest host (flight' ∙ mine) fits' capped')
                    (λ h apart. sym (law h ∙ rw apart (omega arith))))
          ])
    ]

    call_all-Sound :
        (calls : List HostCall) (held : Held F) → Sound held → Sound (call_all ops calls held)
    unfolding call_all
    call_all-Sound [] held sound = sound
    call_all-Sound (acquires host clock ∷ calls) held sound =
        call_all-Sound calls (call_limiter ops (acquires host clock) held)
          (acquires-Sound host clock held sound)
    call_all-Sound (gives_back n outcome now ∷ calls) held sound =
        call_all-Sound calls (call_limiter ops (gives_back n outcome now) held)
          (gives_back-Sound n outcome now held sound)

abbrev pub nothing_held : {F : Type 0} → HostLimitConfig F → Held F
nothing_held limits = record { limiter = new_limiter limits; permits = [] }

-- After any calls of a client on a new limiter, whatever the clocks and the floating point operations
-- give, the permits that are open for a host are exactly its calls in flight, and are at most the
-- concurrency that is configured, a u32.
pub call_all-open_permits :
    {F : Type 0} (ops : TokenOps F) (limits : HostLimitConfig F) (calls : List HostCall)
    (host : List ℕ)
    → limits.max_concurrency < 2 ^ 32
    → (in_flight_of ((call_all ops calls (nothing_held limits)).limiter.hosts host)
        ≡ open_permits host (call_all ops calls (nothing_held limits)).permits)
      × (open_permits host (call_all ops calls (nothing_held limits)).permits
          ≤ limits.max_concurrency)
unfolding new_limiter open_permits Sound
call_all-open_permits ops limits calls host small =
    let (flight, fits, capped) =
      Sound-hosts limits.max_concurrency (call_all ops calls (nothing_held limits))
        (call_all-Sound limits.max_concurrency ops small calls (nothing_held limits)
          (refl, λ h. (refl, omega arith, tt)))
        host in
    (flight, omega (arith, flight, fits))
