-- ===== src/Recommender/Mmr/Rounds.antt =====
-- A round of the loop as a relation on its states, and the loop as a run of rounds to its end.
use lobbytally.Base.{
  ℕ, zero, suc, ◌≤◌, ◌<◌, ◌≡◌, ◌≢◌, refl, ap, ◌∙◌, ◌⊎◌, inl, inr, true, false, ◌&&◌, Option, none,
  some, List, [], ◌∷◌, ◌++◌, map, arith, length-map, Bool-cases, length, ltb, leb, if◌then◌else◌,
  ◌==◌,
}
use lobbytally.Recommender.{FloatOps, base, diversity, explore}
use lobbytally.Recommender.Mmr.Guardrail.{allows, record_mode}
use lobbytally.Recommender.Mmr.Choice.{RemainingCandidate, best_mmr_index, explore_candidate_index}
use lobbytally.Recommender.Mmr.Rerank.{
  remove_at, put_back, is_nil, Selection, with_reason, Pick, picked, choose, raise_similarity,
  select_next, select_all,
}
use lobbytally.Recommender.Mmr.Chosen.{
  IsFit, IsFull, best_mmr_index-IsFit, explore_candidate_index-IsFit,
}

module _ {F : Type 0} (ops : FloatOps F) (to_lowercase : List ℕ → List ℕ) (lambda : F)
    (explore_slots tie_seed : ℕ) (cutoff : Option F) where
  -- Why a candidate was picked, and what that does to `explored`.
  abbrev pub Explores : Selection F → Pick → Type 0
  Explores s p =
      (p.reason ≡ explore)
      × (4 ≤ length s.selected)
      × (length s.selected < 8)
      × (s.explored < explore_slots)
      × (p.explored ≡ suc s.explored)

  abbrev pub Exploits : Selection F → Pick → Type 0
  Exploits s p = (p.reason ≢ explore) × (p.explored ≡ s.explored)

  -- The picked candidate is one that the guardrail allows, if it allows any.
  pub record IsPick (s : Selection F) (p : Pick) (c : RemainingCandidate F)
      (rest : List (RemainingCandidate F)) : Type 0 where
    pub removed : remove_at p.best_idx s.remaining ≡ some (c, rest)
    pub allowed :
        (allows s.mode_guardrail c.item (length s.selected) ≡ true)
        ⊎ IsFull ops to_lowercase s.mode_guardrail (length s.selected) tie_seed s.remaining
    pub why : Explores s p ⊎ Exploits s p

  abbrev pub next_state :
      Selection F → Pick → RemainingCandidate F → List (RemainingCandidate F) → Selection F
  next_state s p c rest =
      let chosen = with_reason p.reason c.item in
      record {
        remaining =
            map (raise_similarity ops to_lowercase lambda explore_slots tie_seed cutoff chosen)
              rest;
        mode_guardrail = record_mode s.mode_guardrail chosen (length s.selected);
        selected = s.selected ++ chosen ∷ [];
        explored = p.explored;
      }

  best_reason : (index : ℕ) → (if index == 0 then base else diversity) ≢ explore
  best_reason index h = elim (Bool-cases (index == 0)) [
    | inl e ↦ let wrong : base ≡ explore = rw e at h in cc
    | inr e ↦ let wrong : diversity ≡ explore = rw e at h in cc
  ]

  module _ (s : Selection F) (busy : s.remaining ≢ []) where
    abbrev best_idx_of : ℕ
    best_idx_of =
        best_mmr_index ops to_lowercase s.mode_guardrail (length s.selected) tie_seed lambda
          s.remaining

    abbrev HasPick : Pick → Type 0
    HasPick p =
        (c : RemainingCandidate F) × (rest : List (RemainingCandidate F)) × IsPick s p c rest

    head_at :
        (xs : List (RemainingCandidate F)) (i : ℕ)
        → xs ≢ []
        → i ≡ 0
        → (c : RemainingCandidate F) × (rest : List (RemainingCandidate F)) × (remove_at i xs
            ≡ some (c, rest))
    unfolding remove_at
    head_at [] i b e = absurd (b refl)
    head_at (x ∷ xs) i b e = (x, xs, rw e refl)

    best-HasPick :
        HasPick
          (picked ops to_lowercase lambda explore_slots tie_seed cutoff none best_idx_of s.explored)
    best-HasPick =
        elim (best_mmr_index-IsFit ops to_lowercase s.mode_guardrail (length s.selected) tie_seed
          lambda s.remaining) [
            | inl (c, rest, h, ok) ↦ (
              c,
              rest,
              record { removed = h; allowed = inl ok; why = inr (best_reason best_idx_of, refl) },
            )
            | inr (e, full) ↦
                let (c, rest, h) = head_at s.remaining best_idx_of busy e in
                (
                  c,
                  rest,
                  record {
                    removed = h;
                    allowed = inr full;
                    why = inr (best_reason best_idx_of, refl);
                  },
                )
          ]

    picked-HasPick :
        (o : Option ℕ)
        → ((i : ℕ)
            → o ≡ some i
            → IsFit ops to_lowercase s.mode_guardrail (length s.selected) tie_seed s.remaining i)
        → ((i : ℕ)
            → o ≡ some i
            → (4 ≤ length s.selected) × (length s.selected < 8) × (s.explored < explore_slots))
        → HasPick
            (picked ops to_lowercase lambda explore_slots tie_seed cutoff o best_idx_of s.explored)
    picked-HasPick none fit window = best-HasPick
    picked-HasPick (some i) fit window =
        let (c, rest, h, ok) = fit i refl in
        let (low, high, free) = window i refl in
        (
          c,
          rest,
          record { removed = h; allowed = inl ok; why = inl (refl, low, high, free, ground arith) },
        )

    choose-HasPick : HasPick (choose ops to_lowercase lambda explore_slots tie_seed cutoff s)
    unfolding choose
    choose-HasPick =
        elim (Bool-cases (
          (leb 4 (length s.selected) && ltb (length s.selected) 8)
          && ltb s.explored explore_slots)) [
            | inl e ↦ rw e (
                picked-HasPick
                  (explore_candidate_index ops to_lowercase s.mode_guardrail (length s.selected)
                    tie_seed cutoff s.remaining)
                  (explore_candidate_index-IsFit ops to_lowercase s.mode_guardrail
                    (length s.selected) tie_seed cutoff s.remaining)
                  (λ i h. (ground arith, ground arith, ground arith)))
            | inr e ↦ rw e best-HasPick
          ]

  length-remove_at :
      {A : Type 0} (i : ℕ) (xs : List A) (x : A) (rest : List A)
      → remove_at i xs ≡ some (x, rest)
      → length xs ≡ suc (length rest)
  unfolding remove_at
  length-remove_at i [] x rest h = cc
  length-remove_at zero (y ∷ ys) x rest h =
      let same : ys ≡ rest = cc in ap (λ zs. suc (length zs)) same
  length-remove_at {A} (suc i) (y ∷ ys) x rest h =
      split (length-remove_at i ys) (remove_at i ys) refl h
    where
      split :
          ((z : A) (zs : List A) → remove_at i ys ≡ some (z, zs) → length ys ≡ suc (length zs))
          → (o : Option (A × List A)) → remove_at i ys ≡ o
          → put_back y o ≡ some (x, rest)
          → suc (length ys) ≡ suc (length rest)
      split shorter none e k = cc
      split shorter (some (z, zs)) e k =
          let same : y ∷ zs ≡ rest = cc in ap suc (shorter z zs e ∙ ap length same)

  nil-or-busy : {A : Type 0} (xs : List A) → (xs ≡ []) ⊎ ((is_nil xs ≡ false) × (xs ≢ []))
  nil-or-busy [] = inl refl
  nil-or-busy (x ∷ xs) = inr (refl, λ e. cc)

  not_empty : {A : Type 0} (xs : List A) → xs ≢ [] → ¬ (length xs ≤ 0)
  not_empty [] b h = b refl
  not_empty (x ∷ xs) b h = omega (arith, h)

  -- A property that every round keeps holds where the loop ends, and with as much fuel as there are
  -- candidates the loop ends.
  pub select_all-keeps :
      (P : Selection F → Type 0)
      → ((s : Selection F) (p : Pick) (c : RemainingCandidate F)
            (rest : List (RemainingCandidate F))
          → P s
          → IsPick s p c rest
          → P (next_state s p c rest))
      → (fuel : ℕ) (s : Selection F) → length s.remaining ≤ fuel
      → P s
      → (s' : Selection F) × (select_all ops to_lowercase lambda explore_slots tie_seed cutoff fuel
            s
          ≡ some s')
        × P s'
        × (s'.remaining ≡ [])
  unfolding select_all select_next
  select_all-keeps P keep zero s enough h = elim (nil-or-busy s.remaining) [
    | inl e ↦ (s, rw e refl, h, e)
    | inr (more, busy) ↦ absurd (not_empty s.remaining busy enough)
  ]
  select_all-keeps P keep (suc fuel) s enough h = elim (nil-or-busy s.remaining) [
    | inl e ↦ (s, rw e refl, h, e)
    | inr (more, busy) ↦
        let p = choose ops to_lowercase lambda explore_slots tie_seed cutoff s in
        let (c, rest, pick) = choose-HasPick s busy in
        let s2 = next_state s p c rest in
        let fewer = length-remove_at p.best_idx s.remaining c rest pick.removed in
        let same =
          length-map
            (raise_similarity ops to_lowercase lambda explore_slots tie_seed cutoff
              (with_reason p.reason c.item))
            rest in
        let (s', run, q, e) =
          select_all-keeps P keep fuel s2 (omega (arith, enough, fewer, same))
            (keep s p c rest h pick) in
        (s', rw (more, pick.removed) run, q, e)
  ]
