-- ===== src/Recommender/Mmr/Share.antt =====
-- No known mode has more than its share of the visible candidates, where that is feasible.
use lobbytally.Base.{
  ℕ, zero, suc, ◌+◌, ◌≤◌, ◌<◌, ◌≡◌, refl, ap, ◌⊎◌, inl, inr, true, false, List, [], ◌∷◌, ◌++◌,
  arith, length, take, min, leb,
}
use lobbytally.Domain.{ModeFamily}
use lobbytally.Recommender.{FloatOps, RankedCandidate, known_mode}
use lobbytally.Recommender.Mmr.Guardrail.{
  families, ModeGuardrail, available_per_mode, feasible_capacity, new_guardrail, allows,
}
use lobbytally.Recommender.Mmr.Choice.{RemainingCandidate}
use lobbytally.Recommender.Mmr.Rerank.{Selection}
use lobbytally.Recommender.Mmr.Chosen.{IsFull}
use lobbytally.Recommender.Mmr.Tally.{
  has_room-one_false, sum_of-eq, total, of_mode, of_none, available-total, unknown-total,
  length-total,
}

pub take-short : {A : Type 0} (n : ℕ) (xs : List A) → length xs ≤ n → take n xs ≡ xs
take-short zero [] h = refl
take-short zero (x ∷ xs) h = absurd (omega (arith, h))
take-short (suc n) [] h = refl
take-short (suc n) (x ∷ xs) h = ap (◌∷◌ x) (take-short n xs (omega (arith, h)))

pub take-long :
    {A : Type 0} (n : ℕ) (xs ys : List A) → n ≤ length xs → take n (xs ++ ys) ≡ take n xs
take-long zero xs ys h = refl
take-long (suc n) [] ys h = absurd (omega (arith, h))
take-long (suc n) (x ∷ xs) ys h = ap (◌∷◌ x) (take-long n xs ys (omega (arith, h)))

module _ {F : Type 0} (ops : FloatOps F) (to_lowercase : List ℕ → List ℕ) where
  abbrev pub item_mode : ModeFamily → RemainingCandidate F → ℕ
  item_mode mode c = of_mode mode c.item

  abbrev pub item_none : RemainingCandidate F → ℕ
  item_none c = of_none c.item

  -- What the rounds keep, with the guardrail of the window: candidates are counted once, as selected
  -- or remaining, the guardrail counts the selected ones, and none of its counts exceeds the bound.
  pub record IsShared (window : List (RankedCandidate F)) (s : Selection F) : Type 0 where
    pub still : s.mode_guardrail.enabled ≡ true
    pub same_top : s.mode_guardrail.top_k ≡ (new_guardrail window).top_k
    pub same_max : s.mode_guardrail.max_per_mode ≡ (new_guardrail window).max_per_mode
    pub modes :
        (mode : ModeFamily)
        → total (of_mode mode) s.selected + total (item_mode mode) s.remaining
          ≡ total (of_mode mode) window
    pub unknowns : total of_none s.selected + total item_none s.remaining ≡ total of_none window
    pub counted :
        length s.selected ≤ (new_guardrail window).top_k
        → (mode : ModeFamily)
        → s.mode_guardrail.selected_per_mode mode ≡ total (of_mode mode) s.selected
    pub shared :
        (mode : ModeFamily)
        → total (of_mode mode) (take ((new_guardrail window).top_k) s.selected)
          ≤ (new_guardrail window).max_per_mode

  -- Where the guardrail allows no candidate that remains, all of them have modes at the bound.
  module _ (guard : ModeGuardrail) (n tie_seed : ℕ) (still : guard.enabled ≡ true)
      (early : n < guard.top_k) where
    full_here :
        (c : RemainingCandidate F)
        → allows guard c.item n ≡ false
        → (item_none c ≡ 0)
          × ((mode : ModeFamily)
              → (item_mode mode c ≡ 0) ⊎ (guard.max_per_mode ≤ guard.selected_per_mode mode))
    unfolding allows
    full_here c h =
        let late : leb guard.top_k n ≡ false = ground arith in
        has_room-one_false guard.selected_per_mode guard.max_per_mode (known_mode c.item)
          (rw (still, late) at h)

    full-total :
        (cs : List (RemainingCandidate F))
        → IsFull ops to_lowercase guard n tie_seed cs
        → (total item_none cs ≡ 0)
          × ((mode : ModeFamily)
              → (total (item_mode mode) cs ≡ 0)
                ⊎ (guard.max_per_mode ≤ guard.selected_per_mode mode))
    unfolding total
    full-total [] h = (refl, λ mode. inl refl)
    full-total (c ∷ cs) h =
        let (a, b) = full_here c h.0 in
        let (x, y) = full-total cs h.1 in (omega (arith, a, x), λ mode. both (b mode) (y mode))
      where
        both : {m n : ℕ} {P : Type 0} → ((m ≡ 0) ⊎ P) → ((n ≡ 0) ⊎ P) → ((m + n ≡ 0) ⊎ P)
        both (inl a) (inl b) = inl (omega (arith, a, b))
        both (inl a) (inr p) = inr p
        both (inr p) b = inr p

  settled :
      (chosen left all bound : ℕ)
      → chosen + left ≡ all
      → chosen ≤ bound
      → ((left ≡ 0) ⊎ (bound ≤ chosen))
      → min all bound ≡ chosen
  settled chosen left all bound h k (inl e) = omega (arith, h, k, e)
  settled chosen left all bound h k (inr e) = omega (arith, h, k, e)

  feasible :
      (window : List (RankedCandidate F))
      → (new_guardrail window).enabled ≡ true
      → (new_guardrail window).top_k ≤ feasible_capacity (new_guardrail window).max_per_mode window
  unfolding new_guardrail
  feasible window on = ground arith

  -- So the selected ones would fill the feasible capacity.
  pub never-IsFull :
      (window : List (RankedCandidate F)) (tie_seed : ℕ) (s : Selection F)
      → (new_guardrail window).enabled ≡ true
      → IsShared window s
      → length s.selected < (new_guardrail window).top_k
      → ¬ IsFull ops to_lowercase s.mode_guardrail (length s.selected) tie_seed s.remaining
  unfolding feasible_capacity
  never-IsFull window tie_seed s on h early full =
      let top = (new_guardrail window).top_k in
      let bound = (new_guardrail window).max_per_mode in
      let early' : length s.selected < s.mode_guardrail.top_k = rw h.same_top early in
      let (u, m) =
        full-total s.mode_guardrail (length s.selected) tie_seed h.still early' s.remaining full in
      let whole = take-short top s.selected (omega (arith, early)) in
      let each = λ (mode : ModeFamily).
        settled (total (of_mode mode) s.selected) (total (item_mode mode) s.remaining)
          (total (of_mode mode) window) bound (h.modes mode) (rw whole at (h.shared mode))
          (rw (h.same_max, h.counted (omega (arith, early)) mode) at (m mode)) in
      let sums =
        sum_of-eq (λ mode. min (available_per_mode window mode) bound)
          (λ mode. total (of_mode mode) s.selected) families
          (λ mode. rw (available-total window mode) (each mode)) in
      omega (
        arith,
        early,
        feasible window on,
        sums,
        unknown-total window,
        h.unknowns,
        u,
        length-total s.selected,
      )
