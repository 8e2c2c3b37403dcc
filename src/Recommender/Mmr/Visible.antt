-- ===== src/Recommender/Mmr/Visible.antt =====
-- The share of a mode among the visible candidates of the result.
use lobbytally.Base.{
  ℕ, ◌+◌, ◌*◌, ◌/◌, ◌≤◌, ◌<◌, ◌≡◌, refl, sym, ap, ◌∙◌, true, Option, some, List, [], ◌++◌, arith,
  length, take, min,
}
use lobbytally.Domain.{ModeFamily}
use lobbytally.Recommender.{FloatOps, unit, RankedCandidate}
use lobbytally.Recommender.Mmr.Guardrail.{
  mode_guardrail_top_k, families, available_per_mode, new_guardrail,
}
use lobbytally.Recommender.Mmr.Choice.{RemainingCandidate}
use lobbytally.Recommender.Mmr.Rerank.{Selection, start, to_remaining, mmr_rerank_with_tie_seed}
use lobbytally.Recommender.Mmr.Outcome.{
  map-to_remaining, window_of, tail_of, cutoff_of, mmr_rerank-keeps,
}
use lobbytally.Recommender.Mmr.Tally.{
  sum_of-eq, total, of_mode, of_none, available-total, length-total,
}
use lobbytally.Recommender.Mmr.Share.{take-short, take-long, IsShared}
use lobbytally.Recommender.Mmr.ShareKept.{total-map, next_state-IsShared}

module _ {F : Type 0} (ops : FloatOps F) (to_lowercase : List ℕ → List ℕ) (lambda : F)
    (slots tie_seed : ℕ) (cutoff : Option F) (window : List (RankedCandidate F))
    (on : (new_guardrail window).enabled ≡ true) where
  start_total :
      (f : RankedCandidate F → ℕ)
      → total (λ (d : RemainingCandidate F). f d.item) (to_remaining ops window) ≡ total f window
  start_total f =
      sym (total-map (λ n. n) (λ (d : RemainingCandidate F). f d.item) (to_remaining ops window))
      ∙ ap (total (λ n. n)) (map-to_remaining ops f window)
      ∙ total-map (λ n. n) f window

  start-IsShared : IsShared ops to_lowercase window (start ops to_lowercase window)
  unfolding start new_guardrail total
  start-IsShared = record {
    still = on;
    same_top = refl;
    same_max = refl;
    modes = λ mode. omega (arith, start_total (of_mode mode));
    unknowns = omega (arith, start_total of_none);
    counted = λ _ mode. refl;
    shared = λ mode.
        rw
          (take-short {A = RankedCandidate F} (min (length window) mode_guardrail_top_k) []
            (omega arith))
          (omega arith);
  }

  all_selected :
      (s : Selection F)
      → IsShared ops to_lowercase window s
      → s.remaining ≡ []
      → length s.selected ≡ length window
  unfolding total
  all_selected s h e =
      let same : (f : RankedCandidate F → ℕ)
          → total f s.selected + total (λ (d : RemainingCandidate F). f d.item) s.remaining
            ≡ total f window
          → total f s.selected ≡ total f window =
        λ f k.
          let none_left : total (λ (d : RemainingCandidate F). f d.item) s.remaining ≡ 0 =
            rw e refl in
          omega (arith, k, none_left) in
      omega (
        arith,
        length-total s.selected,
        length-total window,
        same of_none h.unknowns,
        sum_of-eq (λ m. total (of_mode m) s.selected) (λ m. total (of_mode m) window) families
            (λ m. same (of_mode m) (h.modes m)),
      )

module _ {F : Type 0} (ops : FloatOps F) (to_lowercase : List ℕ → List ℕ) (lambda : F)
    (explore_slots tie_seed : ℕ) where
  -- Of two candidates or more, where the guardrail of the window of 200 is enabled, the re-ranking
  -- returns, and no mode has more than three fifths of `top_k` among the first `top_k` candidates of
  -- the result.
  pub mmr_rerank-share :
      (items : List (RankedCandidate F))
      → 1 < length items
      → let guard =
          new_guardrail (window_of ops to_lowercase lambda explore_slots tie_seed items) in
        guard.enabled ≡ true
        → (out : List (RankedCandidate F)) × (mmr_rerank_with_tie_seed ops to_lowercase items lambda
              explore_slots tie_seed
            ≡ some out)
          × ((mode : ModeFamily)
              → available_per_mode (take guard.top_k out) mode ≤ (guard.top_k * 3) / 5)
  unfolding new_guardrail
  mmr_rerank-share items many on =
      let window = window_of ops to_lowercase lambda explore_slots tie_seed items in
      let tail = tail_of ops to_lowercase lambda explore_slots tie_seed items in
      let cutoff = cutoff_of ops to_lowercase lambda explore_slots tie_seed items in
      let slots = min explore_slots 2 in
      let (s, run, h, e) =
        mmr_rerank-keeps ops to_lowercase lambda explore_slots tie_seed items
          (IsShared ops to_lowercase window) many
          (next_state-IsShared ops to_lowercase (unit ops lambda) slots tie_seed cutoff window on)
          (start-IsShared ops to_lowercase (unit ops lambda) slots tie_seed cutoff window on) in
      let filled =
        all_selected ops to_lowercase (unit ops lambda) slots tie_seed cutoff window on s h e in
      let top = (new_guardrail window).top_k in
      (
        s.selected ++ tail,
        run,
        λ mode.
            rw (take-long top s.selected tail (omega (arith, filled)))
              (omega (arith, available-total (take top s.selected) mode, h.shared mode)),
      )
