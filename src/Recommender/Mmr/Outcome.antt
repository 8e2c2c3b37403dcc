-- ===== src/Recommender/Mmr/Outcome.antt =====
-- The whole re-ranking as a run of rounds, and the candidates that it returns.
use mathlib.Core.List.{Perm}
use mathlib.Core.List.Perm
use lobbytally.Base.{
  ℕ, zero, suc, ◌<◌, ◌≡◌, refl, sym, ap, ◌∙◌, false, Option, none, some, List, [], ◌∷◌, ◌++◌, map,
  arith, length, length-map, map-map, take, drop, leb, min,
}
use lobbytally.Recommender.{FloatOps, unit, RankedCandidate}
use lobbytally.Recommender.Mmr.Choice.{RemainingCandidate, enumerate}
use lobbytally.Recommender.Mmr.Rerank.{
  mmr_window_size, remove_at, put_back, nth, Selection, Pick, to_remaining, relevance_of, baseline,
  start, mmr_rerank_with_tie_seed,
}
use lobbytally.Recommender.Mmr.Rounds.{IsPick, next_state, select_all-keeps}

map-enumerate :
    {A B : Type 0} (f : A → B) (xs : List A) → map (λ (e : ℕ × A). f e.1) (enumerate xs) ≡ map f xs
unfolding enumerate
map-enumerate f [] = refl
map-enumerate {A} f (x ∷ xs) = ap (◌∷◌ (f x)) (
    map-map (λ (e : ℕ × A). f e.1) (λ (e : ℕ × A). (suc e.0, e.1)) (enumerate xs)
    ∙ map-enumerate f xs)

pub map-to_remaining :
    {F B : Type 0} (ops : FloatOps F) (f : RankedCandidate F → B) (xs : List (RankedCandidate F))
    → map (λ (c : RemainingCandidate F). f c.item) (to_remaining ops xs) ≡ map f xs
unfolding to_remaining
map-to_remaining {F} ops f xs =
    map-map (λ (c : RemainingCandidate F). f c.item)
      (λ (e : ℕ × RankedCandidate F). record {
        item = e.1;
        baseline_rank = e.0;
        max_similarity = ops.ratio 0 1;
      })
      (enumerate xs)
    ∙ map-enumerate f xs

length-to_remaining :
    {F : Type 0} (ops : FloatOps F) (xs : List (RankedCandidate F))
    → length (to_remaining ops xs) ≡ length xs
length-to_remaining {F} ops xs =
    sym (length-map (λ (c : RemainingCandidate F). tt {0}) (to_remaining ops xs))
    ∙ ap length (map-to_remaining ops (λ x. tt {0}) xs)
    ∙ length-map (λ (x : RankedCandidate F). tt {0}) xs

pub remove_at-perm :
    {A : Type 0} (i : ℕ) (xs : List A) (x : A) (rest : List A)
    → remove_at i xs ≡ some (x, rest)
    → Perm xs (x ∷ rest)
unfolding remove_at
remove_at-perm i [] x rest h = cc
remove_at-perm {A} zero (y ∷ ys) x rest h =
    let a : y ≡ x = cc in let b : ys ≡ rest = cc in rw (a, b) Perm.rfl
remove_at-perm {A} (suc i) (y ∷ ys) x rest h = split (remove_at-perm i ys) (remove_at i ys) refl h
  where
    split :
        ((z : A) (zs : List A) → remove_at i ys ≡ some (z, zs) → Perm ys (z ∷ zs))
        → (o : Option (A × List A)) → remove_at i ys ≡ o
        → put_back y o ≡ some (x, rest)
        → Perm (y ∷ ys) (x ∷ rest)
    split inner none e k = cc
    split inner (some (z, zs)) e k =
        let a : z ≡ x = cc in
        let b : y ∷ zs ≡ rest = cc in
        rw (sym a, sym b) (Perm.trans (Perm.cons y (inner z zs e)) (Perm.swap z y zs))

module _ {F : Type 0} (ops : FloatOps F) (to_lowercase : List ℕ → List ℕ) (lambda : F)
    (explore_slots tie_seed : ℕ) where
  abbrev pub window_of : List (RankedCandidate F) → List (RankedCandidate F)
  window_of items = take mmr_window_size (baseline ops to_lowercase tie_seed items)

  abbrev pub tail_of : List (RankedCandidate F) → List (RankedCandidate F)
  tail_of items = drop mmr_window_size (baseline ops to_lowercase tie_seed items)

  abbrev pub cutoff_of : List (RankedCandidate F) → Option F
  cutoff_of items = relevance_of ops (nth 11 (window_of items))

  -- What every round keeps holds of the candidates that the re-ranking selects.
  pub mmr_rerank-keeps :
      (items : List (RankedCandidate F)) (P : Selection F → Type 0)
      → 1 < length items
      → ((s : Selection F) (p : Pick) (c : RemainingCandidate F)
            (rest : List (RemainingCandidate F))
          → P s
          → IsPick ops to_lowercase
              (unit ops lambda)
              (min explore_slots 2)
              tie_seed
              (cutoff_of items)
              s
              p
              c
              rest
          → P (
              next_state ops to_lowercase
                (unit ops lambda)
                (min explore_slots 2)
                tie_seed
                (cutoff_of items)
                s
                p
                c
                rest))
      → P (start ops to_lowercase (window_of items))
      → (s' : Selection F) × (mmr_rerank_with_tie_seed ops to_lowercase items lambda explore_slots
            tie_seed
          ≡ some (s'.selected ++ tail_of items))
        × P s'
        × (s'.remaining ≡ [])
  unfolding mmr_rerank_with_tie_seed start
  mmr_rerank-keeps items P many keep h =
      let window = window_of items in
      let more : leb (length items) 1 ≡ false = ground arith in
      let (s', run, q, e) =
        select_all-keeps ops to_lowercase (unit ops lambda) (min explore_slots 2) tie_seed
          (cutoff_of items) P keep (length window) (start ops to_lowercase window)
          (omega (arith, length-to_remaining ops window)) h in
      let more : leb (length items) 1 ≡ false = ground arith in (s', rw (more, run) refl, q, e)
