-- ===== src/Recommender/Quota/Promotion.antt =====
-- How many fresh releases `ensure_fresh_release_quota` of crates/recommender/src/pipeline.rs leaves in
-- the window.
use lobbytally.Base.{
  ℕ, zero, suc, ◌+◌, ◌<◌, ◌≤◌, ◌≡◌, ◌≢◌, refl, ap, subst, ◌∙◌, inl, inr, true, false, some, List,
  [], ◌∷◌, take, drop, Bool-cases, arith, All, All-imp, All-append,
}
use lobbytally.Table.{count_where}
use lobbytally.Recommender.{FloatOps, RankedCandidate}
use lobbytally.Recommender.Quota.{
  get_at, swap, mark_explore, destinations_from, sources_from, is_fresh_release, is_stale,
}
use lobbytally.Recommender.Quota.Places.{count_where-take-swap, get_at-swap_other}
use lobbytally.Recommender.Quota.Kept.{count_where-mark_explore, take-mark_explore}

module _ {A : Type 0} where
  get_at-take-some :
      (w i : ℕ) (y : A) (xs : List A)
      → get_at i (take w xs) ≡ some y
      → (i < w) × (get_at i xs ≡ some y)
  unfolding get_at
  get_at-take-some zero i y xs h = cc
  get_at-take-some (suc w) i y [] h = cc
  get_at-take-some (suc w) zero y (x ∷ xs) h = (omega arith, h)
  get_at-take-some (suc w) (suc i) y (x ∷ xs) h =
      let (inside, found) = get_at-take-some w i y xs h in (omega (arith, inside), found)

  pub get_at-drop : (w k : ℕ) (xs : List A) → get_at (w + k) xs ≡ get_at k (drop w xs)
  unfolding get_at
  get_at-drop zero k xs = rw (zero_left k) refl
    where
      zero_left : (n : ℕ) → 0 + n ≡ n
      zero_left n = omega arith
  get_at-drop (suc w) k [] = refl
  get_at-drop (suc w) k (x ∷ xs) =
      let shift : suc w + k ≡ suc (w + k) = omega arith in rw shift (get_at-drop w k xs)

module _ {F : Type 0} (ops : FloatOps F) where
  abbrev pub StaleAt : ℕ → List (RankedCandidate F) → ℕ → Type 0
  StaleAt i xs d =
      (k : ℕ) × (y : RankedCandidate F) × (d ≡ i + k)
      × (get_at k xs ≡ some y)
      × (is_stale ops y ≡ true)

  pub destinations_from-All :
      (i : ℕ) (xs : List (RankedCandidate F)) → All (StaleAt i xs) (destinations_from ops i xs)
  unfolding destinations_from get_at
  destinations_from-All i [] = tt
  destinations_from-All i (x ∷ xs) =
      let later =
        All-imp (destinations_from ops (suc i) xs) (λ (d : ℕ) (h : StaleAt (suc i) xs d). moved d h)
          (destinations_from-All (suc i) xs) in
      elim (Bool-cases (is_stale ops x)) [
        | inl e ↦ rw e (
            All-append (StaleAt i (x ∷ xs)) (destinations_from ops (suc i) xs) (i ∷ []) later
              ((0, x, omega arith, refl, e), tt))
        | inr e ↦
            rw e (All-append (StaleAt i (x ∷ xs)) (destinations_from ops (suc i) xs) [] later tt)
      ]
    where
      moved : (d : ℕ) → StaleAt (suc i) xs d → StaleAt i (x ∷ xs) d
      moved d (k, y, place, found, stale) = (suc k, y, omega (arith, place), found, stale)

  abbrev pub FreshAt : List (RankedCandidate F) → ℕ → Type 0
  FreshAt items s =
      (x : RankedCandidate F) × (get_at s items ≡ some x) × (is_fresh_release ops x ≡ true)

  -- Sources behind the window, in order, each a fresh release.
  abbrev pub Ready : ℕ → List (RankedCandidate F) → List ℕ → Type 0
  Ready w items [] = Unit
  Ready w items (s ∷ ss) = (w ≤ s) × FreshAt items s × All (λ t. s < t) ss × Ready w items ss

  sources_from-All :
      (i : ℕ) (xs : List (RankedCandidate F)) → All (λ t. i ≤ t) (sources_from ops i xs)
  unfolding sources_from
  sources_from-All i [] = tt
  sources_from-All i (x ∷ xs) =
      let later =
        All-imp (sources_from ops (suc i) xs) (λ (t : ℕ) (h : suc i ≤ t). lower t h)
          (sources_from-All (suc i) xs) in
      elim (Bool-cases (is_fresh_release ops x)) [
        | inl e ↦ rw e (omega arith, later)
        | inr e ↦ rw e later
      ]
    where
      lower : (t : ℕ) → suc i ≤ t → i ≤ t
      lower t h = omega (arith, h)

  pub sources_from-Ready :
      (w i : ℕ) (items xs : List (RankedCandidate F))
      → ((k : ℕ) → get_at (i + k) items ≡ get_at k xs)
      → w ≤ i
      → Ready w items (sources_from ops i xs)
  unfolding sources_from get_at
  sources_from-Ready w i items [] same behind = tt
  sources_from-Ready w i items (x ∷ xs) same behind =
      let later =
        sources_from-Ready w (suc i) items xs
          (λ k. subst (λ n. get_at n items ≡ get_at k xs) (shift k) (same (suc k)))
          (omega (arith, behind)) in
      elim (Bool-cases (is_fresh_release ops x)) [
        | inl e ↦ rw e (
          behind,
          (x, subst (λ n. get_at n items ≡ some x) (no_shift i) (same 0), e),
          sources_from-All (suc i) xs,
          later,
        )
        | inr e ↦ rw e later
      ]
    where
      shift : (k : ℕ) → i + suc k ≡ suc i + k
      shift k = omega arith

      no_shift : (n : ℕ) → n + 0 ≡ n
      no_shift n = omega arith

  get_at-mark_explore :
      (d t : ℕ) (xs : List (RankedCandidate F))
      → d ≢ t
      → get_at t (mark_explore ops d xs) ≡ get_at t xs
  unfolding mark_explore get_at
  get_at-mark_explore d t [] h = refl
  get_at-mark_explore zero zero (x ∷ xs) h = absurd (h refl)
  get_at-mark_explore zero (suc t) (x ∷ xs) h = refl
  get_at-mark_explore (suc d) zero (x ∷ xs) h = refl
  get_at-mark_explore (suc d) (suc t) (x ∷ xs) h = get_at-mark_explore d t xs (λ e. h (ap suc e))

  abbrev pub fresh_in : ℕ → List (RankedCandidate F) → ℕ
  fresh_in w items = count_where (is_fresh_release ops) (take w items)

  -- A promotion brings one more fresh release into the window, and leaves the other places behind it.
  abbrev pub Promoted : ℕ → ℕ → List (RankedCandidate F) → List (RankedCandidate F) → Type 0
  Promoted w s items items' =
      (fresh_in w items' ≡ fresh_in w items + 1)
      × ((t : ℕ) → w ≤ t → s ≢ t → get_at t items' ≡ get_at t items)

  pub swapped-Promoted :
      (w s d : ℕ) (items : List (RankedCandidate F))
      → w ≤ s
      → FreshAt items s
      → StaleAt 0 (take w items) d
      → Promoted w s items (mark_explore ops d (swap d s items))
  swapped-Promoted w s d items behind (x, at_s, fresh) (k, y, place, at_k, stale) =
      let here : k ≡ d = omega (arith, place) in
      let (inside, at_d) =
        get_at-take-some w d y items (subst (λ n. get_at n (take w items) ≡ some y) here at_k) in
      let old : is_fresh_release ops y ≡ false = ground (arith, stale) in
      let counts =
        count_where-take-swap (is_fresh_release ops) w d s y x items at_d at_s inside behind in
      let marked : fresh_in w (mark_explore ops d (swap d s items)) ≡ fresh_in w (swap d s items) =
        ap (count_where (is_fresh_release ops)) (take-mark_explore ops w d (swap d s items))
        ∙ count_where-mark_explore ops (is_fresh_release ops) (λ z. refl) d
            (take w (swap d s items)) in
      (
        ground (arith, counts, marked, old, fresh),
        λ t far other.
            get_at-mark_explore d t (swap d s items) (λ e. omega (arith, e, inside, far))
            ∙ get_at-swap_other d s t items (λ e. omega (arith, e, inside, far)) other,
      )
