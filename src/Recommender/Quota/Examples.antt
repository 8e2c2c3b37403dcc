-- ===== src/Recommender/Quota/Examples.antt =====
-- Four games, of which the fresh one comes last, with whole numbers in the place of floating point
-- numbers.
use lobbytally.Base.{
  ℕ, ◌+◌, ◌-◌, ◌*◌, ◌/◌, ◌≤◌, ◌≡◌, refl, max, min, Bool, true, false, none, List, [], ◌∷◌, length,
  map, leb, ltb, ◌==◌, if◌then◌else◌,
}
use lobbytally.Table.{count_where}
use lobbytally.Recommender.{FloatOps, less, equal, greater, base, RankedCandidate, known_mode}
use lobbytally.Recommender.Mmr.Guardrail.{respects_mode_guardrail}
use lobbytally.Recommender.Quota.{ensure_fresh_release_quota}
use lobbytally.Recommender.Quota.Kept.{ensure_fresh_release_quota-keeps}
use lobbytally.Recommender.Quota.Promotion.{fresh_in}
use lobbytally.Recommender.Quota.Window.{ensure_fresh_release_quota-fresh_in}

-- A number stands for that many thousandths.
abbrev thousandths : FloatOps ℕ
thousandths = record {
  add = λ a b. a + b;
  sub = λ a b. a - b;
  mul = λ a b. (a * b) / 1000;
  div = λ a b. (a * 1000) / b;
  max_of = max;
  abs = λ a. a;
  clamp_unit = λ a. min a 1000;
  ratio = λ n d. (n * 1000) / d;
  neg_infinity = 0;
  is_nan = λ a. false;
  is_finite = λ a. true;
  is_zero = λ a. a == 0;
  at_least = λ a b. leb b a;
  total_cmp = λ a b. if ltb a b then less else if ltb b a then greater else equal;
}

abbrev release : ℕ → ℕ → RankedCandidate ℕ
release id freshness = record {
  app_id = id;
  dominant_mode = none;
  taxonomy_tags = [];
  publisher = none;
  series = none;
  data_confidence = 800;
  score = record { relevance_score = 500; quality = 500; freshness = freshness };
  slot_reason = base;
}

abbrev releases : List (RankedCandidate ℕ)
releases = release 1 100 ∷ release 2 200 ∷ release 3 300 ∷ release 4 990 ∷ []

abbrev is_first : RankedCandidate ℕ → Bool
is_first item = item.app_id == 1

ensure_fresh_release_quota-keeps_example :
    (count_where is_first (ensure_fresh_release_quota thousandths 2 1 releases)
      ≡ count_where is_first releases)
    × (respects_mode_guardrail releases ≡ true
        → respects_mode_guardrail (ensure_fresh_release_quota thousandths 2 1 releases) ≡ true)
ensure_fresh_release_quota-keeps_example =
    ensure_fresh_release_quota-keeps thousandths 2 1 releases is_first (λ x. refl)

ensure_fresh_release_quota-fresh_in_example :
    (fresh_in thousandths (min 2 (length releases)) releases
      ≤ fresh_in thousandths
          (min 2 (length releases))
          (ensure_fresh_release_quota thousandths 2 1 releases))
    × (fresh_in thousandths
          (min 2 (length releases))
          (ensure_fresh_release_quota thousandths 2 1 releases)
        ≤ max
            (fresh_in thousandths (min 2 (length releases)) releases)
            (min 1 (min 2 (length releases))))
ensure_fresh_release_quota-fresh_in_example =
    ensure_fresh_release_quota-fresh_in thousandths 2 1 releases

-- The fresh one takes the last place of the window.
promoted :
    map
      (λ (item : RankedCandidate ℕ). item.app_id)
      (ensure_fresh_release_quota thousandths 2 1 releases)
    ≡ 1 ∷ 4 ∷ 3 ∷ 2 ∷ []
unfolding ensure_fresh_release_quota count_where known_mode
promoted = refl
