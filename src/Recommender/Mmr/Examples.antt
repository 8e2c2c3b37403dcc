-- ===== src/Recommender/Mmr/Examples.antt =====
-- A pool of six games, with whole numbers in the place of floating point numbers.
use mathlib.Core.List.{Perm}
use lobbytally.Base.{
  ℕ, ◌+◌, ◌-◌, ◌*◌, ◌/◌, ◌≤◌, ◌≡◌, refl, max, min, String, true, false, none, some, List, [], ◌∷◌,
  arith, take, leb, ltb, ◌==◌, if◌then◌else◌, trim, trim_start, trim_end, put_before, is_whitespace,
  to_ascii_lowercase, eq_codes,
}
use lobbytally.Table.{Distinct, count_where, order_by, insert_by}
use lobbytally.Recommender.Mmr.Unique.{app_ids, baseline-Distinct}
use lobbytally.Domain.{ModeFamily}
use lobbytally.Domain.Alias.{from_alias, normalize, family_of, matches, contains_one, join_char}
use lobbytally.Recommender.{unit, known_mode, FloatOps, less, equal, greater, base, RankedCandidate}
use lobbytally.Recommender.Mmr.Baseline.{compare_nat, compare_baseline, relevance}
use lobbytally.Recommender.Mmr.Guardrail.{
  available_per_mode, unknown_count, new_guardrail, feasible_capacity, sum_of, bump,
}
use lobbytally.Recommender.Mmr.Rerank.{
  retain_first, contains_id, baseline, mmr_rerank_with_tie_seed,
}
use lobbytally.Recommender.Mmr.Outcome.{window_of}
use lobbytally.Recommender.Mmr.Permutation.{unslotted, mmr_rerank-perm}
use lobbytally.Recommender.Mmr.Exploration.{is_exploration, InWindow, mmr_rerank-exploration}
use lobbytally.Recommender.Mmr.Visible.{mmr_rerank-share}

-- A number stands for that many hundredths.
abbrev hundredths : FloatOps ℕ
hundredths = record {
  add = λ a b. a + b;
  sub = λ a b. a - b;
  mul = λ a b. (a * b) / 100;
  div = λ a b. (a * 100) / b;
  max_of = max;
  abs = λ a. a;
  clamp_unit = λ a. min a 100;
  ratio = λ n d. (n * 100) / d;
  neg_infinity = 0;
  is_nan = λ a. false;
  is_finite = λ a. true;
  is_zero = λ a. a == 0;
  at_least = λ a b. leb b a;
  total_cmp = λ a b. if ltb a b then less else if ltb b a then greater else equal;
}

abbrev same_text : List ℕ → List ℕ
same_text text = text

abbrev game : ℕ → String → ℕ → RankedCandidate ℕ
game id mode relevance = record {
  app_id = id;
  dominant_mode = some mode;
  taxonomy_tags = [];
  publisher = none;
  series = none;
  data_confidence = 80;
  score = record { relevance_score = relevance; quality = 50; freshness = 50 };
  slot_reason = base;
}

abbrev pool : List (RankedCandidate ℕ)
pool =
    game 1 "coop" 90
    ∷ game 2 "coop" 80
    ∷ game 3 "pvp" 70
    ∷ game 4 "self_hosted" 60
    ∷ game 5 "coop" 95
    ∷ game 1 "coop" 85
    ∷ []

mmr_rerank-perm_example :
    (out : List (RankedCandidate ℕ)) × (mmr_rerank_with_tie_seed hundredths same_text pool 85 2 0
      ≡ some out)
    × Perm (unslotted (baseline hundredths same_text 0 pool)) (unslotted out)
mmr_rerank-perm_example = mmr_rerank-perm hundredths same_text 85 2 0 pool (omega arith)

mmr_rerank-exploration_example :
    (out : List (RankedCandidate ℕ)) × (mmr_rerank_with_tie_seed hundredths same_text pool 85 3 0
      ≡ some out)
    × (count_where is_exploration out ≤ min 3 2)
    × InWindow 0 out
mmr_rerank-exploration_example =
    mmr_rerank-exploration hundredths same_text 85 3 0 pool (omega arith)

pool_is_guarded : (new_guardrail (window_of hundredths same_text 85 2 0 pool)).enabled ≡ true
unfolding new_guardrail baseline retain_first contains_id order_by insert_by compare_baseline
    relevance unit feasible_capacity sum_of available_per_mode unknown_count known_mode from_alias
    normalize family_of matches contains_one bump trim trim_start trim_end put_before is_whitespace
    to_ascii_lowercase eq_codes join_char compare_nat
pool_is_guarded = refl

mmr_rerank-share_example :
    let guard = new_guardrail (window_of hundredths same_text 85 2 0 pool) in
    (out : List (RankedCandidate ℕ)) × (mmr_rerank_with_tie_seed hundredths same_text pool 85 2 0
      ≡ some out)
    × ((mode : ModeFamily) → available_per_mode (take guard.top_k out) mode ≤ (guard.top_k * 3) / 5)
mmr_rerank-share_example =
    mmr_rerank-share hundredths same_text 85 2 0 pool (omega arith) pool_is_guarded

baseline-Distinct_example : Distinct (app_ids (baseline hundredths same_text 0 pool))
baseline-Distinct_example = baseline-Distinct hundredths same_text 0 pool
