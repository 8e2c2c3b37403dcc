-- ===== src/Storage/HttpLimit.antt =====
-- `consume_http_limit` of crates/storage/src/shared_limits.rs, on the rows of the table
-- `http_rate_limits`. The advisory lock makes a call atomic; the order of a BTreeSet, by which keys
-- are tested and written, decides nothing and is the order in which they are given.
pub mod Rows
pub mod Charge
pub mod Keys
pub mod Rate
mod Examples
use Prim.Native.Char.{code}
use mathlib.Core.Option
use lobbytally.Base.{
  has_name, ℕ, ◌+◌, ◌-◌, ◌*◌, ◌/◌, String, len, str_eq, str_append, Bool, true, false, not, ◌&&◌,
  ◌||◌, Option, none, some, List, [], ◌∷◌, ◌++◌, map, leb, ltb, ◌==◌, in_range, if◌then◌else◌,
  i64_max, length, codes, eq_codes,
}
use lobbytally.Table.{delete_where, find_where}
use lobbytally.Storage.{Result, ok, err, validation, ◌>>◌, ◌>>=◌, refuse_if}

pub record HttpRate : Type 0 where
  pub scope : String
  pub window_started_at_ms : ℕ
  pub request_count : ℕ

-- `text.split_once(':').map(|(prefix, _)| prefix)`
unfoldable pub prefix_of : String → Option String
prefix_of String.[] = none
prefix_of (String.◌∷◌ c s) =
    let rest = prefix_of s in if code c == 58 then some "" else Option.map (String.◌∷◌ c) rest

unfoldable pub is_namespace_text : String → Bool
is_namespace_text String.[] = true
is_namespace_text (String.◌∷◌ c s) =
    (in_range 97 122 (code c) || code c == 95) && is_namespace_text s

-- `str::ends_with`, on code points.
unfoldable pub ends_with : List ℕ → List ℕ → Bool
unfolding eq_codes
ends_with part [] = eq_codes part []
ends_with part (c ∷ cs) = eq_codes part (c ∷ cs) || ends_with part cs

abbrev pub is_global : String → Bool
is_global key = ends_with (codes ":global") (codes key)

abbrev pub has_prefix : String → Option String → Bool
has_prefix namespace none = false
has_prefix namespace (some prefix) = str_eq prefix namespace

abbrev no_namespace : {A : Type 0} → Result A
no_namespace = err (validation "request budget keys require a namespace prefix")

abbrev pub namespace_from : Option String → Result String
namespace_from none = no_namespace
namespace_from (some prefix) =
    if not (len prefix == 0) && is_namespace_text prefix then ok prefix else no_namespace

-- The namespace of the first key.
unfoldable pub namespace_of : List String → Result String
unfolding prefix_of is_namespace_text
namespace_of [] = no_namespace
namespace_of (key ∷ keys) = namespace_from (prefix_of key)

-- `BTreeSet::insert`
unfoldable pub insert_key : String → List String → List String
unfolding has_name
insert_key key keys = if has_name keys key then keys else keys ++ key ∷ []

-- A key that the loop over the keys refuses.
unfoldable pub is_foreign : String → String → Bool
unfolding prefix_of ends_with
is_foreign namespace key =
    ltb 256 (len key) || (not (has_prefix namespace (prefix_of key)) || is_global key)

unfoldable pub key_set : String → List String → List String → Result (List String)
unfolding is_foreign insert_key
key_set namespace keys [] = ok keys
key_set namespace keys (key ∷ rest) = do
  refuse_if (is_foreign namespace key) (validation "request budget keys must share a namespace")
  key_set namespace (insert_key key keys) rest

abbrev pub global_key : String → String
global_key namespace = str_append namespace ":global"

abbrev pub budgets_of : List String → String → ℕ → ℕ → List (String × ℕ)
budgets_of keys namespace identity_limit global_limit =
    map (λ key. (key, identity_limit)) keys ++ (global_key namespace, global_limit) ∷ []

abbrev pub counted_by : Option HttpRate → ℕ
counted_by none = 0
counted_by (some r) = r.request_count

-- The first query: the count of a scope in a window.
unfoldable pub count_in : ℕ → String → List HttpRate → ℕ
count_in start key rows =
    counted_by (find_where (λ r. str_eq r.scope key && r.window_started_at_ms == start) rows)

-- Whether the loop over the budgets ends the call.
unfoldable pub is_exhausted : ℕ → List (String × ℕ) → List HttpRate → Bool
unfolding count_in
is_exhausted start [] rows = false
is_exhausted start ((key, limit) ∷ budgets) rows =
    leb limit (count_in start key rows) || is_exhausted start budgets rows

-- `INSERT … ON CONFLICT (scope) DO UPDATE …`
unfoldable pub bump : ℕ → HttpRate → HttpRate
bump start r = record r {
  window_started_at_ms = start;
  request_count = if r.window_started_at_ms == start then r.request_count + 1 else 1;
}

unfoldable pub count_request : ℕ → String → List HttpRate → List HttpRate
unfolding bump
count_request start key [] =
    record { scope = key; window_started_at_ms = start; request_count = 1 } ∷ []
count_request start key (r ∷ rows) =
    let rest = count_request start key rows in
    if str_eq r.scope key then bump start r ∷ rows else r ∷ rest

unfoldable pub count_all : ℕ → List (String × ℕ) → List HttpRate → List HttpRate
unfolding count_request
count_all start [] rows = rows
count_all start ((key, limit) ∷ budgets) rows =
    count_all start budgets (count_request start key rows)

abbrev pub window_start : ℕ → ℕ → ℕ
window_start window_seconds now = now / (window_seconds * 1000) * (window_seconds * 1000)

-- `DELETE … WHERE window_started_at_ms < now - 2 h`
abbrev pub is_old : ℕ → HttpRate → Bool
is_old now r = ltb r.window_started_at_ms (now - 2 * 60 * 60 * 1000)

-- The transaction, with the keys that were accepted.
unfoldable pub charge : ℕ → ℕ → List (String × ℕ) → List HttpRate → Bool × List HttpRate
unfolding is_exhausted count_all
charge start now budgets rows =
    let live = delete_where (is_old now) rows in
    if is_exhausted start budgets live then (false, live) else (true, count_all start budgets live)

unfoldable pub consume_http_limit :
    List String → ℕ → ℕ → ℕ → ℕ → List HttpRate → Result (Bool × List HttpRate)
unfolding namespace_of key_set charge
consume_http_limit identity_keys identity_limit global_limit window_seconds now rows = do
  refuse_if (ltb i64_max identity_limit) (validation "identity request limit is too large")
  refuse_if (ltb i64_max global_limit) (validation "global request limit is too large")
  refuse_if
      ((length identity_keys == 0)
        || (ltb 8 (length identity_keys)
            || ((identity_limit == 0)
                || ((global_limit == 0) || not (in_range 1 3600 window_seconds)))))
      (validation "invalid shared request budget")
  namespace ← namespace_of identity_keys
  keys ← key_set namespace [] identity_keys
  ok (
      charge (window_start window_seconds now) now
        (budgets_of keys namespace identity_limit global_limit) rows)
