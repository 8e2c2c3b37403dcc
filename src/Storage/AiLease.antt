-- ===== src/Storage/AiLease.antt =====
-- `acquire_ai_lease` and `release_ai_lease` of crates/storage/src/shared_limits.rs, on the rows of the
-- table `ai_concurrency_leases`. The random text of a new lease is a parameter.
pub mod Concurrency
mod Examples
use lobbytally.Base.{
  ℕ, ◌+◌, ◌*◌, String, len, str_eq, Bool, not, ◌||◌, Option, none, some, List, [], ◌∷◌, ◌++◌, leb,
  ltb, ◌==◌, in_range, if◌then◌else◌, sat_add, length,
}
use lobbytally.Table.{count_where, delete_where}
use lobbytally.Storage.{Result, ok, err, validation, ◌>>◌, refuse_if}

pub record AiLease : Type 0 where
  pub lease_id : String
  pub scope : String
  pub expires_at_ms : ℕ

-- `DELETE … WHERE expires_at_ms <= now`
abbrev pub is_over : ℕ → AiLease → Bool
is_over now r = leb r.expires_at_ms now

abbrev pub in_scope : String → AiLease → Bool
in_scope scope r = str_eq r.scope scope

unfoldable pub acquire_ai_lease :
    String → String → ℕ → ℕ → ℕ → ℕ → List AiLease → Result (Option String × List AiLease)
acquire_ai_lease random scope scope_limit global_limit ttl_seconds now leases = do
  refuse_if
      ((len scope == 0)
        || (ltb 256 (len scope)
            || ((scope_limit == 0) || ((global_limit == 0) || not (in_range 1 600 ttl_seconds)))))
      (validation "invalid AI concurrency budget")
  let live = delete_where (is_over now) leases
  ok (
      if leb global_limit (length live) || leb scope_limit (count_where (in_scope scope) live)
      then (none, live)
      else (
        some random,
        live
            ++ record {
              lease_id = random;
              scope = scope;
              expires_at_ms = sat_add now (ttl_seconds * 1000);
            }
              ∷ [],
      ))

unfoldable pub release_ai_lease : String → List AiLease → List AiLease
release_ai_lease lease_id leases = delete_where (λ r. str_eq r.lease_id lease_id) leases
