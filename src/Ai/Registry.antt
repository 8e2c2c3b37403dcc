-- ===== src/Ai/Registry.antt =====
-- crates/ai/src/model_registry.rs: which models may be tried. An operation that reads the clock takes
-- the instant that it reads.
pub mod Availability
mod Examples
use lobbytally.Base.{
  ℕ, ◌-◌, ◌*◌, String, Bool, true, false, not, ◌&&◌, Option, none, some, List, [], ◌∷◌, map, ltb,
  if◌then◌else◌, lookup, store,
}
use lobbytally.Ai.{ApiProtocol, ModelCapabilities, unavailable}

pub record RegistrySnapshot : Type 0 where
  pub models : List (String × ModelCapabilities)
  pub fetched_at : ℕ
  pub ttl : ℕ
  pub authoritative : Bool

abbrev pub ModelRegistry : Type 0
ModelRegistry = Option RegistrySnapshot

-- `Duration::from_secs(300)`
abbrev pub default_registry_ttl : ℕ
default_registry_ttl = 300 * 1000000000

unfoldable pub snapshot_is_fresh : ℕ → RegistrySnapshot → Bool
snapshot_is_fresh now snap = ltb (now - snap.fetched_at) snap.ttl

unfoldable pub is_fresh : ℕ → ModelRegistry → Bool
unfolding snapshot_is_fresh
is_fresh now none = false
is_fresh now (some snap) = snapshot_is_fresh now snap

unfoldable pub insert_all :
    List ModelCapabilities → List (String × ModelCapabilities) → List (String × ModelCapabilities)
insert_all [] entries = entries
insert_all (caps ∷ rest) entries = insert_all rest (store caps.model caps entries)

unfoldable pub replace_models : ℕ → List ModelCapabilities → ℕ → ModelRegistry
unfolding insert_all
replace_models now models ttl =
    some
      (record { models = insert_all models []; fetched_at = now; ttl = ttl; authoritative = true })

unfoldable pub get : ModelRegistry → String → Option ModelCapabilities
get none model = none
get (some snap) model = lookup model snap.models

abbrev pub allowed_by : Bool → Option ModelCapabilities → Bool
allowed_by authoritative none = not authoritative
allowed_by authoritative (some caps) = caps.available

unfoldable pub is_model_allowed : ℕ → ModelRegistry → String → Bool
unfolding snapshot_is_fresh
is_model_allowed now none model = true
is_model_allowed now (some snap) model =
    if snapshot_is_fresh now snap
    then allowed_by snap.authoritative (lookup model snap.models)
    else true

-- The snapshot that an observation starts where there is none.
unfoldable pub partial_snapshot : ℕ → RegistrySnapshot
partial_snapshot now = record {
  models = [];
  fetched_at = now;
  ttl = default_registry_ttl;
  authoritative = false;
}

abbrev pub shut_off : String → Option ModelCapabilities → ModelCapabilities
shut_off model none = unavailable model
shut_off model (some caps) = record caps { available = false }

unfoldable pub mark_in : String → RegistrySnapshot → RegistrySnapshot
mark_in model snap = record snap {
  models = store model (shut_off model (lookup model snap.models)) snap.models;
}

unfoldable pub mark_unavailable : ℕ → ModelRegistry → String → ModelRegistry
unfolding mark_in partial_snapshot
mark_unavailable now none model = some (mark_in model (partial_snapshot now))
mark_unavailable now (some snap) model = some (mark_in model snap)

abbrev pub caps_or_new : String → Option ModelCapabilities → ModelCapabilities
caps_or_new model none = record (unavailable model) { structured_json = true; available = true }
caps_or_new model (some caps) = caps

abbrev pub with_protocol : ApiProtocol → ModelCapabilities → ModelCapabilities
with_protocol ApiProtocol.chat_completions caps = record caps { chat_completions = true }
with_protocol ApiProtocol.responses caps = record caps { responses = true }

unfoldable pub record_in : String → ApiProtocol → RegistrySnapshot → RegistrySnapshot
unfolding unavailable
record_in model protocol snap = record snap {
  models =
      store model
        (with_protocol protocol (record (caps_or_new model (lookup model snap.models)) {
          available = true;
          structured_json = true;
        }))
        snap.models;
}

unfoldable pub record_protocol_success : ℕ → ModelRegistry → String → ApiProtocol → ModelRegistry
unfolding record_in partial_snapshot
record_protocol_success now none model protocol =
    some (record_in model protocol (partial_snapshot now))
record_protocol_success now (some snap) model protocol = some (record_in model protocol snap)

abbrev pub without_protocol : ApiProtocol → ModelCapabilities → ModelCapabilities
without_protocol ApiProtocol.chat_completions caps = record caps { chat_completions = false }
without_protocol ApiProtocol.responses caps = record caps { responses = false }

abbrev pub drop_if_unusable : ModelCapabilities → ModelCapabilities
drop_if_unusable caps =
    if not caps.chat_completions && not caps.responses
    then record caps { available = false; structured_json = false }
    else caps

unfoldable pub apply_canary_result : ModelCapabilities → ApiProtocol → Bool → ModelCapabilities
apply_canary_result caps protocol structured_ok =
    if not structured_ok
    then drop_if_unusable (without_protocol protocol caps)
    else with_protocol protocol (record caps { available = true; structured_json = true })

unfoldable pub capabilities_from_model_ids : List String → List ModelCapabilities
unfolding unavailable
capabilities_from_model_ids = map (λ (model : String). record (unavailable model) {
  chat_completions = true;
  responses = true;
  structured_json = true;
  available = true;
})
