-- ===== src/Ai/Registry/Availability.antt =====
-- What the operations of crates/ai/src/model_registry.rs say afterwards of the models' availability.
use lobbytally.Base.{
  has_name, ℕ, ◌-◌, ◌≡◌, refl, ◌∙◌, inl, inr, String, str_eq, Bool, true, false, not, ◌&&◌, ◌||◌,
  Option, none, some, List, [], ◌∷◌, ltb, if◌then◌else◌, lookup, store, lookup-store, Bool-cases,
  arith,
}
use lobbytally.Ai.{ApiProtocol, ModelCapabilities, unavailable}
use lobbytally.Ai.Registry.{
  RegistrySnapshot, ModelRegistry, snapshot_is_fresh, is_fresh, insert_all, replace_models,
  is_model_allowed, partial_snapshot, shut_off, mark_in, mark_unavailable, caps_or_new,
  with_protocol, record_in, record_protocol_success, capabilities_from_model_ids,
}

with_protocol_available :
    (protocol : ApiProtocol) (caps : ModelCapabilities)
    → (with_protocol protocol caps).available ≡ caps.available
with_protocol_available ApiProtocol.chat_completions caps = refl
with_protocol_available ApiProtocol.responses caps = refl

-- Storing one entry in a snapshot.
allowed-store :
    (t : ℕ) (model other : String) (caps : ModelCapabilities) (snap : RegistrySnapshot)
    → is_model_allowed t (some (record snap { models = store model caps snap.models })) other ≡ (
        if str_eq model other && snapshot_is_fresh t snap
        then caps.available
        else is_model_allowed t (some snap) other)
unfolding is_model_allowed snapshot_is_fresh
allowed-store t model other caps snap =
    let law = lookup-store model other caps snap.models in
    elim (Bool-cases (ltb (t - snap.fetched_at) snap.ttl)) [
      | inl f ↦ elim (Bool-cases (str_eq model other)) [
        | inl e ↦ rw (f, law, e) refl
        | inr e ↦ rw (f, law, e) refl
      ]
      | inr f ↦ elim (Bool-cases (str_eq model other)) [
        | inl e ↦ rw (f, e) refl
        | inr e ↦ rw (f, e) refl
      ]
    ]

-- The snapshot that an observation starts allows every model.
partial_snapshot-allows :
    (t now : ℕ) (other : String) → is_model_allowed t (some (partial_snapshot now)) other ≡ true
unfolding is_model_allowed partial_snapshot snapshot_is_fresh lookup
partial_snapshot-allows t now other = ground arith

shut_off_available :
    (model : String) (o : Option ModelCapabilities) → (shut_off model o).available ≡ false
unfolding unavailable
shut_off_available model none = refl
shut_off_available model (some caps) = refl

mark_in_lem :
    (t : ℕ) (model other : String) (snap : RegistrySnapshot)
    → is_model_allowed t (some (mark_in model snap)) other ≡ (
        not (str_eq model other && snapshot_is_fresh t snap)
        && is_model_allowed t (some snap) other)
unfolding mark_in
mark_in_lem t model other snap =
    let caps = shut_off model (lookup model snap.models) in
    let shut = shut_off_available model (lookup model snap.models) in
    allowed-store t model other caps snap
    ∙ elim (Bool-cases (str_eq model other && snapshot_is_fresh t snap)) [
      | inl e ↦ rw (e, shut) refl
      | inr e ↦ rw e refl
    ]

mark_in_fresh :
    (t : ℕ) (model : String) (snap : RegistrySnapshot)
    → is_fresh t (some (mark_in model snap)) ≡ snapshot_is_fresh t snap
unfolding is_fresh mark_in snapshot_is_fresh
mark_in_fresh t model snap = refl

allowed_empty : (t : ℕ) (other : String) → is_model_allowed t none other ≡ true
unfolding is_model_allowed
allowed_empty t other = refl

-- After a model was marked unavailable, at any time, a model may be tried exactly when it might be before
-- and is not that model, or the snapshot is no longer fresh.
pub mark_unavailable_lem :
    (t now : ℕ) (registry : ModelRegistry) (model other : String)
    → is_model_allowed t (mark_unavailable now registry model) other ≡ (
        not (str_eq model other && is_fresh t (mark_unavailable now registry model))
        && is_model_allowed t registry other)
unfolding mark_unavailable
mark_unavailable_lem t now none model other =
    rw
      (
        mark_in_fresh t model (partial_snapshot now),
        allowed_empty t other,
        mark_in_lem t model other (partial_snapshot now),
        partial_snapshot-allows t now other,
      )
      refl
mark_unavailable_lem t now (some snap) model other =
    rw (mark_in_fresh t model snap) (mark_in_lem t model other snap)

stale_allows :
    (t : ℕ) (other : String) (snap : RegistrySnapshot)
    → snapshot_is_fresh t snap ≡ false
    → is_model_allowed t (some snap) other ≡ true
unfolding is_model_allowed
stale_allows t other snap stale = rw stale refl

record_in_lem :
    (t : ℕ) (model other : String) (protocol : ApiProtocol) (snap : RegistrySnapshot)
    → is_model_allowed t (some (record_in model protocol snap)) other
      ≡ (str_eq model other || is_model_allowed t (some snap) other)
unfolding record_in
record_in_lem t model other protocol snap =
    let caps = record (caps_or_new model (lookup model snap.models)) {
      available = true;
      structured_json = true;
    } in
    let law = allowed-store t model other (with_protocol protocol caps) snap in
    law ∙ elim (Bool-cases (str_eq model other)) [
      | inl e ↦ elim (Bool-cases (snapshot_is_fresh t snap)) [
        | inl f ↦ rw (e, f, with_protocol_available protocol caps) refl
        | inr f ↦ rw (e, f, stale_allows t other snap f) refl
      ]
      | inr e ↦ rw e refl
    ]

-- After a model answered over a protocol, it may be tried at any time, and whether another may does
-- not change.
pub record_protocol_success_lem :
    (t now : ℕ) (registry : ModelRegistry) (model other : String) (protocol : ApiProtocol)
    → is_model_allowed t (record_protocol_success now registry model protocol) other
      ≡ (str_eq model other || is_model_allowed t registry other)
unfolding record_protocol_success
record_protocol_success_lem t now none model other protocol =
    rw
      (
        allowed_empty t other,
        record_in_lem t model other protocol (partial_snapshot now),
        partial_snapshot-allows t now other,
      )
      refl
record_protocol_success_lem t now (some snap) model other protocol =
    record_in_lem t model other protocol snap

insert_all-allowed :
    (t : ℕ) (ids : List String) (snap : RegistrySnapshot) (model : String)
    → snapshot_is_fresh t snap ≡ true
    → is_model_allowed t
        (some (record snap { models = insert_all (capabilities_from_model_ids ids) snap.models }))
        model
      ≡ (has_name ids model || is_model_allowed t (some snap) model)
unfolding insert_all has_name capabilities_from_model_ids
insert_all-allowed t [] snap model fresh = refl
insert_all-allowed t (id ∷ ids) snap model fresh =
    let caps = record (unavailable id) {
      chat_completions = true;
      responses = true;
      structured_json = true;
      available = true;
    } in
    let next = record snap { models = store id caps snap.models } in
    let still : snapshot_is_fresh t next ≡ true = unfold snapshot_is_fresh in fresh in
    let ih = insert_all-allowed t ids next model still in
    ih
    ∙ rw (allowed-store t id model caps snap, fresh)
        (joined (str_eq id model) (has_name ids model) (is_model_allowed t (some snap) model))
  where
    joined :
        (same listed old : Bool)
        → (listed || (if same && true then true else old)) ≡ ((same || listed) || old)
    joined true true old = refl
    joined true false old = refl
    joined false listed old = refl

-- After the registry was replaced by a listing of models, and at any time, a model may be tried exactly
-- when it was listed or the listing is no longer fresh.
pub replace_models_lem :
    (t now ttl : ℕ) (ids : List String) (model : String)
    → is_model_allowed t (replace_models now (capabilities_from_model_ids ids) ttl) model ≡ (
        has_name ids model
        || not (is_fresh t (replace_models now (capabilities_from_model_ids ids) ttl)))
unfolding replace_models is_fresh
replace_models_lem t now ttl ids model =
    let listed : RegistrySnapshot = record {
      models = insert_all (capabilities_from_model_ids ids) [];
      fetched_at = now;
      ttl = ttl;
      authoritative = true;
    } in
    let start : RegistrySnapshot = record {
      models = [];
      fetched_at = now;
      ttl = ttl;
      authoritative = true;
    } in
    let same : snapshot_is_fresh t start ≡ snapshot_is_fresh t listed =
      unfold snapshot_is_fresh in refl in
    elim (Bool-cases (snapshot_is_fresh t listed)) [
      | inl f ↦
          let shut : is_model_allowed t (some start) model ≡ false =
            unfold is_model_allowed in unfold lookup in rw (same ∙ f) refl in
          rw (insert_all-allowed t ids start model (same ∙ f), shut, f) refl
      | inr f ↦ rw (stale_allows t model listed f, f) (or_true (has_name ids model))
    ]
  where
    or_true : (b : Bool) → true ≡ (b || true)
    or_true true = refl
    or_true false = refl
