-- ===== src/Storage/HttpLimit/Keys.antt =====
-- The keys that `consume_http_limit` of crates/storage/src/shared_limits.rs accepts.
use Prim.Native.Char.{code}
use Prim.Native.String.append
use lobbytally.Base.{
  has_name, ℕ, ◌<◌, ◌≡◌, refl, sym, ap, subst, ◌∙◌, inl, inr, String, len, str_eq, eq_iff, Bool,
  true, false, not, ◌||◌, List, [], ◌∷◌, ◌++◌, ltb, All, All-append, Bool-cases, codes, eq_codes,
}
use lobbytally.Storage.{Result, ok, err, validation}
use lobbytally.Storage.HttpLimit.{
  HttpRate, prefix_of, has_prefix, ends_with, is_global, insert_key, is_foreign, key_set,
  global_key, budgets_of, count_in,
}
use lobbytally.Storage.HttpLimit.Charge.{scopes, Apart, HaveRoom}

pub or_true : (b : Bool) → (b || true) ≡ true
or_true true = refl
or_true false = refl

-- The key of a namespace for all its requests ends as no other key may.
pub global_key-is_global : (namespace : String) → is_global (global_key namespace) ≡ true
unfolding ends_with eq_codes
global_key-is_global String.[] = refl
global_key-is_global (String.◌∷◌ c s) =
    subst (λ t. is_global t ≡ true) (sym (append.cons c s ":global"))
      (rw (global_key-is_global s)
        (or_true (eq_codes (codes ":global") (code c ∷ codes (global_key s)))))

abbrev Local : List String → Type 0
Local keys = All (λ key. is_global key ≡ false) keys

or_false : (b : Bool) → (b || false) ≡ b
or_false true = refl
or_false false = refl

apart_sym : (a b : String) → str_eq a b ≡ false → str_eq b a ≡ false
apart_sym a b apart = elim (Bool-cases (str_eq b a)) [
  | inl e ↦ let back : str_eq a b ≡ true = (eq_iff a b).1 (sym ((eq_iff b a).0 e)) in cc
  | inr e ↦ e
]

-- A test that fails for both of two alternatives.
neither : (a b : Bool) → (a || b) ≡ false → (a ≡ false) × (b ≡ false)
neither true b h = cc
neither false b h = (refl, h)

has_name-append :
    (keys : List String) (key k : String)
    → has_name (keys ++ key ∷ []) k ≡ (has_name keys k || str_eq key k)
unfolding has_name
has_name-append [] key k = or_false (str_eq key k)
has_name-append (x ∷ keys) key k =
    rw (has_name-append keys key k) (or_assoc (str_eq x k) (has_name keys k) (str_eq key k))
  where
    or_assoc : (a b c : Bool) → (a || (b || c)) ≡ ((a || b) || c)
    or_assoc true b c = refl
    or_assoc false b c = refl

Apart-append :
    (keys : List String) (key : String)
    → Apart keys
    → has_name keys key ≡ false
    → Apart (keys ++ key ∷ [])
unfolding has_name
Apart-append [] key h new = (refl, tt)
Apart-append (x ∷ keys) key h new =
    let (first, rest) = neither (str_eq x key) (has_name keys key) new in
    (
      has_name-append keys key x ∙ rw (h.0, apart_sym x key first) refl,
      Apart-append keys key h.1 rest,
    )

-- A local key is not the global one.
has_name-global_key :
    (keys : List String) (namespace : String)
    → Local keys
    → has_name keys (global_key namespace) ≡ false
unfolding has_name
has_name-global_key [] namespace h = refl
has_name-global_key (x ∷ keys) namespace h = elim (Bool-cases (str_eq x (global_key namespace))) [
  | inl e ↦
      let same = (eq_iff x (global_key namespace)).0 e in
      let clash : is_global x ≡ true =
        subst (λ t. is_global t ≡ true) (sym same) (global_key-is_global namespace) in
      let no_global = h.0 in cc
  | inr e ↦ rw e (has_name-global_key keys namespace h.1)
]

has_name-insert_key :
    (key : String) (keys : List String) (k : String)
    → has_name (insert_key key keys) k ≡ (has_name keys k || str_eq key k)
unfolding insert_key
has_name-insert_key key keys k = elim (Bool-cases (has_name keys key)) [
  | inr new ↦ rw new (has_name-append keys key k)
  | inl old ↦ rw old (elim (Bool-cases (str_eq key k)) [
    | inl e ↦
        let here : has_name keys k ≡ true =
          subst (λ v. has_name keys v ≡ true) ((eq_iff key k).0 e) old in
        rw (e, here) refl
    | inr e ↦ rw e (sym (or_false (has_name keys k)))
  ])
]

insert_key-Apart : (key : String) (keys : List String) → Apart keys → Apart (insert_key key keys)
unfolding insert_key
insert_key-Apart key keys apart = elim (Bool-cases (has_name keys key)) [
  | inl old ↦ rw old apart
  | inr new ↦ rw new (Apart-append keys key apart new)
]

insert_key-Local :
    (key : String) (keys : List String)
    → Local keys
    → is_global key ≡ false
    → Local (insert_key key keys)
unfolding insert_key
insert_key-Local key keys local own = elim (Bool-cases (has_name keys key)) [
  | inl old ↦ rw old local
  | inr new ↦ rw new (All-append (λ k. is_global k ≡ false) keys (key ∷ []) local (own, tt))
]

-- What holds of the keys that were accepted, with those that were given.
abbrev pub Accepts : List String → List String → List String → Type 0
Accepts before given keys =
    Apart keys
    × Local keys
    × ((k : String) → has_name before k ≡ true → has_name keys k ≡ true)
    × ((k : String) → has_name given k ≡ true → has_name keys k ≡ true)

pub key_set-Accepts :
    (namespace : String) (before given keys : List String)
    → Apart before
    → Local before
    → key_set namespace before given ≡ ok keys
    → Accepts before given keys
unfolding key_set is_foreign has_name
key_set-Accepts namespace before [] keys apart local h =
    let same : before ≡ keys = cc in
    (
      subst Apart same apart,
      subst Local same local,
      λ k here. subst (λ v. has_name v k ≡ true) same here,
      λ k here. cc,
    )
key_set-Accepts namespace before (key ∷ given) keys apart local h =
    elim (Bool-cases (is_foreign namespace key)) [
      | inl bad ↦
          let clash : ◌≡◌ {A = Result (List String)}
              (err (validation "request budget keys must share a namespace")) (ok keys) =
            rw bad at h in
          cc
      | inr fine ↦
          let rest : key_set namespace (insert_key key before) given ≡ ok keys = rw fine at h in
          let own =
            (neither (not (has_prefix namespace (prefix_of key))) (is_global key)
              (neither (ltb 256 (len key))
                (not (has_prefix namespace (prefix_of key)) || is_global key) fine).1).1 in
          let (a, l, old, new) =
            key_set-Accepts namespace (insert_key key before) given keys
              (insert_key-Apart key before apart) (insert_key-Local key before local own) rest in
          (
            a,
            l,
            λ k here. old k (has_name-insert_key key before k ∙ rw here refl),
            λ k here. elim (Bool-cases (str_eq key k)) [
              | inl e ↦
                  old k (has_name-insert_key key before k ∙ rw e (or_true (has_name before k)))
              | inr e ↦ new k (rw e at here)
            ],
          )
    ]

scopes-budgets_of :
    (keys : List String) (namespace : String) (identity_limit global_limit : ℕ)
    → scopes (budgets_of keys namespace identity_limit global_limit)
      ≡ keys ++ global_key namespace ∷ []
scopes-budgets_of [] namespace identity_limit global_limit = refl
scopes-budgets_of (key ∷ keys) namespace identity_limit global_limit =
    ap (◌∷◌ key) (scopes-budgets_of keys namespace identity_limit global_limit)

pub budgets_of-Apart :
    (keys : List String) (namespace : String) (identity_limit global_limit : ℕ)
    → Apart keys
    → Local keys
    → Apart (scopes (budgets_of keys namespace identity_limit global_limit))
budgets_of-Apart keys namespace identity_limit global_limit apart local =
    rw (scopes-budgets_of keys namespace identity_limit global_limit)
      (Apart-append keys (global_key namespace) apart (has_name-global_key keys namespace local))

-- The scopes of the budgets are the keys and the global one.
pub has_name-budgets_of :
    (keys : List String) (namespace : String) (identity_limit global_limit : ℕ) (k : String)
    → has_name (scopes (budgets_of keys namespace identity_limit global_limit)) k
      ≡ (has_name keys k || str_eq (global_key namespace) k)
has_name-budgets_of keys namespace identity_limit global_limit k =
    rw (scopes-budgets_of keys namespace identity_limit global_limit)
      (has_name-append keys (global_key namespace) k)

module _ (start : ℕ) (live : List HttpRate) (namespace : String)
    (identity_limit global_limit : ℕ) where
  pub HaveRoom-key :
      (keys : List String) (k : String)
      → has_name keys k ≡ true
      → HaveRoom start live (budgets_of keys namespace identity_limit global_limit)
      → count_in start k live < identity_limit
  unfolding has_name
  HaveRoom-key [] k here room = cc
  HaveRoom-key (key ∷ keys) k here room = elim (Bool-cases (str_eq key k)) [
    | inl e ↦ subst (λ v. count_in start v live < identity_limit) ((eq_iff key k).0 e) room.0
    | inr e ↦ HaveRoom-key keys k (rw e at here) room.1
  ]

  pub HaveRoom-global :
      (keys : List String)
      → HaveRoom start live (budgets_of keys namespace identity_limit global_limit)
      → count_in start (global_key namespace) live < global_limit
  HaveRoom-global [] room = room.0
  HaveRoom-global (key ∷ keys) room = HaveRoom-global keys room.1
