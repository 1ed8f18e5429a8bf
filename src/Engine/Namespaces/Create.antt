-- ===== src/Engine/Namespaces/Create.antt =====
-- A namespace is created once, with a configuration that stays.
use gengis_mimi.Shared.{
  ℕ, ◌≡◌, ◌⊎◌, inl, inr, refl, sym, ap, Bool, true, false, not, ◌&&◌, Option, none, some, List, [],
  ◌∷◌, ==_iff, arith, Bool-cases, &&-eq-true, if◌then◌else◌,
}
use gengis_mimi.Shared.Bytes.{Bytes, bytes_eq, bytes_eq→eq}
use gengis_mimi.Error.{Error, ok, reject_if, ok_or}
use gengis_mimi.Model.{Metric, NamespaceConfig, Namespace, validate_id, validate_config}
use gengis_mimi.Slate.{Slate}
use gengis_mimi.Slate.Action.{Ends, returned, Ends-continue, Ends-reads}
use gengis_mimi.Slate.Writes.{Ends-write}
use gengis_mimi.Slate.Entries.{Entry, put, lookup, lookup-insert, apply_op, apply_batch}
use gengis_mimi.Engine.Serde.{Serde}
use gengis_mimi.Engine.Keys.{namespace_key}
use gengis_mimi.Engine.Read.{check_ready}
use gengis_mimi.Engine.Namespaces.{
  metric_eq, dimensions_eq, fields_eq, config_eq, new_namespace, create_as, create_namespace,
}

metric_eq_sound : (a b : Metric) → metric_eq a b ≡ true → a ≡ b
metric_eq_sound Metric.cosine Metric.cosine h = refl
metric_eq_sound Metric.dot Metric.dot h = refl
metric_eq_sound Metric.squared_euclidean Metric.squared_euclidean h = refl
metric_eq_sound Metric.cosine Metric.dot h = cc
metric_eq_sound Metric.cosine Metric.squared_euclidean h = cc
metric_eq_sound Metric.dot Metric.cosine h = cc
metric_eq_sound Metric.dot Metric.squared_euclidean h = cc
metric_eq_sound Metric.squared_euclidean Metric.cosine h = cc
metric_eq_sound Metric.squared_euclidean Metric.dot h = cc

dimensions_eq_sound : (a b : Option ℕ) → dimensions_eq a b ≡ true → a ≡ b
dimensions_eq_sound none none h = refl
dimensions_eq_sound none (some b) h = cc
dimensions_eq_sound (some a) none h = cc
dimensions_eq_sound (some a) (some b) h = ap some ((==_iff a b).0 h)

fields_eq_sound : (a b : List Bytes) → fields_eq a b ≡ true → a ≡ b
fields_eq_sound [] [] h = refl
fields_eq_sound [] (b ∷ bs) h = cc
fields_eq_sound (a ∷ as') [] h = cc
fields_eq_sound (a ∷ as') (b ∷ bs) h =
    let (p, q) = &&-eq-true (bytes_eq a b) (fields_eq as' bs) h in
    rw (bytes_eq→eq a b p, fields_eq_sound as' bs q)

all_three : (a b c : Bool) → (a && b && c) ≡ true → (a ≡ true) × (b ≡ true) × (c ≡ true)
all_three a b c h = (ground arith, ground arith, ground arith)

same_fields :
    (a b : NamespaceConfig)
    → a.dimensions ≡ b.dimensions
    → a.metric ≡ b.metric
    → a.text_fields ≡ b.text_fields
    → a ≡ b
same_fields a b p q r = λ i. record { dimensions = p i; metric = q i; text_fields = r i }

passed_sound : (b : Bool) {u : Unit {0}} → reject_if b Error.conflict ≡ ok u → b ≡ false
passed_sound true h = cc
passed_sound false h = refl

ok_or_sound : {A : Type 0} (o : Option A) {a : A} → ok_or o Error.encoding ≡ ok a → o ≡ some a
ok_or_sound none h = cc
ok_or_sound (some a) h = cc

config_eq_sound : (a b : NamespaceConfig) → config_eq a b ≡ true → a ≡ b
config_eq_sound a b h =
    let (p, q, r) =
      all_three (dimensions_eq a.dimensions b.dimensions) (metric_eq a.metric b.metric)
        (fields_eq a.text_fields b.text_fields) h in
    same_fields a b (dimensions_eq_sound a.dimensions b.dimensions p)
      (metric_eq_sound a.metric b.metric q) (fields_eq_sound a.text_fields b.text_fields r)

not-false : {b : Bool} → not b ≡ false → b ≡ true
not-false h = ground arith

already :
    (j k value : Bytes) (es : List Entry)
    → lookup j es ≡ some value
    → lookup k es ≡ (if bytes_eq j k then some value else lookup k es)
already j k value es h = elim (Bool-cases (bytes_eq j k)) [
  | inl same ↦ rw (same, ← bytes_eq→eq j k same) h
  | inr other ↦ rw other
]

module _ (s : Slate) {J : Type 0} (serde : Serde J) (name : Bytes) (config : NamespaceConfig)
    (db : s.Db) where
  -- The namespace that was asked for is recorded, and no other key has changed.
  pub record IsCreated (namespace : Namespace) (db' : s.Db) : Type 0 where
    pub same_config : namespace.config ≡ config
    pub value : Bytes
    pub read : serde.namespace_from_slice value ≡ some namespace
    pub lookups :
        (k : Bytes)
        → lookup k (s.entries db')
          ≡ (if bytes_eq (namespace_key name) k then some value else lookup k (s.entries db))

  -- Nothing has changed, or the new namespace is recorded.
  abbrev pub UnchangedOrCreated : s.Db → Type 0
  UnchangedOrCreated db' =
      (s.entries db' ≡ s.entries db) ⊎ ((namespace : Namespace) × IsCreated namespace db')

  written :
      (db' : s.Db)
      → s.entries db'
        ≡ apply_batch
            (put (namespace_key name) (serde.namespace_to_vec (new_namespace s serde name config))
              ∷ [])
            (s.entries db)
      → IsCreated (new_namespace s serde name config) db'
  unfolding apply_batch apply_op
  written db' e =
      let value = serde.namespace_to_vec (new_namespace s serde name config) in
      record {
        same_config = refl;
        value = value;
        read = serde.namespace_round (new_namespace s serde name config);
        lookups = λ k. rw (e, lookup-insert (namespace_key name) k value (s.entries db));
      }

  create_as-Ends :
      (found : Option Bytes)
      → found ≡ lookup (namespace_key name) (s.entries db)
      → Ends IsCreated UnchangedOrCreated (create_as s serde name config found db)
  create_as-Ends none e =
      Ends-continue
        (Ends-write s db
          (put (namespace_key name) (serde.namespace_to_vec (new_namespace s serde name config))
            ∷ [])
          (λ n db' q. written db' q)
          (λ db' q. elim q [
            | inl same ↦ inl same
            | inr applied ↦ inr (new_namespace s serde name config, written db' applied)
          ]))
        (λ n db' c. returned c)
  create_as-Ends (some value) e =
      Ends-reads (ok_or (serde.namespace_from_slice value) Error.encoding) db _ (inl refl)
        λ existing read.
          Ends-reads (reject_if (not (config_eq existing.config config)) Error.conflict) db _
            (inl refl)
            λ u passed. returned (record {
              same_config =
                  config_eq_sound existing.config config (not-false (passed_sound _ passed));
              value = value;
              read = ok_or_sound (serde.namespace_from_slice value) read;
              lookups = λ k. already (namespace_key name) k value (s.entries db) (sym e);
            })

  -- `create_namespace` ends in one of two ways. It returns a namespace of the configuration that
  -- was asked for, its key holds what serde_json reads as that namespace, and every other key
  -- holds what it held. Or it fails, and the content is unchanged or records such a namespace.
  pub create_namespace-Ends :
      Ends IsCreated UnchangedOrCreated (create_namespace s serde name config db)
  unfolding create_namespace
  create_namespace-Ends = Ends-reads (validate_id name) db _ (inl refl) λ a p.
      Ends-reads (validate_config config) db _ (inl refl) λ b q.
        Ends-reads (check_ready s db) db _ (inl refl) λ c r.
          Ends-reads (s.get db (namespace_key name)) db _ (inl refl)
            λ found e. create_as-Ends found (s.get_lem db (namespace_key name) e)
