-- ===== src/Engine/Namespaces.antt =====
-- `create_namespace` of src/engine.rs, under the schema lock: one action.
pub mod Create
use gengis_mimi.Shared.{ℕ, Bool, true, false, not, ◌&&◌, Option, none, some, List, [], ◌∷◌, ◌==◌}
use gengis_mimi.Shared.Bytes.{Bytes, bytes_eq}
use gengis_mimi.Error.{Error, Result, ok, err, reject_if, ok_or}
use gengis_mimi.Model.{Metric, NamespaceConfig, Namespace, validate_id, validate_config}
use gengis_mimi.Slate.{Slate}
use gengis_mimi.Slate.Action.{Action, ◌>>=◌, ◌>>◌, pure, lift, reads}
use gengis_mimi.Slate.Entries.{Op, put}
use gengis_mimi.Engine.Serde.{Serde}
use gengis_mimi.Engine.Keys.{namespace_key}
use gengis_mimi.Engine.Read.{check_ready}

-- `PartialEq` of a configuration.
abbrev pub metric_eq : Metric → Metric → Bool
metric_eq Metric.cosine Metric.cosine = true
metric_eq Metric.dot Metric.dot = true
metric_eq Metric.squared_euclidean Metric.squared_euclidean = true
metric_eq _ _ = false

abbrev pub dimensions_eq : Option ℕ → Option ℕ → Bool
dimensions_eq none none = true
dimensions_eq (some a) (some b) = a == b
dimensions_eq _ _ = false

abbrev pub fields_eq : List Bytes → List Bytes → Bool
fields_eq [] [] = true
fields_eq (a ∷ as') (b ∷ bs) = bytes_eq a b && fields_eq as' bs
fields_eq _ _ = false

abbrev pub config_eq : NamespaceConfig → NamespaceConfig → Bool
config_eq a b =
    dimensions_eq a.dimensions b.dimensions
    && metric_eq a.metric b.metric
    && fields_eq a.text_fields b.text_fields

module _ (s : Slate) {J : Type 0} (serde : Serde J) (name : Bytes) (config : NamespaceConfig) where
  abbrev pub new_namespace : Namespace
  new_namespace = record { name = name; config = config }

  -- A namespace that exists has to have the same configuration.
  abbrev pub create_as : Option Bytes → Action s.Db Namespace
  create_as (some value) = do
    existing ← lift (ok_or (serde.namespace_from_slice value) Error.encoding)
    lift (reject_if (not (config_eq existing.config config)) Error.conflict)
    pure existing
  create_as none = do
    λ db. s.write db (put (namespace_key name) (serde.namespace_to_vec new_namespace) ∷ [])
    pure new_namespace

  unfoldable pub create_namespace : Action s.Db Namespace
  create_namespace = do
    lift (validate_id name)
    lift (validate_config config)
    reads (check_ready s)
    found ← reads (λ db. s.get db (namespace_key name))
    create_as found
