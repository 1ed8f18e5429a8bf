-- ===== src/Engine/Serde.antt =====
-- serde_json as the engine uses it: a parameter, with its round trips as laws.
use gengis_mimi.Shared.{◌≡◌, Option, none, some}
use gengis_mimi.Shared.Bytes.{Bytes}
use gengis_mimi.Model.{Namespace, NamespaceStats, Document}

pub record Serde (J : Type 0) : Type 0 where
  pub namespace_to_vec : Namespace → Bytes
  pub namespace_from_slice : Bytes → Option Namespace
  pub stats_to_vec : NamespaceStats → Bytes
  pub stats_from_slice : Bytes → Option NamespaceStats
  pub document_to_vec : Document J → Bytes
  pub document_from_slice : Bytes → Option (Document J)
  pub namespace_round : (n : Namespace) → namespace_from_slice (namespace_to_vec n) ≡ some n
  pub stats_round : (s : NamespaceStats) → stats_from_slice (stats_to_vec s) ≡ some s
  -- A document is stored without its vector.
  pub document_round :
      (d : Document J) → d.vector ≡ none → document_from_slice (document_to_vec d) ≡ some d
