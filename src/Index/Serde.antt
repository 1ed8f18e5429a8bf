-- ===== src/Index/Serde.antt =====
-- serde_json on what an index stores: a parameter.
use gengis_mimi.Shared.{Option, List}
use gengis_mimi.Shared.Bytes.{Bytes}
use gengis_mimi.Index.{IndexStatus, Terms, Posting}

pub record IndexSerde : Type 0 where
  pub status_to_vec : IndexStatus → Bytes
  pub status_from_slice : Bytes → Option IndexStatus
  pub ids_to_vec : List Bytes → Bytes
  pub ids_from_slice : Bytes → Option (List Bytes)
  pub postings_to_vec : List Posting → Bytes
  pub postings_from_slice : Bytes → Option (List Posting)
  pub terms_to_vec : List (Bytes × Terms) → Bytes
  pub terms_from_slice : Bytes → Option (List (Bytes × Terms))
