-- ===== src/Model/Query.antt =====
-- The requests and results of a search, of src/model.rs.
use gengis_mimi.Shared.{ℕ, List}
use gengis_mimi.Shared.Bytes.{Bytes}
use gengis_mimi.Model.{Filter}

pub data SearchMode : Type 0 where
  auto exact ann : SearchMode

pub record QueryRequest (J : Type 0) : Type 0 where
  pub vector : List ℕ
  pub top_k : ℕ
  pub filter : Filter J
  pub mode : SearchMode
  pub probes : ℕ

pub record TextQuery (J : Type 0) : Type 0 where
  pub field : Bytes
  pub text : Bytes
  pub top_k : ℕ
  pub filter : Filter J

pub record SearchHit (J : Type 0) : Type 0 where
  pub id : Bytes
  pub score : ℕ
  pub attributes : List (Bytes × J)

pub data Plan : Type 0 where
  exact_scan filtered_exact centroid_ann bm25_index bm25_scan : Plan

pub record QueryResult (J : Type 0) : Type 0 where
  pub matches : List (SearchHit J)
  pub scanned_documents : ℕ
  pub plan : Plan
  pub revision : ℕ
  pub indexed_revision : ℕ
