-- ===== src/Index.antt =====
-- src/index.rs: index generations. SHA-256, Unicode's tables and the arithmetic of floats are
-- parameters; a serialised block is read and written by serde_json, a parameter too.
pub mod Value
pub mod Keys
pub mod Serde
pub mod Tokens
pub mod Chunks
pub mod Clusters
pub mod Build
pub mod Filter
pub mod NumberOrder
pub mod Ranges
use gengis_mimi.Shared.{ℕ, List}
use gengis_mimi.Shared.Bytes.{Bytes}

pub record Corpus : Type 0 where
  pub documents : ℕ
  pub tokens : ℕ

pub record Terms : Type 0 where
  pub length : ℕ
  pub frequencies : List (Bytes × ℕ)

pub record Posting : Type 0 where
  pub id : Bytes
  pub frequency : ℕ
  pub length : ℕ

pub record IndexStatus : Type 0 where
  pub generation : Bytes
  pub revision : ℕ
  pub documents : ℕ
  pub vectors : ℕ
  pub centroids : List (List ℕ)
  pub cluster_blocks : List ℕ
  pub text : List (Bytes × Corpus)
