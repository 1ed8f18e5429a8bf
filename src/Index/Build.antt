-- ===== src/Index/Build.antt =====
-- `build` and `append_blocks` of src/index.rs. The generation's name, a random UUID, is an argument.
pub mod Documents
pub mod Partition
pub mod Under
use gengis_mimi.Shared.{
  ℕ, zero, suc, ◌+◌, ◌-◌, ◌*◌, ◌/◌, Bool, true, false, not, ◌&&◌, Option, none, some, List, [], ◌∷◌,
  ◌++◌, map, length, ltb, ◌==◌, if◌then◌else◌,
}
use gengis_mimi.Shared.Bytes.{Bytes}
use gengis_mimi.Shared.Maps.{map_get, map_insert, map_update}
use gengis_mimi.Error.{Error, Result, ok, err, ◌>>=◌, ◌>>◌, reject_if, ok_or}
use gengis_mimi.Model.{NamespaceConfig, Metric, Document}
use gengis_mimi.Model.Float.{Arithmetic, is_finite_f64}
use gengis_mimi.Config.{IndexConfig}
use gengis_mimi.Binary.{encode}
use gengis_mimi.Slate.Entries.{Entry}
use gengis_mimi.Index.{IndexStatus, Corpus, Terms, Posting}
use gengis_mimi.Index.Value.{JsonOps}
use gengis_mimi.Index.Keys.{digest, number_key, root, cluster_key, block_key, field_key, length_key}
use gengis_mimi.Index.Serde.{IndexSerde}
use gengis_mimi.Index.Tokens.{Unicode, document_terms}
use gengis_mimi.Index.Chunks.{chunks}
use gengis_mimi.Index.Clusters.{Row, normalized, train, assign, replicate}

-- What the build takes from outside: SHA-256, CRC-32, JSON values, Unicode, floats.
pub record Tools (J : Type 0) : Type 0 where
  pub sha256 : Bytes → Bytes
  pub crc32 : Bytes → ℕ
  pub json : JsonOps J
  pub unicode : Unicode
  pub arithmetic : Arithmetic
  pub serde : IndexSerde

abbrev pub unwrap_dimensions : Option ℕ → ℕ
unwrap_dimensions none = 1
unwrap_dimensions (some d) = d

-- `clamp(1, 128)`
abbrev pub clamp_block : ℕ → ℕ
clamp_block n = if ltb n 1 then 1 else if ltb 128 n then 128 else n

unfoldable pub per_block : NamespaceConfig → ℕ
per_block schema = clamp_block (256 * 1024 / (unwrap_dimensions schema.dimensions * 4 + 130))

-- One cluster's blocks, and those of the clusters from a number on.
module _ (crc32 : Bytes → ℕ) (prefix : Bytes) where
  unfoldable pub cluster_entries : ℕ → ℕ → List (List Row) → List Entry
  cluster_entries cluster block [] = []
  cluster_entries cluster block (rows ∷ rest) =
      (cluster_key prefix cluster block, encode crc32 rows)
      ∷ cluster_entries cluster (block + 1) rest

  unfoldable pub vector_entries : ℕ → ℕ → List (List Row) → List Entry
  unfolding cluster_entries
  vector_entries per cluster [] = []
  vector_entries per cluster (rows ∷ rest) =
      cluster_entries cluster 0 (chunks per rows) ++ vector_entries per (cluster + 1) rest

-- `append_blocks`, with what serialises the rows of a block.
module _ {T : Type 0} (to_vec : List T → Bytes) where
  unfoldable pub blocks_from : Bytes → ℕ → List (List T) → List Entry
  blocks_from key block [] = []
  blocks_from key block (rows ∷ rest) =
      (block_key key block, to_vec rows) ∷ blocks_from key (block + 1) rest

  unfoldable pub append_blocks : List Entry → Bytes → List T → List Entry
  unfolding blocks_from
  append_blocks entries key rows = entries ++ blocks_from key 0 (chunks 256 rows)

  unfoldable pub append_all : List Entry → List (Bytes × List T) → List Entry
  unfolding append_blocks
  append_all entries [] = entries
  append_all entries ((key, rows) ∷ rest) = append_all (append_blocks entries key rows) rest

-- Rows by key: attribute values with their documents, terms with their postings.
abbrev pub Multi : Type 0 → Type 0
Multi T = List (Bytes × List T)

module _ {T : Type 0} where
  unfoldable pub push_at : Bytes → T → Multi T → Multi T
  unfolding map_update
  push_at key row rows = map_update [] key (λ (l : List T). l ++ row ∷ []) rows

unfoldable pub output_size : List Entry → ℕ
output_size [] = 0
output_size ((key, value) ∷ entries) = length key + length value + output_size entries

module _ {J : Type 0} where
  unfoldable pub vectors_of : List (Document J) → List Row
  vectors_of [] = []
  vectors_of (d ∷ ds) =
      let rest = vectors_of ds in elim d.vector [ none ↦ rest | some v ↦ (d.id, v) ∷ rest ]
