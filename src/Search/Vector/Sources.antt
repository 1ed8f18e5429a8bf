-- ===== src/Search/Vector/Sources.antt =====
-- Where the rows come from that a `vector_query` of src/search.rs reads through an index, for those
-- that have not changed since it was built: described apart from the loops that read them.
use gengis_mimi.Shared.{
  ℕ, zero, suc, ◌+◌, ◌≡◌, refl, ap, true, false, not, ◌&&◌, inl, inr, Option, some, List, [], ◌∷◌,
  ◌++◌, map, take, arith, subst, Bool-cases,
}
use mathlib.Core.List.{Perm}
use gengis_mimi.Shared.Bytes.{Bytes}
use gengis_mimi.Shared.Maps.{set_contains, keep}
use gengis_mimi.Error.{ok}
use gengis_mimi.Model.{NamespaceConfig}
use gengis_mimi.Model.Query.{QueryRequest}
use gengis_mimi.Binary.{decode}
use gengis_mimi.Slate.{Slate}
use gengis_mimi.Slate.Entries.{lookup}
use gengis_mimi.Engine.Serde.{Serde}
use gengis_mimi.Engine.Read.{vector_at}
use gengis_mimi.Index.{IndexStatus}
use gengis_mimi.Index.Keys.{cluster_key}
use gengis_mimi.Index.Build.{Tools}
use gengis_mimi.Index.Chunks.{concat}
use gengis_mimi.Index.Clusters.{Row, nth}
use gengis_mimi.Search.Heap.{IsSorted, sort, sort-IsSorted, sort-Perm}
use gengis_mimi.Search.Score.{distance_score}
use gengis_mimi.Search.Vector.{by_score, score_clusters, blocks_of, probe_keys, usable, allows}
use gengis_mimi.Search.Vector.Scans.{found_row, IsClean}

-- `n, n + 1, ...`, so many.
abbrev pub range_from : ℕ → ℕ → List ℕ
range_from n zero = []
range_from n (suc left) = n ∷ range_from (n + 1) left

abbrev pub numbered {ℓ} : {A : Type ℓ} → ℕ → List A → List (ℕ × A)
numbered n [] = []
numbered n (x ∷ xs) = (n, x) ∷ numbered (n + 1) xs

-- Every block of each of these clusters, in turn.
abbrev pub block_keys : Bytes → List ℕ → List (ℕ × ℕ) → List Bytes
block_keys prefix counts clusters =
    concat
      (map (λ (c : ℕ × ℕ). map (cluster_key prefix c.0) (range_from 0 (nth 0 c.0 counts))) clusters)

blocks_of_lem :
    (prefix : Bytes) (cluster block left : ℕ)
    → blocks_of prefix cluster block left ≡ map (cluster_key prefix cluster) (range_from block left)
unfolding blocks_of
blocks_of_lem prefix cluster block zero = refl
blocks_of_lem prefix cluster block (suc left) =
    ap (λ l. cluster_key prefix cluster block ∷ l) (blocks_of_lem prefix cluster (block + 1) left)

pub probe_keys_lem :
    (prefix : Bytes) (counts : List ℕ) (clusters : List (ℕ × ℕ))
    → probe_keys prefix counts clusters ≡ block_keys prefix counts clusters
unfolding probe_keys
probe_keys_lem prefix counts [] = refl
probe_keys_lem prefix counts ((cluster, score) ∷ rest) =
    rw (blocks_of_lem prefix cluster 0 (nth 0 cluster counts), probe_keys_lem prefix counts rest)

-- The rows of a block, each taken exactly if it is of an unchanged document that the filter selects.
pub data Picked (dirty : List Bytes) (selected : Option (List Bytes))
    : List Row → List Row → Type 0 where
  no_rows : Picked dirty selected [] []
  taken :
      {row : Row} {rows more : List Row}
      → IsClean dirty selected row.0
      → Picked dirty selected rows more
      → Picked dirty selected (row ∷ rows) (row ∷ more)
  left_out :
      {row : Row} {rows more : List Row}
      → ¬ IsClean dirty selected row.0
      → Picked dirty selected rows more
      → Picked dirty selected (row ∷ rows) more

usable_iff :
    (dirty : List Bytes) (selected : Option (List Bytes)) (id : Bytes)
    → (not (set_contains dirty id) && allows selected id) ≡ true
    → IsClean dirty selected id
usable_iff dirty selected id h = (ground arith, ground arith)

unusable :
    (dirty : List Bytes) (selected : Option (List Bytes)) (id : Bytes)
    → (not (set_contains dirty id) && allows selected id) ≡ false
    → ¬ IsClean dirty selected id
unusable dirty selected id h (a, b) = cc (rw (a, b) at h)

pub usable-Picked :
    (dirty : List Bytes) (selected : Option (List Bytes)) (rows : List Row)
    → Picked dirty selected rows (usable dirty selected rows)
unfolding keep
usable-Picked dirty selected [] = no_rows
usable-Picked dirty selected (row ∷ rows) =
    elim (Bool-cases (not (set_contains dirty row.0) && allows selected row.0)) [
      | inl used ↦
          rw used (taken (usable_iff dirty selected row.0 used) (usable-Picked dirty selected rows))
      | inr other ↦
          rw other
            (left_out (unusable dirty selected row.0 other) (usable-Picked dirty selected rows))
    ]

module _ (s : Slate) {J : Type 0} (serde : Serde J) (tools : Tools J) (schema : NamespaceConfig)
    (name : Bytes) (query : QueryRequest J) (db : s.Db) where
  -- The stored vectors of all of these documents that have not changed and have one.
  pub data Stored (dirty : List Bytes) : List Bytes → List Row → Type 0 where
    no_ids : Stored dirty [] []
    changed_id :
        {id : Bytes} {ids : List Bytes} {rows : List Row}
        → set_contains dirty id ≡ true
        → Stored dirty ids rows
        → Stored dirty (id ∷ ids) rows
    clean_id :
        {id : Bytes} {found : Option (List ℕ)} {ids : List Bytes} {rows more : List Row}
        → set_contains dirty id ≡ false
        → vector_at s tools.crc32 db name id ≡ ok found
        → Stored dirty ids more
        → rows ≡ found_row id found ++ more
        → Stored dirty (id ∷ ids) rows

  -- What is picked of the blocks at all of these keys.
  pub data Blocks (dirty : List Bytes) (selected : Option (List Bytes))
      : List Bytes → List Row → Type 0 where
    no_keys : Blocks dirty selected [] []
    next_key :
        {key block : Bytes} {keys : List Bytes} {all_rows picked rows more : List Row}
        → lookup key (s.entries db) ≡ some block
        → decode tools.crc32 block ≡ ok all_rows
        → Picked dirty selected all_rows picked
        → Blocks dirty selected keys more
        → rows ≡ picked ++ more
        → Blocks dirty selected (key ∷ keys) rows

  -- The scores of the centroids, each with its cluster's number.
  abbrev pub centroid_scores : IndexStatus → List (ℕ × ℕ)
  centroid_scores index =
      map
        (λ (c : ℕ × List ℕ). (c.0, distance_score tools.arithmetic query.vector c.1 schema.metric))
        (numbered 0 index.centroids)

  -- The first `probes` clusters of all, by falling score of the centroid and rising number.
  pub record Nearest (index : IndexStatus) (probed : List (ℕ × ℕ)) : Type 0 where
    pub clusters : List (ℕ × ℕ)
    pub every_one : Perm clusters (centroid_scores index)
    pub in_order : IsSorted by_score clusters
    pub first : probed ≡ take query.probes clusters

  score_clusters_lem :
      (n : ℕ) (centroids : List (List ℕ))
      → score_clusters s serde tools schema name query db n centroids
        ≡ map
            (λ (c : ℕ × List ℕ).
              (c.0, distance_score tools.arithmetic query.vector c.1 schema.metric))
            (numbered n centroids)
  score_clusters_lem n [] = refl
  score_clusters_lem n (c ∷ cs) =
      ap (λ l. (n, distance_score tools.arithmetic query.vector c schema.metric) ∷ l)
        (score_clusters_lem (n + 1) cs)

  pub probed-Nearest :
      (index : IndexStatus)
      → Nearest index (
          take query.probes
            (sort by_score (score_clusters s serde tools schema name query db 0 index.centroids)))
  probed-Nearest index =
      let scores = score_clusters s serde tools schema name query db 0 index.centroids in
      record {
        clusters = sort by_score scores;
        every_one =
            subst (λ l. Perm (sort by_score scores) l) (score_clusters_lem 0 index.centroids)
              (sort-Perm by_score scores);
        in_order = sort-IsSorted by_score scores;
        first = refl;
      }
