-- ===== src/Search/Vector.antt =====
-- `vector_query` of src/search.rs and `Engine::query` of src/engine.rs.
-- The semaphore of query slots is the argument that says whether one is free.
pub mod Scans
pub mod Exact
pub mod Best
pub mod Sources
pub mod Indexed
pub mod Overlay
pub mod Answer
use gengis_mimi.Shared.{
  ℕ, zero, suc, ◌+◌, ◌≡◌, Bool, true, false, not, ◌&&◌, ◌||◌, Option, none, some, List, [], ◌∷◌,
  ◌++◌, map, take, length, leb, ltb, ◌==◌, in_range, arith, if◌then◌else◌,
}
use gengis_mimi.Shared.Bytes.{Bytes}
use gengis_mimi.Shared.Maps.{set_contains, keep}
use gengis_mimi.Error.{Error, Result, ok, err, ◌>>=◌, ◌>>◌, reject_if, ok_or}
use gengis_mimi.Model.{
  NamespaceConfig, Document, Filter, validate_vector, filter_validate, filter_matches, max_top_k,
}
use gengis_mimi.Model.Query.{QueryRequest, QueryResult, SearchMode, Plan}
use gengis_mimi.Model.Float.{Arithmetic, total_key}
use gengis_mimi.Config.{IndexConfig}
use gengis_mimi.Binary.{decode}
use gengis_mimi.Slate.{Slate}
use gengis_mimi.Slate.Entries.{Entry}
use gengis_mimi.Engine.Serde.{Serde}
use gengis_mimi.Engine.Keys.{document_prefix}
use gengis_mimi.Engine.Read.{check_ready, namespace_at, stats_at, vector_at, document_at}
use gengis_mimi.Index.{IndexStatus}
use gengis_mimi.Index.Value.{json_of}
use gengis_mimi.Index.Keys.{root, cluster_key}
use gengis_mimi.Index.Build.{Tools}
use gengis_mimi.Index.Clusters.{Row, nth}
use gengis_mimi.Index.Filter.{filter_ids}
use gengis_mimi.Search.Heap.{Order, sort}
use gengis_mimi.Search.Score.{distance_score}
use gengis_mimi.Search.Hits.{Hit, score_rows, hydrate}
use gengis_mimi.Search.Pending.{pending, index_at}

-- The rows that wait to be scored, the best so far, and how many were scanned.
pub record Scan : Type 0 where
  pub rows : List Row
  pub best : List Hit
  pub scanned : ℕ

abbrev pub no_scan : Scan
no_scan = record { rows = []; best = []; scanned = 0 }

-- `if let Some(vector)`
abbrev pub add_found : Bytes → Option (List ℕ) → List Row → List Row
add_found id none rows = rows
add_found id (some vector) rows = rows ++ (id, vector) ∷ []

-- A cluster and its score, by falling score and then by number.
unfoldable pub cluster_lt : ℕ × ℕ → ℕ × ℕ → Bool
cluster_lt a b =
    ltb (total_key b.1) (total_key a.1) || (total_key a.1 == total_key b.1) && ltb a.0 b.0

pub cluster_lt_irrefl : (a : ℕ × ℕ) → cluster_lt a a ≡ false
unfolding cluster_lt
cluster_lt_irrefl a = ground arith

pub cluster_lt_trans :
    (a b c : ℕ × ℕ) → cluster_lt a b ≡ true → cluster_lt b c ≡ true → cluster_lt a c ≡ true
unfolding cluster_lt
cluster_lt_trans a b c h k = ground arith

pub cluster_lt_negative :
    (a b c : ℕ × ℕ) → cluster_lt a b ≡ true → cluster_lt c b ≡ false → cluster_lt a c ≡ true
unfolding cluster_lt
cluster_lt_negative a b c h k = ground arith

abbrev pub by_score : Order (ℕ × ℕ)
by_score = record {
  lt = cluster_lt;
  lt_irrefl = cluster_lt_irrefl;
  lt_trans = cluster_lt_trans;
  lt_negative = cluster_lt_negative;
}

-- The keys of a cluster's blocks from a number on, and of the clusters in turn.
unfoldable pub blocks_of : Bytes → ℕ → ℕ → ℕ → List Bytes
blocks_of prefix cluster block zero = []
blocks_of prefix cluster block (suc left) =
    cluster_key prefix cluster block ∷ blocks_of prefix cluster (block + 1) left

unfoldable pub probe_keys : Bytes → List ℕ → List (ℕ × ℕ) → List Bytes
unfolding blocks_of
probe_keys prefix counts [] = []
probe_keys prefix counts ((cluster, score) ∷ rest) =
    blocks_of prefix cluster 0 (nth 0 cluster counts) ++ probe_keys prefix counts rest

abbrev pub allows : Option (List Bytes) → Bytes → Bool
allows none id = true
allows (some ids) id = set_contains ids id

-- The rows of a block that are not dirty and that the filter selects.
abbrev pub usable : List Bytes → Option (List Bytes) → List Row → List Row
usable dirty selected =
    keep (λ (row : Row). not (set_contains dirty row.0) && allows selected row.0)

abbrev pub is_exact : SearchMode → Bool
is_exact SearchMode.exact = true
is_exact _ = false

abbrev pub is_few : Option (List Bytes) → ℕ → Bool
is_few none threshold = false
is_few (some ids) threshold = leb (length ids) threshold

abbrev pub ids_or_none : Option (List Bytes) → List Bytes
ids_or_none none = []
ids_or_none (some ids) = ids

module _ (s : Slate) {J : Type 0} (serde : Serde J) (tools : Tools J) (schema : NamespaceConfig)
    (name : Bytes) (query : QueryRequest J) (db : s.Db) where
  abbrev pub scored : List Row → List Hit → List Hit
  scored = score_rows tools.arithmetic query.vector schema.metric query.top_k

  -- `if rows.len() == 128`
  abbrev pub flush : Scan → Scan
  unfolding score_rows
  flush scan =
      if length scan.rows == 128
      then record scan { rows = []; best = scored scan.rows scan.best }
      else scan

  abbrev pub matches_filter : Document J → Bool
  unfolding filter_matches
  matches_filter doc = filter_matches (json_of tools.json) query.filter doc.attributes

  abbrev pub vector_if : Bool → Bytes → Result (Option (List ℕ))
  vector_if false id = ok none
  vector_if true id = vector_at s tools.crc32 db name id

  -- The loop over all documents.
  unfoldable pub exact_scan : List Entry → Scan → Result Scan
  unfolding score_rows filter_matches
  exact_scan [] scan = ok scan
  exact_scan ((key, value) ∷ rows) scan = do
    doc ← ok_or (serde.document_from_slice value) Error.encoding
    found ← vector_if (matches_filter doc) doc.id
    exact_scan rows (
        flush (record scan { scanned = scan.scanned + 1; rows = add_found doc.id found scan.rows }))

  -- The loop over the IDs that the filter selects and that are not dirty.
  unfoldable pub filtered_scan : List Bytes → Scan → Result Scan
  unfolding score_rows
  filtered_scan [] scan = ok scan
  filtered_scan (id ∷ ids) scan = do
    found ← vector_at s tools.crc32 db name id
    filtered_scan ids
        (flush (record scan { scanned = scan.scanned + 1; rows = add_found id found scan.rows }))

  abbrev pub score_clusters : ℕ → List (List ℕ) → List (ℕ × ℕ)
  score_clusters i [] = []
  score_clusters i (c ∷ cs) =
      (i, distance_score tools.arithmetic query.vector c schema.metric) ∷ score_clusters (i + 1) cs

  -- The loop over the blocks of the probed clusters.
  unfoldable pub block_scan : List Bytes → Option (List Bytes) → List Bytes → Scan → Result Scan
  unfolding score_rows
  block_scan dirty selected [] scan = ok scan
  block_scan dirty selected (key ∷ keys) scan = do
    found ← s.get db key
    block ← ok_or found Error.corrupt
    rows ← decode tools.crc32 block
    block_scan dirty selected keys (record {
      rows = [];
      best = scored (scan.rows ++ usable dirty selected rows) scan.best;
      scanned = scan.scanned + length rows;
    })

  abbrev pub vector_of : Option (Document J) → Option (List ℕ)
  vector_of none = none
  vector_of (some doc) = if matches_filter doc then doc.vector else none

  -- The loop over the documents that changed since the index was built.
  unfoldable pub dirty_scan : List Bytes → Scan → Result Scan
  unfolding score_rows filter_matches
  dirty_scan [] scan = ok scan
  dirty_scan (id ∷ ids) scan = do
    found ← document_at s serde tools.crc32 db name id
    dirty_scan ids (
        flush (record scan {
          scanned = scan.scanned + 1;
          rows = add_found id (vector_of found) scan.rows;
        }))

  unfoldable pub filtered_plan : List Bytes → List Bytes → Result (Scan × Plan)
  unfolding filtered_scan dirty_scan keep set_contains
  filtered_plan dirty ids = do
    scan ← filtered_scan (keep (λ id. not (set_contains dirty id)) ids) no_scan
    scan ← dirty_scan dirty scan
    ok (scan, Plan.filtered_exact)

  unfoldable pub probed_plan :
      IndexStatus → Bytes → List Bytes → Option (List Bytes) → Result (Scan × Plan)
  unfolding block_scan dirty_scan probe_keys sort cluster_lt
  probed_plan index prefix dirty selected = do
    let clusters = sort by_score (score_clusters 0 index.centroids)
    let keys = probe_keys prefix index.cluster_blocks (take query.probes clusters)
    scan ← block_scan dirty selected keys no_scan
    scan ← dirty_scan dirty scan
    ok (scan, Plan.centroid_ann)

  unfoldable pub indexed_scan : IndexConfig → IndexStatus → Result (Scan × Plan)
  unfolding root filter_ids pending filtered_plan probed_plan
  indexed_scan config index = do
    dirty ← pending s db name index.revision
    selected ← filter_ids s tools db (root name index.generation) query.filter
    if is_few selected config.filter_scan_threshold
        then filtered_plan dirty (ids_or_none selected)
        else probed_plan index (root name index.generation) dirty selected

  unfoldable pub full_scan : Result (Scan × Plan)
  unfolding exact_scan
  full_scan = do
    rows ← s.scan_prefix db (document_prefix name)
    scan ← exact_scan rows no_scan
    ok (scan, Plan.exact_scan)

  abbrev pub scan_by : IndexConfig → Option IndexStatus → Result (Scan × Plan)
  scan_by config none = full_scan
  scan_by config (some index) = if is_exact query.mode then full_scan else indexed_scan config index

  abbrev pub watermark : Option IndexStatus → ℕ
  watermark none = 0
  watermark (some index) = index.revision

  -- `if !rows.is_empty()`, of what no row changes.
  unfoldable pub vector_query : IndexConfig → Result (QueryResult J)
  unfolding index_at full_scan indexed_scan score_rows hydrate
  vector_query config = do
    stats ← stats_at s serde db name
    index ← index_at s tools.serde db name
    (scan, plan) ← scan_by config index
    matches ← hydrate s serde db name (scored scan.rows scan.best)
    ok (record {
      matches = matches;
      scanned_documents = scan.scanned;
      plan = plan;
      revision = stats.revision;
      indexed_revision = watermark index;
    })
