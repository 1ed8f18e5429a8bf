-- ===== src/Search/Vector/Overlay.antt =====
-- The result of a `vector_query` of src/search.rs through an index.
use gengis_mimi.Shared.{
  ℕ, ◌<◌, ◌≤◌, ◌≡◌, refl, true, false, inl, inr, Option, none, some, List, [], ◌++◌, length, leb,
  arith, subst, Bool-cases, if◌then◌else◌,
}
use gengis_mimi.Shared.Bytes.{Bytes}
use gengis_mimi.Error.{ok}
use gengis_mimi.Error.Ensures.{
  Ensures, returns, Ensures-bind, Ensures-bind_eq, Ensures-mono, Ensures-eq-ok,
}
use gengis_mimi.Model.{NamespaceConfig}
use gengis_mimi.Model.Query.{QueryRequest, QueryResult, Plan}
use gengis_mimi.Config.{IndexConfig}
use gengis_mimi.Slate.{Slate}
use gengis_mimi.Engine.Serde.{Serde}
use gengis_mimi.Engine.Read.{stats_at}
use gengis_mimi.Index.{IndexStatus}
use gengis_mimi.Index.Keys.{root}
use gengis_mimi.Index.Build.{Tools}
use gengis_mimi.Index.Clusters.{Row}
use gengis_mimi.Index.Filter.{filter_ids}
use gengis_mimi.Search.Top.{IsTop}
use gengis_mimi.Search.Pending.{index_at, pending}
use gengis_mimi.Search.Vector.{
  Scan, no_scan, scan_by, is_exact, scored, vector_query, dirty_scan, filtered_plan, probed_plan,
  indexed_scan, is_few, ids_or_none,
}
use gengis_mimi.Search.Vector.Scans.{hits_of, Covers, Covers-IsTop}
use gengis_mimi.Search.Vector.Exact.{ranking, Hydrated, hydrate-Ensures}
use gengis_mimi.Search.Vector.Best.{no_rows_covered}
use gengis_mimi.Search.Vector.Sources.{
  Stored, Blocks, block_keys, Nearest, probed-Nearest, probe_keys_lem,
}
use gengis_mimi.Search.Vector.Indexed.{
  AllClean, few_selected, Changed, Clean, dirty_scan-Ensures, filtered_scan-Ensures,
  block_scan-Ensures,
}

-- More documents than a threshold: those of a set, or all.
abbrev pub IsMany : ℕ → Option (List Bytes) → Type 0
IsMany threshold none = Unit {0}
IsMany threshold (some ids) = threshold < length ids

not_few :
    (threshold : ℕ) (selected : Option (List Bytes))
    → is_few selected threshold ≡ false
    → IsMany threshold selected
not_few threshold none h = tt
not_few threshold (some ids) h = ground arith

module _ (s : Slate) {J : Type 0} (serde : Serde J) (tools : Tools J) (schema : NamespaceConfig)
    (name : Bytes) (query : QueryRequest J) (db : s.Db) where
  -- How the rows of unchanged documents are read: few selected documents by their IDs, and else
  -- what the filter selects of all blocks of the nearest clusters.
  pub data ReadBy (config : IndexConfig) (index : IndexStatus) (dirty : List Bytes)
      : Option (List Bytes) → Plan → List Row → Type 0 where
    by_ids :
        {ids : List Bytes} {rows : List Row}
        → length ids ≤ config.filter_scan_threshold
        → Stored s serde tools schema name query db dirty ids rows
        → ReadBy config index dirty (some ids) Plan.filtered_exact rows
    by_clusters :
        {selected : Option (List Bytes)} {probed : List (ℕ × ℕ)} {rows : List Row}
        → IsMany config.filter_scan_threshold selected
        → Nearest s serde tools schema name query db index probed
        → Blocks s serde tools schema name query db dirty selected
            (block_keys (root name index.generation) index.cluster_blocks probed)
            rows
        → ReadBy config index dirty selected Plan.centroid_ann rows

  -- Rows of unchanged documents, and then those of the changed ones as they are now.
  pub record Overlaid (config : IndexConfig) (index : IndexStatus) (dirty : List Bytes)
      (selected : Option (List Bytes)) (p : Scan × Plan) : Type 0 where
    pub clean : List Row
    pub changed : List Row
    pub read : ReadBy config index dirty selected p.1 clean
    pub clean_rows : AllClean dirty selected clean
    pub changed_rows : Changed s serde tools schema name query db dirty changed
    pub covers : Covers s serde tools schema name query db (clean ++ changed) p.0

  overlay :
      (config : IndexConfig) (index : IndexStatus) (dirty : List Bytes)
      (selected : Option (List Bytes)) (plan : Plan) {Source : List Row → Type 0} (scan : Scan)
      → ((rows : List Row) → Source rows → ReadBy config index dirty selected plan rows)
      → Clean s serde tools schema name query db dirty selected [] Source scan
      → Ensures
          (λ last. Overlaid config index dirty selected (last, plan))
          (dirty_scan s serde tools schema name query db dirty scan)
  overlay config index dirty selected plan scan by h =
      Ensures-mono
        (dirty_scan-Ensures s serde tools schema name query db dirty h.found scan h.covers)
        λ last more. record {
          clean = h.found;
          changed = more.found;
          read = by h.found h.source;
          clean_rows = h.clean;
          changed_rows = more.changed;
          covers = more.covers;
        }

  filtered_plan-Ensures :
      (config : IndexConfig) (index : IndexStatus) (dirty ids : List Bytes)
      → leb (length ids) config.filter_scan_threshold ≡ true
      → Ensures
          (Overlaid config index dirty (some ids))
          (filtered_plan s serde tools schema name query db dirty ids)
  unfolding filtered_plan
  filtered_plan-Ensures config index dirty ids few =
      Ensures-bind
        (filtered_scan-Ensures s serde tools schema name query db dirty (some ids) ids [] no_scan
          (few_selected (some ids)) (no_rows_covered s serde tools schema name query db))
        λ scan h.
          Ensures-bind
            (overlay config index dirty (some ids) Plan.filtered_exact scan
              (λ rows stored. by_ids (ground arith) stored) h)
            λ last done. returns done

  probed_plan-Ensures :
      (config : IndexConfig) (index : IndexStatus) (dirty : List Bytes)
      (selected : Option (List Bytes))
      → is_few selected config.filter_scan_threshold ≡ false
      → Ensures (Overlaid config index dirty selected) (
          probed_plan s serde tools schema name query db index
            (root name index.generation)
            dirty
            selected)
  unfolding probed_plan
  probed_plan-Ensures config index dirty selected many =
      Ensures-bind
        (block_scan-Ensures s serde tools schema name query db dirty selected _ [] no_scan
          (no_rows_covered s serde tools schema name query db))
        λ scan h.
          Ensures-bind
            (overlay config index dirty selected Plan.centroid_ann scan
              (λ rows blocks.
                by_clusters (not_few config.filter_scan_threshold selected many)
                  (probed-Nearest s serde tools schema name query db index)
                  (subst
                    (λ keys. Blocks s serde tools schema name query db dirty selected keys rows)
                    (probe_keys_lem (root name index.generation) index.cluster_blocks _) blocks))
              h)
            λ last done. returns done

  -- What an indexed query read, and what it answers.
  pub record IsIndexed (config : IndexConfig) (index : IndexStatus) (r : QueryResult J)
      : Type 0 where
    pub dirty : List Bytes
    pub dirty_eq : pending s db name index.revision ≡ ok dirty
    pub selected : Option (List Bytes)
    pub selected_eq : filter_ids s tools db (root name index.generation) query.filter ≡ ok selected
    pub clean : List Row
    pub changed : List Row
    pub read : ReadBy config index dirty selected r.plan clean
    pub clean_rows : AllClean dirty selected clean
    pub changed_rows : Changed s serde tools schema name query db dirty changed
    pub top :
        IsTop query.top_k
          (hits_of s serde tools schema name query db (clean ++ changed))
          (ranking r.matches)
    pub hydrated : Hydrated s serde db name r.matches
    pub indexed_revision : r.indexed_revision ≡ index.revision

  record Scanned (config : IndexConfig) (index : IndexStatus) (p : Scan × Plan) : Type 0 where
    dirty : List Bytes
    dirty_eq : pending s db name index.revision ≡ ok dirty
    selected : Option (List Bytes)
    selected_eq : filter_ids s tools db (root name index.generation) query.filter ≡ ok selected
    overlaid : Overlaid config index dirty selected p

  indexed_scan-Ensures :
      (config : IndexConfig) (index : IndexStatus)
      → Ensures
          (Scanned config index)
          (indexed_scan s serde tools schema name query db config index)
  unfolding indexed_scan
  indexed_scan-Ensures config index =
      Ensures-bind_eq (pending s db name index.revision) λ dirty read.
        Ensures-bind_eq (filter_ids s tools db (root name index.generation) query.filter)
          λ selected found. Ensures-mono (either dirty selected) λ p h. record {
            dirty = dirty;
            dirty_eq = read;
            selected = selected;
            selected_eq = found;
            overlaid = h;
          }
    where
      either :
          (dirty : List Bytes) (selected : Option (List Bytes))
          → Ensures (Overlaid config index dirty selected) (
              if is_few selected config.filter_scan_threshold
              then filtered_plan s serde tools schema name query db dirty (ids_or_none selected)
              else probed_plan s serde tools schema name query db index
                  (root name index.generation)
                  dirty
                  selected)
      either dirty none = probed_plan-Ensures config index dirty none refl
      either dirty (some ids) = elim (Bool-cases (leb (length ids) config.filter_scan_threshold)) [
        | inl few ↦ rw few (filtered_plan-Ensures config index dirty ids few)
        | inr many ↦ rw many (probed_plan-Ensures config index dirty (some ids) many)
      ]

  by_index :
      (config : IndexConfig) (index : IndexStatus)
      → is_exact query.mode ≡ false
      → Ensures
          (Scanned config index)
          (scan_by s serde tools schema name query db config (some index))
  by_index config index mode = rw mode (indexed_scan-Ensures config index)

  query-Ensures :
      (config : IndexConfig) (index : IndexStatus)
      → index_at s tools.serde db name ≡ ok (some index)
      → is_exact query.mode ≡ false
      → Ensures (IsIndexed config index) (vector_query s serde tools schema name query db config)
  unfolding vector_query
  query-Ensures config index at_key mode = Ensures-bind_eq (stats_at s serde db name) λ stats _.
      rw at_key (
        Ensures-bind (by_index config index mode) λ (scan, plan) h.
          Ensures-bind
            (hydrate-Ensures s serde db name
              (scored s serde tools schema name query db scan.rows scan.best))
            λ matches (same, hydrated). returns (record {
              dirty = h.dirty;
              dirty_eq = h.dirty_eq;
              selected = h.selected;
              selected_eq = h.selected_eq;
              clean = h.overlaid.clean;
              changed = h.overlaid.changed;
              read = h.overlaid.read;
              clean_rows = h.overlaid.clean_rows;
              changed_rows = h.overlaid.changed_rows;
              top = rw same (
                  Covers-IsTop s serde tools schema name query db
                    (h.overlaid.clean ++ h.overlaid.changed) scan h.overlaid.covers);
              hydrated = hydrated;
              indexed_revision = refl;
            }))

  -- Not in exact mode, and with an index, a vector query that returns has found which documents
  -- changed since the index was built and which the filter selects in it. Its hits are the first
  -- `top_k`, by falling score and rising ID, of rows of unchanged documents together with a row
  -- for each changed document as its keys hold it now, where the filter matches it and it has a
  -- vector. The rows of unchanged documents are, where the filter selects at most
  -- `filter_scan_threshold` IDs, the stored vector of each unchanged one of them that has one, and
  -- otherwise those rows of all blocks of the first `probes` clusters, by falling score of the
  -- centroid and rising number, that are of unchanged documents which the filter selects. Each hit
  -- has the attributes that its document's key holds.
  pub vector_query-IsIndexed :
      (config : IndexConfig) {index : IndexStatus} {r : QueryResult J}
      → index_at s tools.serde db name ≡ ok (some index)
      → is_exact query.mode ≡ false
      → vector_query s serde tools schema name query db config ≡ ok r
      → IsIndexed config index r
  vector_query-IsIndexed config {index} at_key mode e =
      Ensures-eq-ok (query-Ensures config index at_key mode) e
