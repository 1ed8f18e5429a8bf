-- ===== src/Search/Vector/Best.antt =====
-- The result of an exact `vector_query` of src/search.rs.
use gengis_mimi.Shared.{
  ℕ, ◌+◌, ◌≡◌, ◌⊎◌, refl, sym, ◌∙◌, true, inl, inr, Option, none, some, List, [], length, arith,
}
use gengis_mimi.Shared.Bytes.{Bytes}
use gengis_mimi.Error.{ok, ok-injective}
use gengis_mimi.Error.Ensures.{Ensures, returns, Ensures-bind, Ensures-bind_eq, Ensures-eq-ok}
use gengis_mimi.Model.{NamespaceConfig}
use gengis_mimi.Model.Query.{QueryRequest, QueryResult, Plan}
use gengis_mimi.Config.{IndexConfig}
use gengis_mimi.Slate.{Slate}
use gengis_mimi.Slate.Entries.{with_prefix}
use gengis_mimi.Engine.Serde.{Serde}
use gengis_mimi.Engine.Keys.{document_prefix}
use gengis_mimi.Engine.Read.{stats_at}
use gengis_mimi.Index.{IndexStatus}
use gengis_mimi.Index.Build.{Tools}
use gengis_mimi.Index.Clusters.{Row}
use gengis_mimi.Search.Top.{IsTop, IsTop-nil}
use gengis_mimi.Search.Pending.{index_at}
use gengis_mimi.Search.Vector.{Scan, no_scan, full_scan, scan_by, is_exact, scored, vector_query}
use gengis_mimi.Search.Vector.Scans.{hits_of, Covers, Covers-IsTop}
use gengis_mimi.Search.Vector.Exact.{
  ranking, Hydrated, hydrate-Ensures, Matching, Scanned, exact_scan-Ensures,
}

module _ (s : Slate) {J : Type 0} (serde : Serde J) (tools : Tools J) (schema : NamespaceConfig)
    (name : Bytes) (query : QueryRequest J) (db : s.Db) where
  pub no_rows_covered : Covers s serde tools schema name query db [] no_scan
  no_rows_covered = record { done = []; split = refl; top = IsTop-nil query.top_k }

  -- The best of all documents that the filter matches and that have a vector.
  pub record IsExact (r : QueryResult J) : Type 0 where
    pub candidates : List Row
    pub matching :
        Matching s serde tools schema name query db
          (with_prefix (document_prefix name) (s.entries db))
          candidates
    pub top :
        IsTop query.top_k
          (hits_of s serde tools schema name query db candidates)
          (ranking r.matches)
    pub hydrated : Hydrated s serde db name r.matches
    pub scanned : r.scanned_documents ≡ length (with_prefix (document_prefix name) (s.entries db))
    pub plan : r.plan ≡ Plan.exact_scan

  record FullScan (p : Scan × Plan) : Type 0 where
    all_scanned :
        Scanned s serde tools schema name query db []
          (with_prefix (document_prefix name) (s.entries db))
          0
          p.0
    by_plan : p.1 ≡ Plan.exact_scan

  full_scan-Ensures : Ensures FullScan (full_scan s serde tools schema name query db)
  unfolding full_scan
  full_scan-Ensures = Ensures-bind_eq (s.scan_prefix db (document_prefix name)) λ rows listed.
      Ensures-bind
        (exact_scan-Ensures s serde tools schema name query db rows [] no_scan no_rows_covered)
        λ scan h. returns (record {
          all_scanned = rw (s.scan_prefix_lem db (document_prefix name) listed) at h;
          by_plan = refl;
        })

  exact_by :
      (config : IndexConfig) (index : Option IndexStatus)
      → (index ≡ none) ⊎ (is_exact query.mode ≡ true)
      → Ensures FullScan (scan_by s serde tools schema name query db config index)
  exact_by config none why = full_scan-Ensures
  exact_by config (some index) (inl e) = cc
  exact_by config (some index) (inr e) = rw e full_scan-Ensures

  vector_query-Ensures :
      (config : IndexConfig)
      → (index_at s tools.serde db name ≡ ok none) ⊎ (is_exact query.mode ≡ true)
      → Ensures IsExact (vector_query s serde tools schema name query db config)
  unfolding vector_query
  vector_query-Ensures config why = Ensures-bind_eq (stats_at s serde db name) λ stats _.
      Ensures-bind_eq (index_at s tools.serde db name) λ index at_key.
        Ensures-bind (exact_by config index (absent index at_key why)) λ (scan, plan) full.
          Ensures-bind
            (hydrate-Ensures s serde db name
              (scored s serde tools schema name query db scan.rows scan.best))
            λ matches (same, hydrated). returns (record {
              candidates = full.all_scanned.found;
              matching = full.all_scanned.matching;
              top = rw same (
                  Covers-IsTop s serde tools schema name query db full.all_scanned.found scan
                    full.all_scanned.covers);
              hydrated = hydrated;
              scanned = full.all_scanned.scanned ∙ zero_add _;
              plan = full.by_plan;
            })
    where
      absent :
          (index : Option IndexStatus)
          → index_at s tools.serde db name ≡ ok index
          → (index_at s tools.serde db name ≡ ok none) ⊎ (is_exact query.mode ≡ true)
          → (index ≡ none) ⊎ (is_exact query.mode ≡ true)
      absent index e (inl none_there) = inl (ok-injective (sym e ∙ none_there))
      absent index e (inr exact) = inr exact

      zero_add : (n : ℕ) → 0 + n ≡ n
      zero_add n = omega arith

  -- In exact mode, or where there is no index, a vector query that returns ranks as one list the
  -- documents of the namespace that the filter matches and that have a vector: its hits are the
  -- first `top_k` of all of their scores, in falling order of the score and rising order of the
  -- ID, each with the attributes that its document's key holds, and it counts every document as
  -- scanned.
  pub vector_query-IsExact :
      (config : IndexConfig) {r : QueryResult J}
      → (index_at s tools.serde db name ≡ ok none) ⊎ (is_exact query.mode ≡ true)
      → vector_query s serde tools schema name query db config ≡ ok r
      → IsExact r
  vector_query-IsExact config why e = Ensures-eq-ok (vector_query-Ensures config why) e
