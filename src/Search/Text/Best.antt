-- ===== src/Search/Text/Best.antt =====
-- The result of `text_query` of src/search.rs.
use gengis_mimi.Shared.{
  All, ℕ, ◌≡◌, ◌≤◌, refl, false, ◌||◌, Option, none, some, List, [], length, arith, ltb, ◌==◌,
}
use gengis_mimi.Shared.Bytes.{Bytes}
use gengis_mimi.Error.{Error, ok}
use gengis_mimi.Error.Ensures.{
  Ensures, returns, Ensures-bind, Ensures-bind_eq, Ensures-reject_if, Ensures-eq-ok,
}
use gengis_mimi.Model.Query.{TextQuery, QueryResult, Plan}
use gengis_mimi.Slate.{Slate}
use gengis_mimi.Engine.Serde.{Serde}
use gengis_mimi.Engine.Read.{stats_at}
use gengis_mimi.Index.{IndexStatus}
use gengis_mimi.Index.Build.{Tools}
use gengis_mimi.Index.Tokens.{tokenize}
use gengis_mimi.Search.Hits.{Hit, retain_all}
use gengis_mimi.Search.Top.{IsTop, IsTop-nil, retain_all-IsTop}
use gengis_mimi.Search.Pending.{index_at}
use gengis_mimi.Search.Vector.Exact.{ranking, Hydrated, hydrate-Ensures}
use gengis_mimi.Search.Text.{
  Gathering, empty_found, gather, scanned_text, indexed_text, scores_of, text_query,
}
use gengis_mimi.Search.Text.Scores.{score_terms-All}
use gengis_mimi.Search.Text.Sets.{empty_found-All}
use gengis_mimi.Search.Text.Selected.{IsSelected}
use gengis_mimi.Search.Text.Complete.{IsAnswered, scanned_text-IsAnswered}
use gengis_mimi.Search.Text.Gathered.{scanned_text-FoundOf, indexed_text-FoundOf}

module _ (s : Slate) {J : Type 0} (serde : Serde J) (tools : Tools J) (name : Bytes)
    (query : TextQuery J) (db : s.Db) where
  -- What the query gathered, by either plan.
  pub data GatheredBy : Option IndexStatus → Plan → Gathering → Type 0 where
    by_scan :
        {g : Gathering} {n : ℕ}
        → scanned_text s serde tools name query db
            (empty_found (tokenize tools.unicode query.text).frequencies)
          ≡ ok (g, n)
        → IsAnswered s serde tools name query db g
        → GatheredBy none Plan.bm25_scan g
    by_index :
        {active : IndexStatus} {g : Gathering}
        → indexed_text s serde tools name query db active
            (empty_found (tokenize tools.unicode query.text).frequencies)
          ≡ ok g
        → GatheredBy (some active) Plan.bm25_index g

  -- The best scores of what was gathered, all of documents that the filter selects.
  pub record IsRanked (r : QueryResult J) : Type 0 where
    pub terms :
        (1 ≤ length (tokenize tools.unicode query.text).frequencies)
        × (length (tokenize tools.unicode query.text).frequencies ≤ 32)
    pub active : Option IndexStatus
    pub active_eq : index_at s tools.serde db name ≡ ok active
    pub gathering : Gathering
    pub gathered : GatheredBy active r.plan gathering
    pub selected :
        All
          (λ (hit : Hit). IsSelected s serde tools name query db active hit.0)
          (scores_of s serde tools name query db gathering)
    pub top :
        IsTop query.top_k (scores_of s serde tools name query db gathering) (ranking r.matches)
    pub hydrated : Hydrated s serde db name r.matches

  record Gathered (active : Option IndexStatus) (p : List Hit × Plan × ℕ × ℕ) : Type 0 where
    gathering : Gathering
    gathered : GatheredBy active p.1 gathering
    selected :
        All
          (λ (hit : Hit). IsSelected s serde tools name query db active hit.0)
          (scores_of s serde tools name query db gathering)
    scores : p.0 ≡ scores_of s serde tools name query db gathering

  gather-Ensures :
      (active : Option IndexStatus)
      → Ensures (Gathered active) (
          gather s serde tools name query db active
            (empty_found (tokenize tools.unicode query.text).frequencies))
  unfolding gather scores_of
  gather-Ensures none = Ensures-bind_eq (scanned_text s serde tools name query db _) λ (g, n) e.
      returns (record {
        gathering = g;
        gathered = by_scan e (scanned_text-IsAnswered s serde tools name query db e);
        selected =
            score_terms-All tools.arithmetic _ g.eligible g.corpus g.found []
              (scanned_text-FoundOf s serde tools name query db _ (empty_found-All _ _) e) tt;
        scores = refl;
      })
  gather-Ensures (some active) =
      Ensures-bind_eq (indexed_text s serde tools name query db active _) λ g e. returns (record {
        gathering = g;
        gathered = by_index e;
        selected =
            score_terms-All tools.arithmetic _ g.eligible g.corpus g.found []
              (indexed_text-FoundOf s serde tools name query db active _ (empty_found-All _ _) e)
              tt;
        scores = refl;
      })

  in_bounds : (n : ℕ) → (n == 0 || ltb 32 n) ≡ false → (1 ≤ n) × (n ≤ 32)
  in_bounds n h = (ground arith, ground arith)

  text_query-Ensures : Ensures IsRanked (text_query s serde tools name query db)
  unfolding text_query scores_of
  text_query-Ensures = Ensures-reject_if _ Error.invalid λ few.
      Ensures-bind_eq (stats_at s serde db name) λ stats _.
        Ensures-bind_eq (index_at s tools.serde db name) λ active at_key.
          Ensures-bind (gather-Ensures active) λ (scores, plan, scanned, indexed) h.
            Ensures-bind (hydrate-Ensures s serde db name (retain_all query.top_k scores []))
              λ matches (same, hydrated). returns (record {
                terms = in_bounds _ few;
                active = active;
                active_eq = at_key;
                gathering = h.gathering;
                gathered = h.gathered;
                selected = h.selected;
                top =
                    rw (same, h.scores)
                      (retain_all-IsTop query.top_k
                        (scores_of s serde tools name query db h.gathering) [] []
                        (IsTop-nil query.top_k));
                hydrated = hydrated;
              })

  -- A text query that returns has 1 to 32 distinct terms. Its hits are the first `top_k`, by
  -- falling score and rising ID, of the scores of what it gathered, from the index where there is
  -- one and from a scan of all documents where there is none. Only what the filter selects is
  -- scored: in a scan, the ID of a stored document that the filter matches; with an index, an ID
  -- that has not changed since it was built and that the filter selects in it, or the ID of a
  -- changed document that the filter matches as its key holds it now. In a scan in which the
  -- average length of the texts is positive, every stored document is scored that the filter
  -- matches and in whose field a term of the query occurs. Each hit has the attributes that its
  -- document's key holds.
  pub text_query-IsRanked :
      {r : QueryResult J} → text_query s serde tools name query db ≡ ok r → IsRanked r
  text_query-IsRanked e = Ensures-eq-ok text_query-Ensures e
