-- ===== src/Search/Text.antt =====
-- `text_query` and `add_text_document` of src/search.rs and `Engine::search_text` of src/engine.rs.
pub mod Scores
pub mod Sets
pub mod Selected
pub mod Gathered
pub mod Scored
pub mod Occurs
pub mod Answered
pub mod Complete
pub mod Best
use gengis_mimi.Shared.{
  ℕ, ◌+◌, ◌^◌, Bool, true, false, not, ◌&&◌, ◌||◌, Option, none, some, List, [], ◌∷◌, ◌++◌, map,
  any, length, ltb, ◌==◌, in_range, if◌then◌else◌,
}
use gengis_mimi.Shared.Bytes.{Bytes, bytes_eq}
use gengis_mimi.Shared.Word.{add64, sub64}
use gengis_mimi.Shared.Maps.{map_get, map_insert, map_update, set_contains, set_insert, keep}
use gengis_mimi.Error.{Error, Result, ok, err, ◌>>=◌, ◌>>◌, reject_if, ok_or}
use gengis_mimi.Model.{Document, Filter, filter_matches}
use gengis_mimi.Model.Query.{TextQuery, QueryResult, Plan}
use gengis_mimi.Model.Float.{Arithmetic, lt_f64}
use gengis_mimi.Slate.{Slate}
use gengis_mimi.Slate.Entries.{Entry}
use gengis_mimi.Engine.Serde.{Serde}
use gengis_mimi.Engine.Keys.{document_prefix}
use gengis_mimi.Engine.Read.{stats_at, attributes_at, unwrap_or}
use gengis_mimi.Index.{IndexStatus, Corpus, Terms, Posting}
use gengis_mimi.Index.Value.{json_of}
use gengis_mimi.Index.Keys.{root, digest, field_prefix, length_key}
use gengis_mimi.Index.Tokens.{tokenize}
use gengis_mimi.Index.Build.{Tools}
use gengis_mimi.Index.Filter.{postings, filter_ids}
use gengis_mimi.Search.Hits.{Hit, retain_all, hydrate}
use gengis_mimi.Search.Pending.{pending, index_at}

-- The postings of each term of the query, by document.
abbrev pub Found : Type 0
Found = List (Bytes × List (Bytes × Posting))

-- The corpus, the postings, and the documents that the filter selects, if there is one.
pub record Gathering : Type 0 where
  pub corpus : Corpus
  pub found : Found
  pub eligible : Option (List Bytes)

abbrev pub no_corpus : Corpus
no_corpus = record { documents = 0; tokens = 0 }

unfoldable pub empty_found : List (Bytes × ℕ) → Found
empty_found [] = []
empty_found ((term, n) ∷ terms) = (term, []) ∷ empty_found terms

abbrev pub add_posting : Bytes → ℕ → Option ℕ → List (Bytes × Posting) → List (Bytes × Posting)
add_posting id length none rows = rows
add_posting id length (some frequency) rows =
    map_insert id (record { id = id; frequency = frequency; length = length }) rows

unfoldable pub add_terms_found : Bytes → Terms → Found → Found
unfolding map_get map_insert
add_terms_found id terms [] = []
add_terms_found id terms ((term, rows) ∷ found) =
    (term, add_posting id terms.length (map_get term terms.frequencies) rows)
    ∷ add_terms_found id terms found

-- The postings of an index, less those of the documents that changed since.
unfoldable pub insert_clean :
    List Bytes → List Posting → List (Bytes × Posting) → List (Bytes × Posting)
unfolding map_insert set_contains
insert_clean dirty [] rows = rows
insert_clean dirty (p ∷ ps) rows =
    insert_clean dirty ps (if set_contains dirty p.id then rows else map_insert p.id p rows)

abbrev pub retain_clean : List Bytes → Option (List Bytes) → Option (List Bytes)
retain_clean dirty none = none
retain_clean dirty (some ids) = some (keep (λ id. not (set_contains dirty id)) ids)

abbrev pub grow : ℕ → Corpus → Corpus
grow length corpus = record {
  documents = add64 corpus.documents 1;
  tokens = add64 corpus.tokens length;
}

abbrev pub shrink : Option Terms → Corpus → Corpus
shrink none corpus = corpus
shrink (some old) corpus = record {
  documents = sub64 corpus.documents 1;
  tokens = sub64 corpus.tokens old.length;
}

abbrev pub is_nil {ℓ} : {A : Type ℓ} → List A → Bool
is_nil [] = true
is_nil (x ∷ xs) = false

-- The weight of a posting.
module _ (arithmetic : Arithmetic) where
  open arithmetic use {of_int, add, sub, mul, div, ln, quarter, half, three_quarters, one}

  unfoldable pub average_of : Corpus → ℕ
  average_of corpus =
      if ltb 0 corpus.documents then div (of_int corpus.tokens) (of_int corpus.documents) else 0

  unfoldable pub idf_of : Corpus → ℕ → ℕ
  idf_of corpus df =
      ln (
        add one (div (add (sub (of_int corpus.documents) (of_int df)) half) (add (of_int df) half)))

  unfoldable pub weight : ℕ → ℕ → Posting → ℕ
  weight idf average p = div (mul idf (mul (of_int p.frequency) arithmetic.two_and_a_fifth)) (
      add (of_int p.frequency) (
        mul arithmetic.one_fifth_more
          (add quarter (div (mul three_quarters (of_int p.length)) average))))

  abbrev pub is_eligible : Option (List Bytes) → Bytes → Bool
  is_eligible none id = true
  is_eligible (some ids) id = set_contains ids id

  -- `*scores.entry(id).or_default() += ...`
  unfoldable pub score_term :
      Option (List Bytes) → ℕ → ℕ → List (Bytes × Posting) → List Hit → List Hit
  unfolding map_update set_contains weight
  score_term eligible idf average [] scores = scores
  score_term eligible idf average ((id, p) ∷ rows) scores = score_term eligible idf average rows (
      if is_eligible eligible id && lt_f64 0 average
      then map_update 0 id (λ (v : ℕ). add v (weight idf average p)) scores
      else scores)

  unfoldable pub score_terms : Option (List Bytes) → Corpus → Found → List Hit → List Hit
  unfolding score_term average_of idf_of
  score_terms eligible corpus [] scores = scores
  score_terms eligible corpus ((term, rows) ∷ found) scores =
      score_terms eligible corpus found
        (score_term eligible (idf_of corpus (length rows)) (average_of corpus) rows scores)

module _ (s : Slate) {J : Type 0} (serde : Serde J) (tools : Tools J) (name : Bytes)
    (query : TextQuery J) (db : s.Db) where
  abbrev pub text_of : Option J → Option Bytes
  text_of none = none
  text_of (some value) = tools.json.as_str value

  abbrev pub add_text : Bytes → Option Bytes → Gathering → Gathering
  add_text id none g = g
  add_text id (some text) g = record g {
    corpus = grow (tokenize tools.unicode text).length g.corpus;
    found = add_terms_found id (tokenize tools.unicode text) g.found;
  }

  abbrev pub add_eligible : Document J → Option (List Bytes) → Option (List Bytes)
  unfolding filter_matches set_insert
  add_eligible document none = none
  add_eligible document (some ids) =
      if filter_matches (json_of tools.json) query.filter document.attributes
      then some (set_insert document.id ids)
      else some ids

  unfoldable pub add_text_document : Document J → Gathering → Gathering
  unfolding map_get tokenize add_terms_found filter_matches set_insert
  add_text_document document g =
      let more = add_text document.id (text_of (map_get query.field document.attributes)) g in
      record more { eligible = add_eligible document g.eligible }

  -- The loop over all documents, where there is no index.
  unfoldable pub scan_documents : List Entry → Gathering → Result Gathering
  unfolding add_text_document
  scan_documents [] g = ok g
  scan_documents ((key, value) ∷ rows) g = do
    document ← ok_or (serde.document_from_slice value) Error.encoding
    scan_documents rows (add_text_document document g)

  abbrev pub term_prefix : Bytes → Bytes → Bytes
  unfolding digest
  term_prefix prefix term =
      field_prefix prefix b't' (digest tools.sha256 query.field) (digest tools.sha256 term)

  -- The loop over the terms that reads their postings.
  unfoldable pub read_terms : Bytes → List Bytes → Found → Result Found
  unfolding digest postings insert_clean
  read_terms prefix dirty [] = ok []
  read_terms prefix dirty ((term, rows) ∷ found) = do
    items ← postings s tools.serde.postings_from_slice db (term_prefix prefix term)
    rest ← read_terms prefix dirty found
    ok ((term, insert_clean dirty items rows) ∷ rest)

  abbrev pub old_terms : Option Bytes → Result (Option Terms)
  unfolding map_get
  old_terms none = ok none
  old_terms (some bytes) = do
    old ← ok_or (tools.serde.terms_from_slice bytes) Error.encoding
    ok (map_get query.field old)

  abbrev pub add_if_some : Option (Document J) → Gathering → Gathering
  unfolding add_text_document
  add_if_some none g = g
  add_if_some (some document) g = add_text_document document g

  -- The loop over the documents that changed since the index was built.
  unfoldable pub replace_dirty : Bytes → List Bytes → Gathering → Result Gathering
  unfolding map_get add_text_document
  replace_dirty prefix [] g = ok g
  replace_dirty prefix (id ∷ ids) g = do
    stored ← s.get db (length_key prefix id)
    old ← old_terms stored
    document ← attributes_at s serde db name id
    replace_dirty prefix ids (add_if_some document (record g { corpus = shrink old g.corpus }))

  unfoldable pub indexed_text : IndexStatus → Found → Result Gathering
  unfolding root map_get keep set_contains
  indexed_text active found = do
    let prefix = root name active.generation
    dirty ← pending s db name active.revision
    eligible ← filter_ids s tools db prefix query.filter
    found ← read_terms prefix dirty found
    replace_dirty prefix dirty (record {
      corpus = unwrap_or no_corpus (map_get query.field active.text);
      found = found;
      eligible = retain_clean dirty eligible;
    })

  abbrev pub all_or_none : Option (List Bytes)
  all_or_none = if is_nil query.filter.eq && is_nil query.filter.range then none else some []

  unfoldable pub scanned_text : Found → Result (Gathering × ℕ)
  unfolding scan_documents
  scanned_text found = do
    rows ← s.scan_prefix db (document_prefix name)
    g ← scan_documents rows (record { corpus = no_corpus; found = found; eligible = all_or_none })
    ok (g, length rows)

  unfoldable pub scores_of : Gathering → List Hit
  unfolding score_terms
  scores_of g = score_terms tools.arithmetic g.eligible g.corpus g.found []

  -- What was scored, the plan, the count and the watermark.
  unfoldable pub gather : Option IndexStatus → Found → Result (List Hit × Plan × ℕ × ℕ)
  unfolding scanned_text indexed_text scores_of
  gather none found = do
    (g, scanned) ← scanned_text found
    ok (scores_of g, Plan.bm25_scan, scanned, 0)
  gather (some active) found = do
    g ← indexed_text active found
    ok (scores_of g, Plan.bm25_index, length (scores_of g), active.revision)

  unfoldable pub text_query : Result (QueryResult J)
  unfolding tokenize empty_found index_at gather retain_all hydrate
  text_query = do
    let terms = tokenize tools.unicode query.text
    reject_if (length terms.frequencies == 0 || ltb 32 (length terms.frequencies)) Error.invalid
    stats ← stats_at s serde db name
    active ← index_at s tools.serde db name
    (scores, plan, scanned, indexed) ← gather active (empty_found terms.frequencies)
    matches ← hydrate s serde db name (retain_all query.top_k scores [])
    ok (record {
      matches = matches;
      scanned_documents = scanned;
      plan = plan;
      revision = stats.revision;
      indexed_revision = indexed;
    })
