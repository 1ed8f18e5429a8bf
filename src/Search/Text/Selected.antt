-- ===== src/Search/Text/Selected.antt =====
-- Which documents `text_query` of src/search.rs may score: those that the filter selects, described
-- apart from the sets that the code gathers.
use gengis_mimi.Shared.{
  ◌≡◌, refl, true, false, inl, inr, Option, none, some, List, [], ◌∷◌, All, Bool-cases,
}
use gengis_mimi.Shared.Bytes.{Bytes}
use gengis_mimi.Shared.Maps.{map_get, set_contains}
use gengis_mimi.Error.{ok}
use gengis_mimi.Model.{Document, filter_matches}
use gengis_mimi.Model.Query.{TextQuery}
use gengis_mimi.Slate.{Slate}
use gengis_mimi.Slate.Entries.{Entry, with_prefix}
use gengis_mimi.Engine.Serde.{Serde}
use gengis_mimi.Engine.Keys.{document_prefix}
use gengis_mimi.Engine.Read.{attributes_at}
use gengis_mimi.Index.{IndexStatus, Posting}
use gengis_mimi.Index.Value.{json_of}
use gengis_mimi.Index.Keys.{root}
use gengis_mimi.Index.Tokens.{tokenize}
use gengis_mimi.Index.Build.{Tools}
use gengis_mimi.Index.Filter.{filter_ids}
use gengis_mimi.Search.Pending.{pending}
use gengis_mimi.Search.Vector.{allows}
use gengis_mimi.Search.Text.{Found, Gathering, add_text, add_eligible, text_of, add_text_document}
use gengis_mimi.Search.Text.Scores.{RowsOf, FoundOf}
use gengis_mimi.Search.Text.Sets.{contains-All, set_insert-All, AllFound, add_terms_found-All}

module _ (s : Slate) {J : Type 0} (serde : Serde J) (tools : Tools J) (name : Bytes)
    (query : TextQuery J) (db : s.Db) where
  -- The filter matches the attributes of the document, and this is its ID.
  abbrev pub IsMatch : Document J → Bytes → Type 0
  IsMatch doc id =
      (doc.id ≡ id) × (filter_matches (json_of tools.json) query.filter doc.attributes ≡ true)

  -- One of the rows holds a document with this ID that the filter matches.
  pub data Holds (id : Bytes) : List Entry → Type 0 where
    in_row :
        {key value : Bytes} {doc : Document J} {rows : List Entry}
        → serde.document_from_slice value ≡ some doc
        → IsMatch doc id
        → Holds id ((key, value) ∷ rows)
    further : {row : Entry} {rows : List Entry} → Holds id rows → Holds id (row ∷ rows)

  -- The index selects the ID and its document has not changed since, or a document that has
  -- changed has it and the filter matches what it holds now.
  pub data Chosen (active : IndexStatus) (id : Bytes) : Type 0 where
    unchanged :
        {dirty : List Bytes} {selected : Option (List Bytes)}
        → pending s db name active.revision ≡ ok dirty
        → filter_ids s tools db (root name active.generation) query.filter ≡ ok selected
        → set_contains dirty id ≡ false
        → allows selected id ≡ true
        → Chosen active id
    changed :
        {dirty : List Bytes} (key : Bytes) {doc : Document J}
        → pending s db name active.revision ≡ ok dirty
        → set_contains dirty key ≡ true
        → attributes_at s serde db name key ≡ ok (some doc)
        → IsMatch doc id
        → Chosen active id

  -- Without an index, all documents are looked at.
  abbrev pub IsSelected : Option IndexStatus → Bytes → Type 0
  IsSelected none id = Holds id (with_prefix (document_prefix name) (s.entries db))
  IsSelected (some active) id = Chosen active id

  module _ (P : Bytes → Type 0) where
    -- All that may be scored has the property: what is in the set, and without one, as there is
    -- no test then, all that was found.
    abbrev pub Keeps : Option (List Bytes) → Found → Type 0
    Keeps none found = (query.filter.eq ≡ []) × (query.filter.range ≡ []) × AllFound P found
    Keeps (some ids) found = All P ids

    untested :
        (doc : Document J)
        → query.filter.eq ≡ []
        → query.filter.range ≡ []
        → filter_matches (json_of tools.json) query.filter doc.attributes ≡ true
    unfolding filter_matches
    untested doc no_eq no_range = rw (no_eq, no_range) refl

    add_text-All :
        (id : Bytes) (text : Option Bytes) (g : Gathering)
        → P id
        → AllFound P g.found
        → AllFound P (add_text s serde tools name query db id text g).found
    add_text-All id none g p a = a
    add_text-All id (some text) g p a =
        add_terms_found-All P id (tokenize tools.unicode text) g.found p a

    document-Keeps :
        (doc : Document J) (e : Option (List Bytes)) (text : Option Bytes) (g : Gathering)
        → (IsMatch doc doc.id → P doc.id)
        → Keeps e g.found
        → Keeps
            (add_eligible s serde tools name query db doc e)
            (add_text s serde tools name query db doc.id text g).found
    unfolding add_eligible
    document-Keeps doc none text g p (no_eq, no_range, a) =
        (no_eq, no_range, add_text-All doc.id text g (p (refl, untested doc no_eq no_range)) a)
    document-Keeps doc (some ids) text g p a =
        elim (Bool-cases (filter_matches (json_of tools.json) query.filter doc.attributes)) [
          | inl matched ↦ rw matched (set_insert-All P doc.id ids (p (refl, matched)) a)
          | inr other ↦ rw other a
        ]

    pub add-Keeps :
        (doc : Document J) (g : Gathering)
        → (IsMatch doc doc.id → P doc.id)
        → Keeps g.eligible g.found
        → Keeps
            (add_text_document s serde tools name query db doc g).eligible
            (add_text_document s serde tools name query db doc g).found
    unfolding add_text_document
    add-Keeps doc g p h =
        document-Keeps doc g.eligible
          (text_of s serde tools name query db (map_get query.field doc.attributes)) g p h

    pub Keeps-FoundOf :
        (e : Option (List Bytes)) (found : Found)
        → Keeps e found
        → FoundOf tools.arithmetic P e found
    Keeps-FoundOf none [] h = tt
    Keeps-FoundOf none ((term, rows) ∷ found) (no_eq, no_range, (r, a)) =
        (each rows r, Keeps-FoundOf none found (no_eq, no_range, a))
      where
        each :
            (rows : List (Bytes × Posting))
            → All (λ (row : Bytes × Posting). P row.0) rows
            → RowsOf tools.arithmetic P none rows
        each [] r = tt
        each ((id, p) ∷ rows) (q, r) = ((λ _. q), each rows r)
    Keeps-FoundOf (some ids) [] h = tt
    Keeps-FoundOf (some ids) ((term, rows) ∷ found) h =
        (each rows, Keeps-FoundOf (some ids) found h)
      where
        each : (rows : List (Bytes × Posting)) → RowsOf tools.arithmetic P (some ids) rows
        each [] = tt
        each ((id, p) ∷ rows) = (contains-All P ids id h, each rows)
