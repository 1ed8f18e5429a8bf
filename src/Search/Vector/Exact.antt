-- ===== src/Search/Vector/Exact.antt =====
-- An exact query of src/search.rs against its description: the best of all documents that the filter
-- matches and that have a vector.
use gengis_mimi.Shared.{
  ℕ, suc, ◌+◌, ◌≡◌, ◌⊎◌, refl, ap, ◌∙◌, Bool, true, false, inl, inr, Option, none, some, List, [],
  ◌∷◌, ◌++◌, append-nil, append_assoc, length, arith, ◌==◌, Bool-cases,
}
use gengis_mimi.Shared.Bytes.{Bytes}
use gengis_mimi.Error.{Error, ok}
use gengis_mimi.Error.Ensures.{
  Ensures, returns, Ensures-bind, Ensures-bind_eq, Ensures-ok_or, Ensures-mono,
}
use gengis_mimi.Model.{NamespaceConfig, Document}
use gengis_mimi.Model.Query.{QueryRequest, SearchHit}
use gengis_mimi.Slate.{Slate}
use gengis_mimi.Slate.Entries.{Entry}
use gengis_mimi.Engine.Serde.{Serde}
use gengis_mimi.Engine.Read.{vector_at, attributes_at}
use gengis_mimi.Index.Build.{Tools}
use gengis_mimi.Index.Clusters.{Row}
use gengis_mimi.Search.Hits.{Hit, hydrate}
use gengis_mimi.Search.Vector.{Scan, flush, add_found, matches_filter, vector_if, exact_scan}
use gengis_mimi.Search.Vector.Scans.{found_row, Covers, Covers-round}

-- The hits without the attributes.
abbrev pub ranking : {J : Type 0} → List (SearchHit J) → List Hit
ranking [] = []
ranking (hit ∷ hits) = (hit.id, hit.score) ∷ ranking hits

module _ (s : Slate) {J : Type 0} (serde : Serde J) (db : s.Db) (name : Bytes) where
  -- Each hit has the attributes that its document's key holds.
  abbrev pub Hydrated : List (SearchHit J) → Type 0
  Hydrated [] = Unit
  Hydrated (hit ∷ hits) =
      ((document : Document J) × (attributes_at s serde db name hit.id ≡ ok (some document))
        × (hit.attributes ≡ document.attributes))
      × Hydrated hits

  pub hydrate-Ensures :
      (best : List Hit)
      → Ensures (λ hits. (ranking hits ≡ best) × Hydrated hits) (hydrate s serde db name best)
  unfolding hydrate
  hydrate-Ensures [] = returns (refl, tt)
  hydrate-Ensures ((id, score) ∷ best) =
      Ensures-bind_eq (attributes_at s serde db name id) λ found e.
        Ensures-ok_or found Error.corrupt λ document is_there.
          Ensures-bind (hydrate-Ensures best) λ hits (same, rest).
            returns (ap (λ l. (id, score) ∷ l) same, ((document, e ∙ ap ok is_there, refl), rest))

module _ (s : Slate) {J : Type 0} (serde : Serde J) (tools : Tools J) (schema : NamespaceConfig)
    (name : Bytes) (query : QueryRequest J) (db : s.Db) where
  -- The documents of the rows that the filter matches and that have a vector, in order.
  pub data Matching : List Entry → List Row → Type 0 where
    no_rows : Matching [] []
    other_row :
        {key value : Bytes} {doc : Document J} {rows : List Entry} {found : List Row}
        → serde.document_from_slice value ≡ some doc
        → (matches_filter s serde tools schema name query db doc ≡ false)
          ⊎ (vector_at s tools.crc32 db name doc.id ≡ ok none)
        → Matching rows found
        → Matching ((key, value) ∷ rows) found
    matching_row :
        {key value : Bytes} {doc : Document J} {vector : List ℕ} {rows : List Entry}
        {found : List Row}
        → serde.document_from_slice value ≡ some doc
        → matches_filter s serde tools schema name query db doc ≡ true
        → vector_at s tools.crc32 db name doc.id ≡ ok (some vector)
        → Matching rows found
        → Matching ((key, value) ∷ rows) ((doc.id, vector) ∷ found)

  pub record Scanned (seen : List Row) (rows : List Entry) (n : ℕ) (scan : Scan) : Type 0 where
    pub found : List Row
    pub matching : Matching rows found
    pub covers : Covers s serde tools schema name query db (seen ++ found) scan
    pub scanned : scan.scanned ≡ n + length rows

  -- What the loop looked up of a document.
  vector_if-cases :
      (b : Bool) (id : Bytes) (found : Option (List ℕ))
      → vector_if s serde tools schema name query db b id ≡ ok found
      → ((found ≡ none) × ((b ≡ false) ⊎ (vector_at s tools.crc32 db name id ≡ ok none)))
        ⊎ ((vector : List ℕ) × (found ≡ some vector)
            × (b ≡ true)
            × (vector_at s tools.crc32 db name id ≡ ok (some vector)))
  vector_if-cases false id found e = inl (cc, inl refl)
  vector_if-cases true id none e = inl (refl, inr e)
  vector_if-cases true id (some vector) e = inr (vector, refl, refl, e)

  Matching-step :
      {key value : Bytes} (doc : Document J) (found : Option (List ℕ)) {rows : List Entry}
      {more : List Row}
      → serde.document_from_slice value ≡ some doc
      → vector_if s serde tools schema name query db
          (matches_filter s serde tools schema name query db doc)
          doc.id
        ≡ ok found
      → Matching rows more
      → Matching ((key, value) ∷ rows) (found_row doc.id found ++ more)
  Matching-step doc found read e h =
      elim (vector_if-cases (matches_filter s serde tools schema name query db doc) doc.id found
        e) [
          | inl (nothing, why) ↦ rw nothing (other_row read why h)
          | inr (vector, there, selected, stored) ↦ rw there (matching_row read selected stored h)
        ]

  pub exact_scan-Ensures :
      (rows : List Entry) (seen : List Row) (scan : Scan)
      → Covers s serde tools schema name query db seen scan
      → Ensures
          (Scanned seen rows scan.scanned)
          (exact_scan s serde tools schema name query db rows scan)
  unfolding exact_scan
  exact_scan-Ensures [] seen scan h = returns (record {
    found = [];
    matching = no_rows;
    covers = rw (append-nil seen) h;
    scanned = omega arith;
  })
  exact_scan-Ensures ((key, value) ∷ rows) seen scan h =
      Ensures-ok_or (serde.document_from_slice value) Error.encoding λ doc read.
        Ensures-bind_eq _ λ found e.
          Ensures-mono
            (exact_scan-Ensures rows (seen ++ found_row doc.id found) _
              (Covers-round s serde tools schema name query db seen scan doc.id found h))
            λ last more. record {
              found = found_row doc.id found ++ more.found;
              matching = Matching-step doc found read e more.matching;
              covers = rw (← append_assoc seen (found_row doc.id found) more.found) more.covers;
              scanned =
                  more.scanned ∙ counted scan (add_found doc.id found scan.rows) (length rows);
            }
    where
      counted :
          (scan : Scan) (rows : List Row) (n : ℕ)
          → (flush s serde tools schema name query db
                (record scan { scanned = scan.scanned + 1; rows = rows })).scanned
              + n
            ≡ scan.scanned + suc n
      counted scan rows n = elim (Bool-cases (length rows == 128)) [
        | inl full ↦ rw full (omega arith)
        | inr room ↦ rw room (omega arith)
      ]
