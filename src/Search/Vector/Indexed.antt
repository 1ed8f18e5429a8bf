-- ===== src/Search/Vector/Indexed.antt =====
-- The result of a query of src/search.rs through an index: what has changed since the index was
-- built is read from the documents, and only the rest from the index.
use gengis_mimi.Shared.{
  ℕ, ◌+◌, ◌≡◌, refl, sym, true, not, inl, inr, Option, none, some, List, [], ◌∷◌, ◌++◌, append-nil,
  append_assoc, ◌∙◌, length, arith, All, All-append, Bool-cases, any,
}
use gengis_mimi.Shared.Bytes.{Bytes, bytes_eq, bytes_eq_refl}
use gengis_mimi.Shared.Maps.{set_contains, keep}
use gengis_mimi.Error.{Error, ok}
use gengis_mimi.Error.Ensures.{Ensures, returns, Ensures-bind_eq, Ensures-ok_or, Ensures-mono}
use gengis_mimi.Model.{NamespaceConfig, Document}
use gengis_mimi.Model.Query.{QueryRequest}
use gengis_mimi.Binary.{decode}
use gengis_mimi.Slate.{Slate}
use gengis_mimi.Engine.Serde.{Serde}
use gengis_mimi.Engine.Read.{vector_at, document_at}
use gengis_mimi.Index.Build.{Tools}
use gengis_mimi.Index.Clusters.{Row}
use gengis_mimi.Search.Vector.{
  Scan, vector_of, filtered_scan, block_scan, dirty_scan, allows, usable, ids_or_none,
}
use gengis_mimi.Search.Vector.Sources.{
  Stored, no_ids, changed_id, clean_id, Blocks, no_keys, next_key, usable-Picked,
}
use gengis_mimi.Search.Vector.Scans.{
  found_row, Covers, Covers-round, Covers-block, IsClean, usable-All,
}

abbrev pub AllClean : List Bytes → Option (List Bytes) → List Row → Type 0
AllClean dirty selected = All (λ (row : Row). IsClean dirty selected row.0)

-- Each ID of a set is in it.
contains-All :
    (front ids : List Bytes)
    → All (λ (id : Bytes). any (λ other. bytes_eq other id) (front ++ ids) ≡ true) ids
contains-All front [] = tt
contains-All front (id ∷ ids) = (
  any_middle front id ids,
  rw (append_assoc front (id ∷ []) ids) at (contains-All (front ++ id ∷ []) ids),
)
  where
    any_middle :
        (front : List Bytes) (id : Bytes) (ids : List Bytes)
        → any (λ other. bytes_eq other id) (front ++ id ∷ ids) ≡ true
    any_middle [] id ids = rw (bytes_eq_refl id) refl
    any_middle (x ∷ front) id ids = rw (any_middle front id ids) (ground arith)

pub set_contains-All : (ids : List Bytes) → All (λ (id : Bytes). set_contains ids id ≡ true) ids
unfolding set_contains
set_contains-All ids = contains-All [] ids

pub few_selected :
    (selected : Option (List Bytes))
    → All (λ (id : Bytes). allows selected id ≡ true) (ids_or_none selected)
few_selected none = tt
few_selected (some ids) = set_contains-All ids

found_row-AllClean :
    (dirty : List Bytes) (selected : Option (List Bytes)) (id : Bytes) (found : Option (List ℕ))
    → IsClean dirty selected id
    → AllClean dirty selected (found_row id found)
found_row-AllClean dirty selected id none h = tt
found_row-AllClean dirty selected id (some v) h = (h, tt)

module _ (s : Slate) {J : Type 0} (serde : Serde J) (tools : Tools J) (schema : NamespaceConfig)
    (name : Bytes) (query : QueryRequest J) (db : s.Db) where
  -- What the changed documents hold now: a row for each that the filter matches and that has a vector.
  pub data Changed : List Bytes → List Row → Type 0 where
    no_change : Changed [] []
    next_change :
        {id : Bytes} {found : Option (Document J)} {ids : List Bytes} {rows more : List Row}
        → document_at s serde tools.crc32 db name id ≡ ok found
        → Changed ids more
        → rows ≡ found_row id (vector_of s serde tools schema name query db found) ++ more
        → Changed (id ∷ ids) rows

  pub record Dirty (seen : List Row) (ids : List Bytes) (scan : Scan) : Type 0 where
    pub found : List Row
    pub changed : Changed ids found
    pub covers : Covers s serde tools schema name query db (seen ++ found) scan

  pub record Clean (dirty : List Bytes) (selected : Option (List Bytes)) (seen : List Row)
      (Source : List Row → Type 0) (scan : Scan) : Type 0 where
    pub found : List Row
    pub source : Source found
    pub clean : AllClean dirty selected found
    pub covers : Covers s serde tools schema name query db (seen ++ found) scan

  pub dirty_scan-Ensures :
      (ids : List Bytes) (seen : List Row) (scan : Scan)
      → Covers s serde tools schema name query db seen scan
      → Ensures (Dirty seen ids) (dirty_scan s serde tools schema name query db ids scan)
  unfolding dirty_scan
  dirty_scan-Ensures [] seen scan h =
      returns (record { found = []; changed = no_change; covers = rw (append-nil seen) h })
  dirty_scan-Ensures (id ∷ ids) seen scan h =
      Ensures-bind_eq (document_at s serde tools.crc32 db name id) λ doc read.
        let row = found_row id (vector_of s serde tools schema name query db doc) in
        Ensures-mono
          (dirty_scan-Ensures ids (seen ++ row) _ (
            Covers-round s serde tools schema name query db seen scan id
              (vector_of s serde tools schema name query db doc) h))
          λ last more. record {
            found = row ++ more.found;
            changed = next_change read more.changed refl;
            covers = rw (← append_assoc seen row more.found) more.covers;
          }

  pub filtered_scan-Ensures :
      (dirty : List Bytes) (selected : Option (List Bytes)) (ids : List Bytes) (seen : List Row)
      (scan : Scan)
      → All (λ (id : Bytes). allows selected id ≡ true) ids
      → Covers s serde tools schema name query db seen scan
      → Ensures (Clean dirty selected seen (Stored s serde tools schema name query db dirty ids)) (
          filtered_scan s serde tools schema name query db
            (keep (λ id. not (set_contains dirty id)) ids)
            scan)
  unfolding filtered_scan keep
  filtered_scan-Ensures dirty selected [] seen scan a h =
      returns (record { found = []; source = no_ids; clean = tt; covers = rw (append-nil seen) h })
  filtered_scan-Ensures dirty selected (id ∷ ids) seen scan (p, a) h =
      elim (Bool-cases (set_contains dirty id)) [
        | inl changed ↦ rw changed (
            Ensures-mono (filtered_scan-Ensures dirty selected ids seen scan a h) λ last more.
              record {
                found = more.found;
                source = changed_id changed more.source;
                clean = more.clean;
                covers = more.covers;
              })
        | inr clean ↦ rw clean (
            Ensures-bind_eq (vector_at s tools.crc32 db name id) λ found read.
              Ensures-mono
                (filtered_scan-Ensures dirty selected ids (seen ++ found_row id found) _ a
                  (Covers-round s serde tools schema name query db seen scan id found h))
                λ last more. record {
                  found = found_row id found ++ more.found;
                  source = clean_id clean read more.source refl;
                  clean =
                      All-append (λ (row : Row). IsClean dirty selected row.0) (found_row id found)
                        more.found (found_row-AllClean dirty selected id found (clean, p))
                        more.clean;
                  covers = rw (← append_assoc seen (found_row id found) more.found) more.covers;
                })
      ]

  pub block_scan-Ensures :
      (dirty : List Bytes) (selected : Option (List Bytes)) (keys : List Bytes) (seen : List Row)
      (scan : Scan)
      → Covers s serde tools schema name query db seen scan
      → Ensures
          (Clean dirty selected seen
            (Blocks s serde tools schema name query db dirty selected keys))
          (block_scan s serde tools schema name query db dirty selected keys scan)
  unfolding block_scan
  block_scan-Ensures dirty selected [] seen scan h =
      returns (record { found = []; source = no_keys; clean = tt; covers = rw (append-nil seen) h })
  block_scan-Ensures dirty selected (key ∷ keys) seen scan h =
      Ensures-bind_eq (s.get db key) λ found read. Ensures-ok_or found Error.corrupt λ block there.
        Ensures-bind_eq (decode tools.crc32 block) λ rows decoded.
          Ensures-mono
            (block_scan-Ensures dirty selected keys (seen ++ usable dirty selected rows) _ (
              Covers-block s serde tools schema name query db seen (usable dirty selected rows) scan
                (scan.scanned + length rows) h))
            λ last more. record {
              found = usable dirty selected rows ++ more.found;
              source =
                  next_key (sym (s.get_lem db key read) ∙ there) decoded
                    (usable-Picked dirty selected rows) more.source refl;
              clean =
                  All-append (λ (row : Row). IsClean dirty selected row.0)
                    (usable dirty selected rows) more.found (usable-All dirty selected rows)
                    more.clean;
              covers = rw (← append_assoc seen (usable dirty selected rows) more.found) more.covers;
            }
