-- ===== src/Engine/Pages.antt =====
-- Pages of src/engine.rs: `page_iterator`, `collect_page`, `namespace`, `namespaces`, `documents`.
-- A snapshot is the database at the time that it was taken.
pub mod Collect
pub mod Cursor
pub mod Whole
use gengis_mimi.Shared.{ℕ, Option, none, some, List, [], ◌∷◌, ◌++◌, length, ◌==◌, if◌then◌else◌}
use gengis_mimi.Shared.Bytes.{Bytes}
use gengis_mimi.Error.{Error, Result, ok, ◌>>=◌, ◌>>◌, ok_or}
use gengis_mimi.Model.{Namespace, Document, PageRequest, Page, validate_page}
use gengis_mimi.Slate.{Slate}
use gengis_mimi.Slate.Entries.{Entry}
use gengis_mimi.Engine.Serde.{Serde}
use gengis_mimi.Engine.Keys.{name_key, document_prefix}
use gengis_mimi.Engine.Read.{check_ready, namespace_at, vector_at}

module _ {A : Type 0} (parse : Bytes → Option A) (id : A → Bytes) where
  -- `items.last().map(id)`
  abbrev pub last_id : List A → Option Bytes
  last_id [] = none
  last_id (item ∷ []) = some (id item)
  last_id (item ∷ next ∷ items) = last_id (next ∷ items)

  -- `items` are those of the rows before.
  unfoldable pub collect_page : ℕ → List A → List Entry → Result (Page A)
  collect_page limit items [] = ok (record { items = items; next_cursor = none })
  collect_page limit items ((key, value) ∷ rows) =
      if length items == limit
      then ok (record { items = items; next_cursor = last_id items })
      else (do
        item ← ok_or (parse value) Error.encoding
        collect_page limit (items ++ item ∷ []) rows)

module _ (s : Slate) where
  -- From the start of the prefix, or behind a key of it.
  abbrev scan_from : s.Db → Bytes → Option Bytes → Result (List Entry)
  scan_from db prefix none = s.scan_prefix db prefix
  scan_from db prefix (some after) = s.scan_after db prefix after

  unfoldable pub page_iterator : s.Db → Bytes → PageRequest → Result (List Entry)
  page_iterator db prefix page = scan_from db prefix page.after

module _ (s : Slate) {J : Type 0} (serde : Serde J) where
  unfoldable pub namespace : s.Db → Bytes → Result Namespace
  namespace db name = do check_ready s db; namespace_at s serde db name

  abbrev namespace_id : Namespace → Bytes
  namespace_id n = n.name

  unfoldable pub namespaces : s.Db → PageRequest → Result (Page Namespace)
  namespaces db page = do
    validate_page page
    check_ready s db
    rows ← page_iterator s db (name_key b'n' []) page
    collect_page serde.namespace_from_slice namespace_id page.limit [] rows

module _ (s : Slate) {J : Type 0} (serde : Serde J) (crc32 : Bytes → ℕ) where
  abbrev document_id : Document J → Bytes
  document_id d = d.id

  -- The loop over the page's documents.
  unfoldable pub attach : s.Db → Bytes → List (Document J) → Result (List (Document J))
  attach db name [] = ok []
  attach db name (document ∷ documents) = do
    vector ← vector_at s crc32 db name document.id
    rest ← attach db name documents
    ok (record document { vector = vector } ∷ rest)

  unfoldable pub documents : s.Db → Bytes → PageRequest → Result (Page (Document J))
  documents db name page = do
    validate_page page
    check_ready s db
    _ ← namespace_at s serde db name
    rows ← page_iterator s db (document_prefix name) page
    found ← collect_page serde.document_from_slice document_id page.limit [] rows
    items ← attach db name found.items
    ok (record found { items = items })
