-- ===== src/Search/Text/Answered.antt =====
-- Which documents a scan of `text_query` of src/search.rs must score.
use gengis_mimi.Shared.{◌≡◌, ◌⊎◌, Bool, false, inl, inr, Option, none, some, List, [], ◌∷◌}
use gengis_mimi.Shared.Bytes.{Bytes}
use gengis_mimi.Shared.Maps.{map_get}
use gengis_mimi.Model.{Document, filter_matches}
use gengis_mimi.Model.Query.{TextQuery}
use gengis_mimi.Slate.{Slate}
use gengis_mimi.Slate.Entries.{Entry}
use gengis_mimi.Engine.Serde.{Serde}
use gengis_mimi.Index.Value.{json_of}
use gengis_mimi.Index.Tokens.{tokenize}
use gengis_mimi.Index.Build.{Tools}
use gengis_mimi.Search.Text.{text_of}
use gengis_mimi.Search.Text.Occurs.{occurs}

module _ (s : Slate) {J : Type 0} (serde : Serde J) (tools : Tools J) (name : Bytes)
    (query : TextQuery J) (db : s.Db) where
  -- A term of the query occurs in the document's field.
  abbrev pub answers : Option Bytes → Bool
  answers none = false
  answers (some text) =
      occurs (tokenize tools.unicode text).frequencies
        (tokenize tools.unicode query.text).frequencies

  -- The filter does not match the document, or its field is no text or has no term of the query.
  abbrev pub IsLeftOut : Document J → Type 0
  IsLeftOut doc =
      (filter_matches (json_of tools.json) query.filter doc.attributes ≡ false)
      ⊎ (answers (text_of s serde tools name query db (map_get query.field doc.attributes)) ≡ false)

  -- The ID of every other document of the rows has a property.
  pub data Answered (P : Bytes → Type 0) : List Entry → Type 0 where
    no_rows : Answered P []
    next_row :
        {key value : Bytes} {doc : Document J} {rows : List Entry}
        → serde.document_from_slice value ≡ some doc
        → IsLeftOut doc ⊎ P doc.id
        → Answered P rows
        → Answered P ((key, value) ∷ rows)

  pub Answered-mono :
      {P Q : Bytes → Type 0} {rows : List Entry}
      → ((id : Bytes) → P id → Q id)
      → Answered P rows
      → Answered Q rows
  Answered-mono f no_rows = no_rows
  Answered-mono f (next_row read (inl out) h) = next_row read (inl out) (Answered-mono f h)
  Answered-mono f (next_row read (inr p) h) = next_row read (inr (f _ p)) (Answered-mono f h)
