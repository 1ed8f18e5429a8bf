-- ===== src/Index/Filter.antt =====
-- `postings`, `filter_ids` and `intersect` of src/index.rs.
use gengis_mimi.Shared.{ℕ, Option, none, some, List, [], ◌∷◌, ◌++◌}
use gengis_mimi.Shared.Bytes.{Bytes}
use gengis_mimi.Shared.Maps.{set_of, set_contains, keep}
use gengis_mimi.Error.{Error, Result, ok, ◌>>=◌, ok_or}
use gengis_mimi.Model.{Filter, NumericRange}
use gengis_mimi.Slate.{Slate}
use gengis_mimi.Slate.Entries.{Entry}
use gengis_mimi.Index.Keys.{digest, number_key, field_key, field_prefix}
use gengis_mimi.Index.Build.{Tools}

-- The values of the rows, each read as a list.
unfoldable pub read_rows : {T : Type 0} → (Bytes → Option (List T)) → List Entry → Result (List T)
read_rows from_slice [] = ok []
read_rows from_slice ((key, value) ∷ rows) = do
  items ← ok_or (from_slice value) Error.encoding
  rest ← read_rows from_slice rows
  ok (items ++ rest)

unfoldable pub postings :
    (s : Slate) {T : Type 0} → (Bytes → Option (List T)) → s.Db → Bytes → Result (List T)
unfolding read_rows
postings s from_slice db prefix = do rows ← s.scan_prefix db prefix; read_rows from_slice rows

unfoldable pub intersect : Option (List Bytes) → List Bytes → Option (List Bytes)
unfolding keep
intersect none ids = some ids
intersect (some existing) ids = some (keep (set_contains ids) existing)

-- b"~"
abbrev pub tilde : Bytes
tilde = b'~' ∷ []

abbrev pub low_key : Option ℕ → Bytes
low_key none = []
low_key (some v) = number_key v

abbrev pub high_key : Option ℕ → Bytes
high_key none = tilde
high_key (some v) = number_key v ++ tilde

module _ (s : Slate) {J : Type 0} (tools : Tools J) where
  unfoldable pub filter_eq :
      s.Db → Bytes → List (Bytes × J) → Option (List Bytes) → Result (Option (List Bytes))
  unfolding digest postings intersect
  filter_eq db prefix [] found = ok found
  filter_eq db prefix ((field, value) ∷ rest) found = do
    equal ← tools.json.equality_key value
    ids ←
        postings s tools.serde.ids_from_slice db
          (field_prefix prefix b'e' (digest tools.sha256 field) equal)
    filter_eq db prefix rest (intersect found (set_of ids))

  unfoldable pub filter_range :
      s.Db
      → Bytes
      → List (Bytes × NumericRange)
      → Option (List Bytes)
      → Result (Option (List Bytes))
  unfolding digest read_rows intersect number_key
  filter_range db prefix [] found = ok found
  filter_range db prefix ((field, bounds) ∷ rest) found = do
    rows ←
        s.scan_range db (field_key prefix b'r' (digest tools.sha256 field) []) (low_key bounds.gte)
          (high_key bounds.lte)
    ids ← read_rows tools.serde.ids_from_slice rows
    filter_range db prefix rest (intersect found (set_of ids))

  unfoldable pub filter_ids : s.Db → Bytes → Filter J → Result (Option (List Bytes))
  unfolding filter_eq filter_range
  filter_ids db prefix filter = do
    found ← filter_eq db prefix filter.eq none
    filter_range db prefix filter.range found
