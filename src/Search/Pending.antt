-- ===== src/Search/Pending.antt =====
-- `pending` of src/search.rs, `index_at` and `index_status` of src/engine.rs: what is indexed, and
-- what changed since. A key is a text if its bytes are UTF-8.
use gengis_mimi.Shared.{
  ℕ, ◌-◌, Bool, false, not, ◌&&◌, Option, none, some, List, [], ◌∷◌, drop, length, ltb, ◌==◌,
  in_range, if◌then◌else◌,
}
use gengis_mimi.Shared.Bytes.{Bytes}
use gengis_mimi.Shared.Maps.{set_insert}
use gengis_mimi.Error.{Error, Result, ok, ◌>>=◌, ◌>>◌, reject_if}
use gengis_mimi.Slate.{Slate}
use gengis_mimi.Slate.Entries.{Entry}
use gengis_mimi.Engine.Serde.{Serde}
use gengis_mimi.Engine.Keys.{item_prefix, name_key}
use gengis_mimi.Engine.Read.{revision, read_as, check_ready, namespace_at}
use gengis_mimi.Index.{IndexStatus}
use gengis_mimi.Index.Serde.{IndexSerde}

-- `from_utf8`: the bytes that are still to come of a character, and the range of the next.
record Expect : Type 0 where
  more : ℕ
  low : ℕ
  high : ℕ

abbrev expect : ℕ → ℕ → ℕ → Option Expect
expect n lo hi = some (record { more = n; low = lo; high = hi })

-- What follows a character's first byte; nothing where no character begins so.
abbrev lead : ℕ → Option Expect
lead b =
    if ltb b 128
    then expect 0 0 0
    else if in_range 194 223 b
    then expect 1 128 191
    else if b == 224
    then expect 2 160 191
    else if b == 237
    then expect 2 128 159
    else if in_range 225 239 b
    then expect 2 128 191
    else if b == 240
    then expect 3 144 191
    else if in_range 241 243 b
    then expect 3 128 191
    else if b == 244
    then expect 3 128 143
    else none

abbrev next_byte : Expect → ℕ → Option Expect
next_byte e b =
    if e.more == 0
    then lead b
    else if in_range e.low e.high b
    then expect (e.more - 1) 128 191
    else none

abbrev after : Option Expect → ℕ → Option Expect
after none b = none
after (some e) b = next_byte e b

abbrev is_whole : Option Expect → Bool
is_whole none = false
is_whole (some e) = e.more == 0

unfoldable utf8_from : Option Expect → Bytes → Bool
utf8_from e [] = is_whole e
utf8_from e (b ∷ bs) = utf8_from (after e b) bs

unfoldable pub is_utf8 : Bytes → Bool
unfolding utf8_from
is_utf8 = utf8_from (expect 0 0 0)

-- The rows of the changes that are later than the watermark.
unfoldable pub pending_rows : ℕ → ℕ → List Entry → List Bytes → Result (List Bytes)
unfolding is_utf8
pending_rows skip watermark [] ids = ok ids
pending_rows skip watermark ((key, value) ∷ rows) ids = do
  changed ← revision value
  reject_if (ltb watermark changed && not (is_utf8 (drop skip key))) Error.corrupt
  pending_rows skip watermark rows
      (if ltb watermark changed then set_insert (drop skip key) ids else ids)

module _ (s : Slate) where
  unfoldable pub pending : s.Db → Bytes → ℕ → Result (List Bytes)
  unfolding pending_rows
  pending db name watermark = do
    rows ← s.scan_prefix db (item_prefix b'c' name)
    pending_rows (length (item_prefix b'c' name)) watermark rows []

  unfoldable pub index_at : IndexSerde → s.Db → Bytes → Result (Option IndexStatus)
  index_at serde db name = do
    found ← s.get db (name_key b'i' name)
    read_as serde.status_from_slice found

  unfoldable pub index_status :
      {J : Type 0} → Serde J → IndexSerde → s.Db → Bytes → Result (Option IndexStatus)
  unfolding index_at
  index_status serde index_serde db name = do
    check_ready s db
    _ ← namespace_at s serde db name
    index_at index_serde db name
