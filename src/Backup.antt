-- ===== src/Backup.antt =====
-- src/backup.rs: exports with a SHA-256 footer, their verification, and the restoration of one.
-- SHA-256 is a parameter. A file is its bytes from the cursor on, and `read_exact` that meets the end
-- an I/O error; the counts of records are ℕ, since no file holds 2^64 of them.
pub mod Records
pub mod Sound
pub mod Accepts
pub mod Restore
use gengis_mimi.Shared.{
  ℕ, zero, suc, ◌+◌, ◌*◌, ◌-◌, ◌^◌, Bool, true, false, not, ◌||◌, Option, none, some, List, [], ◌∷◌,
  ◌++◌, length, take, drop, any, take_exact, ltb, leb, ◌==◌, if◌then◌else◌,
}
use gengis_mimi.Shared.Bytes.{Bytes, bytes_eq, bytes_lt}
use gengis_mimi.Shared.Word.{to_le_bytes, from_le_bytes}
use gengis_mimi.Error.{Error, Result, ok, err, ◌>>=◌, ◌>>◌, reject_if, ok_or}
use gengis_mimi.Slate.{Slate}
use gengis_mimi.Slate.Entries.{Entry, Op, put}
use gengis_mimi.Engine.Keys.{format_key, format, program}
use gengis_mimi.Engine.Read.{check_ready}

-- b"GMBAK\x02\r\n"
abbrev pub header : Bytes
header = b'G' ∷ b'M' ∷ b'B' ∷ b'A' ∷ b'K' ∷ 2 ∷ 13 ∷ 10 ∷ []

abbrev pub max_record : ℕ
max_record = 16 * 1024 * 1024

-- `u32::MAX`, which no key is as long as.
abbrev pub u32_max : ℕ
u32_max = 2 ^ 32 - 1

unfoldable pub record_bytes : Bytes → Bytes → Bytes
record_bytes key value =
    to_le_bytes 4 (length key) ++ (to_le_bytes 4 (length value) ++ (key ++ value))

-- The chunks of the rows, in the order of the scan.
unfoldable pub records : List Entry → Bytes
records [] = []
records ((key, value) ∷ rows) = record_bytes key value ++ records rows

module _ (sha256 : Bytes → Bytes) where
  abbrev pub footer : ℕ → Bytes → Bytes
  footer count hashed = to_le_bytes 4 u32_max ++ (to_le_bytes 8 count ++ sha256 hashed)

  -- The whole stream.
  unfoldable pub export_bytes : List Entry → Bytes
  export_bytes rows = header ++ (records rows ++ footer (length rows) (header ++ records rows))

  module _ (s : Slate) where
    -- `permits` are the query slots that are free; the stream keeps one of them.
    unfoldable pub export : ℕ → s.Db → Result Bytes
    export permits db = do
      reject_if (permits == 0) Error.busy
      check_ready s db
      rows ← s.scan db
      ok (export_bytes rows)

abbrev pub read_exact : ℕ → Bytes → Result (Bytes × Bytes)
read_exact n file = ok_or (take_exact n file) Error.io

-- What follows the length of a key.
unfoldable pub read_entry : ℕ → Bytes → Result (Option Entry × Bytes)
read_entry key_len file = do
  (size, file) ← read_exact 4 file
  let value_len = from_le_bytes size
  reject_if (key_len == 0 || ltb 2048 key_len || ltb max_record value_len) Error.corrupt
  (key, file) ← read_exact key_len file
  (value, file) ← read_exact value_len file
  ok (some (key, value), file)

unfoldable pub read_record : Bytes → Result (Option Entry × Bytes)
read_record file = do
  (size, file) ← read_exact 4 file
  if from_le_bytes size == u32_max then ok (none, file) else read_entry (from_le_bytes size) file

-- What `verify` has seen: the bytes that it has hashed, how many records, whether the format record
-- was one of them, and the last key.
pub record Check : Type 0 where
  pub hashed : Bytes
  pub count : ℕ
  pub has_format : Bool
  pub previous : Bytes

abbrev pub check_format : Entry → Result (Unit {0})
check_format (key, value) =
    if bytes_eq key format_key then reject_if (not (bytes_eq value format)) Error.corrupt else ok tt

unfoldable pub check_record : Check → Entry → Result Check
check_record c (key, value) = do
  reject_if (not (bytes_lt c.previous key)) Error.corrupt
  check_format (key, value)
  ok (record {
    hashed = c.hashed ++ record_bytes key value;
    count = c.count + 1;
    has_format = bytes_eq key format_key || c.has_format;
    previous = key;
  })

abbrev pub verify_next :
    (Check → Bytes → Result (Check × Bytes)) → Option Entry → Check → Bytes → Result (Check × Bytes)
verify_next more none c file = ok (c, file)
verify_next more (some row) c file = do c ← check_record c row; more c file

-- The loop over the records. Each takes at least four bytes of the file.
unfoldable pub verify_records : ℕ → Check → Bytes → Result (Check × Bytes)
verify_records zero c file = err Error.io
verify_records (suc fuel) c file = do
  (row, file) ← read_record file
  verify_next (verify_records fuel) row c file

abbrev pub first_check : Bytes → Check
first_check start = record { hashed = start; count = 0; has_format = false; previous = [] }

module _ (sha256 : Bytes → Bytes) where
  -- The test of the footer, and that nothing follows it.
  unfoldable pub bad_footer : Check → Bytes → Bytes → Bool
  bad_footer c foot trailing =
      not c.has_format
      || not (c.count == from_le_bytes (take 8 foot))
      || not (bytes_eq (sha256 c.hashed) (drop 8 foot))
      || not (length trailing == 0)

  unfoldable pub verify : Bytes → Result (Unit {0})
  verify file = do
    (start, file) ← read_exact 8 file
    reject_if (not (bytes_eq start header)) Error.corrupt
    (c, file) ← verify_records (length file) (first_check start) file
    (foot, trailing) ← read_exact 40 file
    reject_if (bad_footer c foot trailing) Error.corrupt

-- b"gengis-mimi:restoring:2"
abbrev pub restoring : Bytes
restoring =
    program ++ b'r' ∷ b'e' ∷ b's' ∷ b't' ∷ b'o' ∷ b'r' ∷ b'i' ∷ b'n' ∷ b'g' ∷ b':' ∷ b'2' ∷ []

abbrev pub any_other_key : List Entry → Bool
any_other_key = any (λ (key, value). not (bytes_eq key format_key))

-- The batch that is being filled, its bytes, and how many records went into this and earlier ones.
pub record Filling : Type 0 where
  pub batch : List Op
  pub size : ℕ
  pub count : ℕ

abbrev pub empty : Filling
empty = record { batch = []; size = 0; count = 0 }

abbrev pub add_row : Bytes → Bytes → Filling → Filling
add_row key value r = record {
  batch = r.batch ++ put key value ∷ [];
  size = r.size + (length key + length value);
  count = r.count + 1;
}
