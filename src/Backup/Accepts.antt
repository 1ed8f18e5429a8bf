-- ===== src/Backup/Accepts.antt =====
-- `verify` accepts every export of a complete database.
mod Passing
pub use Passing.{length-lt-body}
use gengis_mimi.Shared.{
  ℕ, zero, suc, ◌+◌, ◌≤◌, ◌<◌, ◌≡◌, refl, sym, ap, ◌∙◌, Bool, true, false, not, ◌||◌, Option, none,
  some, List, [], ◌∷◌, ◌++◌, append_assoc, append-nil, length, take, drop, take_exact-append, ◌==◌,
  ==_refl, arith, All, length-append, take-append, drop-append, take_exact, Bool-cases, inl, inr,
}
use gengis_mimi.Shared.Bytes.{Bytes, bytes_eq, bytes_eq_refl, bytes_lt, bytes_lt-ne, bytes_eq→eq}
use gengis_mimi.Shared.Word.{to_le_bytes, length-to_le_bytes, from_le_bytes-to_le_bytes, u64_mod}
use gengis_mimi.Error.{Error, ok}
use gengis_mimi.Error.Ensures.{
  Ensures, returns, Ensures-bind, Ensures-bind_eq, Ensures-reject_if, Ensures-test, Ensures-eq-ok,
}
use gengis_mimi.Slate.{Slate}
use gengis_mimi.Engine.Read.{check_ready, is_format}
use gengis_mimi.Slate.Entries.{Entry, lookup}
use gengis_mimi.Slate.Sorted.{Above, IsSorted}
use gengis_mimi.Engine.Keys.{format_key, format}
use gengis_mimi.Backup.{
  header, u32_max, record_bytes, records, footer, export_bytes, Check, check_format, check_record,
  verify_records, first_check, bad_footer, verify, export,
}
use gengis_mimi.Backup.Records.{IsRecord, read_record-append, read_record-footer}
use gengis_mimi.Backup.Sound.{IsBackup, any_format}
use Passing.{formats-lookup, any_format-lookup, Above-empty, verify_records-Passes}

take_front : (n : ℕ) (xs ys : Bytes) → length xs ≡ n → take n (xs ++ ys) ≡ xs
take_front n xs ys h = rw (← h) (take-append xs ys)

drop_front : (n : ℕ) (xs ys : Bytes) → length xs ≡ n → drop n (xs ++ ys) ≡ ys
drop_front n xs ys h = rw (← h) (drop-append xs ys)

module _ (sha256 : Bytes → Bytes)
    (sha256_length : (bytes : Bytes) → length (sha256 bytes) ≡ 32) where
  good_footer :
      (rows : List Entry) (c : Check)
      → length rows < u64_mod
      → c.hashed ≡ header ++ records rows
      → c.count ≡ length rows
      → c.has_format ≡ true
      → bad_footer sha256 c (to_le_bytes 8 (length rows) ++ sha256 (header ++ records rows)) []
        ≡ false
  unfolding bad_footer
  good_footer rows c fits hashed count has_format =
      let mark = to_le_bytes 8 (length rows) in
      let sum = sha256 (header ++ records rows) in
      let front : take 8 (mark ++ sum) ≡ mark =
        take_front 8 mark sum (length-to_le_bytes 8 (length rows)) in
      let back : drop 8 (mark ++ sum) ≡ sum =
        drop_front 8 mark sum (length-to_le_bytes 8 (length rows)) in
      rw (
        front,
        back,
        from_le_bytes-to_le_bytes 8 (length rows) (omega arith),
        hashed,
        count,
        has_format,
        ==_refl (length rows),
        bytes_eq_refl sum,
      )

  pub verify-export_bytes :
      (rows : List Entry)
      → IsBackup rows
      → length rows < u64_mod
      → verify sha256 (export_bytes sha256 rows) ≡ ok tt
  unfolding verify export_bytes
  verify-export_bytes rows h fits =
      let mark = to_le_bytes 8 (length rows) in
      let sum = sha256 (header ++ records rows) in
      let foot = mark ++ sum in
      let file = records rows ++ footer sha256 (length rows) (header ++ records rows) in
      let p =
        verify_records-Passes (length file) (first_check header) rows foot
          (length-lt-body rows foot) (Above-empty rows h.all_records) h.sorted h.all_records
          (formats-lookup rows h.sorted h.has_format) in
      let forty : length foot ≡ 40 = omega (
        arith,
        length-append mark sum,
        length-to_le_bytes 8 (length rows),
        sha256_length (header ++ records rows),
      ) in
      let whole : take_exact 40 foot ≡ some (foot, []) =
        rw (append-nil foot) at (take_exact-append 40 foot [] forty) in
      rw (
        take_exact-append 8 header file refl,
        bytes_eq_refl header,
        p.run,
        whole,
        good_footer rows p.after fits p.hashed (omega (arith, p.count))
            (p.has_format ∙ ap (λ b. b || false) (any_format-lookup rows h.has_format)),
      )

module _ (s : Slate) (db : s.Db) where
  is_format_sound : (found : Option Bytes) → not (is_format found) ≡ false → found ≡ some format
  is_format_sound none h = cc
  is_format_sound (some value) h = ap some (bytes_eq→eq value format (ground arith))

  -- A database that is ready holds the format.
  pub check_ready-Ensures :
      Ensures (λ _. lookup format_key (s.entries db) ≡ some format) (check_ready s db)
  unfolding check_ready
  check_ready-Ensures = Ensures-reject_if (s.closed db) Error.unavailable λ _.
      Ensures-bind_eq (s.get db format_key) λ found e.
        Ensures-test (not (is_format found)) Error.unavailable
          λ h. rw (s.get_lem db format_key e) at (is_format_sound found h)

  module _ (sha256 : Bytes → Bytes)
      (sha256_length : (bytes : Bytes) → length (sha256 bytes) ≡ 32) where
    export-Ensures :
        (permits : ℕ)
        → IsSorted (s.entries db)
        → All IsRecord (s.entries db)
        → length (s.entries db) < u64_mod
        → Ensures (λ file. verify sha256 file ≡ ok tt) (export sha256 s permits db)
    unfolding export
    export-Ensures permits sorted fits counted = Ensures-reject_if (permits == 0) Error.busy λ _.
        Ensures-bind check_ready-Ensures λ u has_format. Ensures-bind_eq (s.scan db) λ rows scanned.
          returns (
            rw (s.scan_lem db scanned) (
              verify-export_bytes sha256 sha256_length (s.entries db)
                (record { sorted = sorted; all_records = fits; has_format = has_format }) counted))

    -- Where SHA-256 gives 32 bytes and the content is in key order, with fewer than 2^64 rows,
    -- keys of 1 to 2048 bytes and values of at most 16 MiB, what `export` returns is a file that
    -- `verify` accepts.
    pub verify-export :
        (permits : ℕ) {file : Bytes}
        → IsSorted (s.entries db)
        → All IsRecord (s.entries db)
        → length (s.entries db) < u64_mod
        → export sha256 s permits db ≡ ok file
        → verify sha256 file ≡ ok tt
    verify-export permits sorted fits counted e =
        Ensures-eq-ok (export-Ensures permits sorted fits counted) e
