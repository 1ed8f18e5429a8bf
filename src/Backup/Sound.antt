-- ===== src/Backup/Sound.antt =====
-- `verify` accepts the exports of sorted, versioned contents, and nothing else.
mod Scan
pub use Scan.{IsBackup, any_format}
use gengis_mimi.Shared.{
  ℕ, zero, suc, ◌+◌, ◌≡◌, refl, sym, ap, ◌∙◌, Bool, true, false, not, ◌||◌, Option, some, List, [],
  ◌∷◌, ◌++◌, append_assoc, append-nil, length, take, drop, take-append-drop, arith, All, append-All,
  length-take,
}
use gengis_mimi.Shared.Bytes.{Bytes, IsByte, bytes_eq, bytes_eq→eq, bytes_lt}
use gengis_mimi.Shared.Word.{to_le_bytes, from_le_bytes, to_le_bytes_eq}
use gengis_mimi.Error.{Error, ok}
use gengis_mimi.Error.Ensures.{
  Ensures, returns, fails, Ensures-bind, Ensures-bind_eq, Ensures-reject_if, Ensures-mono,
  Ensures-eq-ok, Ensures-test,
}
use gengis_mimi.Slate.Entries.{Entry, lookup}
use gengis_mimi.Slate.Sorted.{Above, IsSorted, Above-trans}
use gengis_mimi.Engine.Keys.{format_key, format}
use gengis_mimi.Backup.{
  header, u32_max, record_bytes, records, footer, export_bytes, Check, check_format, check_record,
  verify_records, verify_next, first_check, bad_footer, verify,
}
use gengis_mimi.Backup.Records.{
  IsRecord, Front, Reads, read_end, read_row, read_exact-Ensures, read_record-Ensures,
}
use Scan.{Seen, Scanned, not-false, verify_records-Ensures}

-- The format row of rows that passed.
lookup-format :
    (rows : List Entry)
    → All (λ (row : Entry). check_format row ≡ ok tt) rows
    → any_format rows ≡ true
    → lookup format_key rows ≡ some format
unfolding lookup
lookup-format [] h e = cc
lookup-format ((key, value) ∷ rows) (p, h) e =
    ground (arith, lookup-format rows h, bytes_eq→eq value format)

length-zero : (bs : Bytes) → length bs ≡ 0 → bs ≡ []
length-zero [] h = refl
length-zero (b ∷ bs) h = absurd (omega arith)

module _ (sha256 : Bytes → Bytes) where
  -- What a footer that passes says.
  record Closes (c : Check) (foot trailing : Bytes) : Type 0 where
    has_format : c.has_format ≡ true
    count : c.count ≡ from_le_bytes (take 8 foot)
    sum : sha256 c.hashed ≡ drop 8 foot
    ended : trailing ≡ []

  bad_footer_sound :
      (c : Check) (foot trailing : Bytes)
      → bad_footer sha256 c foot trailing ≡ false
      → Closes c foot trailing
  unfolding bad_footer
  bad_footer_sound c foot trailing h = record {
    has_format = ground arith;
    count = ground arith;
    sum = bytes_eq→eq (sha256 c.hashed) (drop 8 foot) (ground arith);
    ended = length-zero trailing (ground arith);
  }

  -- What was verified.
  pub record IsExport (file : Bytes) : Type 0 where
    pub rows : List Entry
    pub is_backup : IsBackup rows
    pub written : export_bytes sha256 rows ≡ file

  footer_written :
      (rows : List Entry) (c : Check) (foot trailing : Bytes)
      → Seen (first_check header) rows c
      → Closes c foot trailing
      → length foot ≡ 40
      → All IsByte foot
      → footer sha256 (length rows) (header ++ records rows)
        ≡ to_le_bytes 4 u32_max ++ (foot ++ trailing)
  footer_written rows c foot trailing seen closes forty foot_bytes =
      let parts = take-append-drop 8 foot in
      let (count_bytes, sum_bytes) =
        append-All IsByte (take 8 foot) (drop 8 foot) (rw (sym parts) at foot_bytes) in
      let size = length-take 8 foot (omega arith) in
      let spelled =
        to_le_bytes_eq 8 (length rows) (take 8 foot) size count_bytes
          (omega (arith, seen.count, closes.count)) in
      rw (closes.ended, append-nil foot, ← seen.hashed, closes.sum, spelled, parts)

  IsExport-intro :
      (start file file₁ : Bytes) (c : Check) (foot trailing : Bytes)
      → start ≡ header
      → Front 8 file (start, file₁)
      → (s : Scanned (first_check start) file₁ (c, foot ++ trailing)) → Closes c foot trailing
      → length foot ≡ 40
      → All IsByte foot
      → IsExport file
  unfolding export_bytes
  IsExport-intro start file file₁ c foot trailing e a s closes forty foot_bytes =
      let seen = rw e at s.seen in
      record {
        rows = s.rows;
        is_backup = record {
          sorted = seen.sorted;
          all_records = seen.all_records;
          has_format =
              lookup-format s.rows seen.formats
                (ground (arith, seen.has_format, closes.has_format));
        };
        written = rw (
          footer_written s.rows c foot trailing seen closes forty foot_bytes,
          ← s.written,
          a.whole,
          e,
        );
      }

  verify-Ensures :
      (file : Bytes) → All IsByte file → Ensures (λ _. IsExport file) (verify sha256 file)
  unfolding verify
  verify-Ensures file h = Ensures-bind (read_exact-Ensures 8 file h) λ (start, file₁) a.
      Ensures-reject_if (not (bytes_eq start header)) Error.corrupt λ good.
        Ensures-bind (verify_records-Ensures (length file₁) (first_check start) file₁ a.rest_bytes)
          λ (c, file₂) s.
            Ensures-bind (read_exact-Ensures 40 file₂ s.rest_bytes) λ (foot, trailing) b.
              Ensures-test (bad_footer sha256 c foot trailing) Error.corrupt λ passed.
                IsExport-intro start file file₁ c foot trailing
                  (bytes_eq→eq start header (not-false good)) a (rw b.whole at s)
                  (bad_footer_sound c foot trailing passed) b.size b.front_bytes

  -- A file of bytes that `verify` accepts is the export of some rows in strictly increasing key
  -- order, with keys of 1 to 2048 bytes and values of at most 16 MiB, the format row of this
  -- version among them.
  pub export_bytes-verify :
      (file : Bytes) → All IsByte file → verify sha256 file ≡ ok tt → IsExport file
  export_bytes-verify file h e = Ensures-eq-ok (verify-Ensures file h) e
