-- ===== src/Backup/Sound/Scan.antt =====
-- What the loop of `verify` has read when it ends.
use gengis_mimi.Shared.{
  ℕ, zero, suc, ◌+◌, ◌≡◌, refl, sym, ap, ◌∙◌, Bool, true, false, not, ◌||◌, Option, some, List, [],
  ◌∷◌, ◌++◌, append_assoc, append-nil, length, arith, All,
}
use gengis_mimi.Shared.Bytes.{Bytes, IsByte, bytes_eq, bytes_lt}
use gengis_mimi.Shared.Word.{to_le_bytes}
use gengis_mimi.Error.{Error, ok}
use gengis_mimi.Error.Ensures.{
  Ensures, returns, fails, Ensures-bind, Ensures-bind_eq, Ensures-reject_if, Ensures-mono,
}
use gengis_mimi.Slate.Entries.{Entry, lookup}
use gengis_mimi.Slate.Sorted.{Above, IsSorted, Above-trans}
use gengis_mimi.Engine.Keys.{format_key, format}
use gengis_mimi.Backup.{
  u32_max, record_bytes, records, Check, check_format, check_record, verify_records, verify_next,
}
use gengis_mimi.Backup.Records.{IsRecord, Reads, read_end, read_row, read_record-Ensures}

-- The content of a complete database of this version, as its scan lists it.
pub record IsBackup (rows : List Entry) : Type 0 where
  pub sorted : IsSorted rows
  pub all_records : All IsRecord rows
  pub has_format : lookup format_key rows ≡ some format

-- Whether a row of the format is among some.
abbrev pub any_format : List Entry → Bool
any_format [] = false
any_format ((key, value) ∷ rows) = any_format rows || bytes_eq key format_key

-- What the loop has seen after some rows.
pub record Seen (c : Check) (rows : List Entry) (after : Check) : Type 0 where
  pub hashed : after.hashed ≡ c.hashed ++ records rows
  pub count : after.count ≡ c.count + length rows
  pub sorted : IsSorted rows
  pub above : Above c.previous rows
  pub all_records : All IsRecord rows
  pub formats : All (λ (row : Entry). check_format row ≡ ok tt) rows
  pub has_format : after.has_format ≡ (any_format rows || c.has_format)

-- The rows that were read from a file, up to the mark of the footer.
pub record Scanned (c : Check) (file : Bytes) (outcome : Check × Bytes) : Type 0 where
  pub rows : List Entry
  pub seen : Seen c rows outcome.0
  pub written : file ≡ records rows ++ (to_le_bytes 4 u32_max ++ outcome.1)
  pub rest_bytes : All IsByte outcome.1

pub record Accepted (c : Check) (row : Entry) (after : Check) : Type 0 where
  pub next : bytes_lt c.previous row.0 ≡ true
  pub format_ok : check_format row ≡ ok tt
  pub made : after ≡ record {
    hashed = c.hashed ++ record_bytes row.0 row.1;
    count = c.count + 1;
    has_format = bytes_eq row.0 format_key || c.has_format;
    previous = row.0;
  }

pub not-false : {b : Bool} → not b ≡ false → b ≡ true
not-false h = ground arith

pub check_record-Ensures : (c : Check) (row : Entry) → Ensures (Accepted c row) (check_record c row)
unfolding check_record
check_record-Ensures c (key, value) =
    Ensures-reject_if (not (bytes_lt c.previous key)) Error.corrupt λ next.
      Ensures-bind_eq (check_format (key, value))
        λ _ good. returns (record { next = not-false next; format_ok = good; made = refl })

pub any_three : (a b c : Bool) → (a || (b || c)) ≡ ((a || b) || c)
any_three a b c = ground arith

module _ (c : Check) (key value : Bytes) (rows : List Entry) {next after : Check} where
  pub Seen-cons :
      IsRecord (key, value)
      → Accepted c (key, value) next
      → Seen next rows after
      → Seen c ((key, value) ∷ rows) after
  unfolding records
  Seen-cons fits a seen = record {
    hashed =
        seen.hashed ∙ rw a.made (append_assoc c.hashed (record_bytes key value) (records rows));
    count = omega (arith, seen.count, ap (λ (x : Check). x.count) a.made);
    sorted = (rw a.made at seen.above, seen.sorted);
    above = (a.next, Above-trans c.previous key rows a.next (rw a.made at seen.above));
    all_records = (fits, seen.all_records);
    formats = (a.format_ok, seen.formats);
    has_format =
        seen.has_format
        ∙ rw a.made (any_three (any_format rows) (bytes_eq key format_key) c.has_format);
  }

pub scan_end :
    (c : Check) (file rest : Bytes)
    → All IsByte rest
    → file ≡ to_le_bytes 4 u32_max ++ rest
    → Scanned c file (c, rest)
unfolding records
scan_end c file rest h e = record {
  rows = [];
  seen = record {
    hashed = sym (append-nil c.hashed);
    count = omega arith;
    sorted = tt;
    above = tt;
    all_records = tt;
    formats = tt;
    has_format = refl;
  };
  written = e;
  rest_bytes = h;
}

pub scan_row :
    (c next : Check) (file key value rest : Bytes) {outcome : Check × Bytes}
    → file ≡ record_bytes key value ++ rest
    → IsRecord (key, value)
    → Accepted c (key, value) next
    → Scanned next rest outcome
    → Scanned c file outcome
unfolding records
scan_row c next file key value rest {outcome} e fits a s = record {
  rows = (key, value) ∷ s.rows;
  seen = Seen-cons c key value s.rows fits a s.seen;
  written =
      rw
        (
          e,
          append_assoc (record_bytes key value) (records s.rows)
              (to_le_bytes 4 u32_max ++ outcome.1),
        )
        (ap (λ x. record_bytes key value ++ x) s.written);
  rest_bytes = s.rest_bytes;
}

pub verify_next-Ensures :
    (fuel : ℕ) (c : Check) (file : Bytes) {outcome : Option Entry × Bytes}
    → Reads file outcome
    → ((c : Check) (file : Bytes)
        → All IsByte file
        → Ensures (Scanned c file) (verify_records fuel c file))
    → Ensures (Scanned c file) (verify_next (verify_records fuel) outcome.0 c outcome.1)
verify_next-Ensures fuel c file (read_end {rest} h e) more = returns (scan_end c file rest h e)
verify_next-Ensures fuel c file (read_row {key} {value} {rest} h e fits) more =
    Ensures-bind (check_record-Ensures c (key, value)) λ next a.
      Ensures-mono (more next rest h) λ outcome s. scan_row c next file key value rest e fits a s

pub verify_records-Ensures :
    (fuel : ℕ) (c : Check) (file : Bytes)
    → All IsByte file
    → Ensures (Scanned c file) (verify_records fuel c file)
unfolding verify_records
verify_records-Ensures zero c file h = fails
verify_records-Ensures (suc fuel) c file h =
    Ensures-bind (read_record-Ensures file h)
      λ (row, rest) r. verify_next-Ensures fuel c file r (verify_records-Ensures fuel)
