-- ===== src/Backup/Accepts/Passing.antt =====
-- The loop of `verify` on the records of an export.
use gengis_mimi.Shared.{
  ℕ, zero, suc, ◌+◌, ◌≤◌, ◌<◌, ◌≡◌, refl, sym, ◌∙◌, Bool, true, ◌||◌, some, List, [], ◌∷◌, ◌++◌,
  append_assoc, append-nil, length, arith, All, length-append, Bool-cases, inl, inr,
}
use gengis_mimi.Shared.Bytes.{Bytes, bytes_eq, bytes_eq_refl, bytes_lt, bytes_lt-ne, bytes_eq→eq}
use gengis_mimi.Shared.Word.{to_le_bytes, length-to_le_bytes}
use gengis_mimi.Error.{ok}
use gengis_mimi.Slate.Entries.{Entry, lookup}
use gengis_mimi.Slate.Sorted.{Above, IsSorted}
use gengis_mimi.Engine.Keys.{format_key, format}
use gengis_mimi.Backup.{
  u32_max, record_bytes, records, Check, check_format, check_record, verify_records,
}
use gengis_mimi.Backup.Records.{IsRecord, read_record-append, read_record-footer}
use gengis_mimi.Backup.Sound.{any_format}

pub Above-check_format :
    (rows : List Entry)
    → Above format_key rows
    → All (λ (row : Entry). check_format row ≡ ok tt) rows
Above-check_format [] h = tt
Above-check_format ((key, value) ∷ rows) (p, h) =
    (rw (bytes_lt-ne format_key key p), Above-check_format rows h)

pub some-injective : {x y : Bytes} → some x ≡ some y → x ≡ y
some-injective h = cc

pub formats-lookup :
    (rows : List Entry)
    → IsSorted rows
    → lookup format_key rows ≡ some format
    → All (λ (row : Entry). check_format row ≡ ok tt) rows
unfolding lookup
formats-lookup [] h e = tt
formats-lookup ((key, value) ∷ rows) (above, h) e = elim (Bool-cases (bytes_eq key format_key)) [
  | inl same ↦
      let k = bytes_eq→eq key format_key same in
      let v : value ≡ format = some-injective (rw same at e) in
      (rw (same, v, bytes_eq_refl format), Above-check_format rows (rw k at above))
  | inr other ↦ (rw other, formats-lookup rows h (rw other at e))
]

pub any_format-lookup :
    (rows : List Entry) → lookup format_key rows ≡ some format → any_format rows ≡ true
unfolding lookup
any_format-lookup [] e = cc
any_format-lookup ((key, value) ∷ rows) e = ground (arith, any_format-lookup rows)

pub Above-empty : (rows : List Entry) → All IsRecord rows → Above [] rows
unfolding bytes_lt
Above-empty [] h = tt
Above-empty (([], value) ∷ rows) (p, h) = absurd (omega (arith, p.key_positive))
Above-empty ((b ∷ key, value) ∷ rows) (p, h) = (refl, Above-empty rows h)

pub length-record_bytes : (key value : Bytes) → 8 ≤ length (record_bytes key value)
unfolding record_bytes
length-record_bytes key value = omega (
  arith,
  length-append (to_le_bytes 4 (length key)) (to_le_bytes 4 (length value) ++ (key ++ value)),
  length-append (to_le_bytes 4 (length value)) (key ++ value),
  length-to_le_bytes 4 (length key),
  length-to_le_bytes 4 (length value),
)

pub length-records : (rows : List Entry) → length rows ≤ length (records rows)
unfolding records
length-records [] = omega arith
length-records ((key, value) ∷ rows) = omega (
  arith,
  length-append (record_bytes key value) (records rows),
  length-record_bytes key value,
  length-records rows,
)

-- There is fuel for every record of a file and for its footer.
pub length-lt-body :
    (rows : List Entry) (foot : Bytes)
    → length rows < length (records rows ++ (to_le_bytes 4 u32_max ++ foot))
length-lt-body rows foot = omega (
  arith,
  length-records rows,
  length-append (records rows) (to_le_bytes 4 u32_max ++ foot),
  length-append (to_le_bytes 4 u32_max) foot,
  length-to_le_bytes 4 u32_max,
)

-- A run of the loop to the mark of the footer.
pub record Passes (fuel : ℕ) (c : Check) (rows : List Entry) (rest : Bytes) : Type 0 where
  pub after : Check
  pub run :
      verify_records fuel c (records rows ++ (to_le_bytes 4 u32_max ++ rest)) ≡ ok (after, rest)
  pub hashed : after.hashed ≡ c.hashed ++ records rows
  pub count : after.count ≡ c.count + length rows
  pub has_format : after.has_format ≡ (any_format rows || c.has_format)

abbrev pub checked : Check → Bytes → Bytes → Check
checked c key value = record {
  hashed = c.hashed ++ record_bytes key value;
  count = c.count + 1;
  has_format = bytes_eq key format_key || c.has_format;
  previous = key;
}

pub check_record-checked :
    (c : Check) (key value : Bytes)
    → bytes_lt c.previous key ≡ true
    → check_format (key, value) ≡ ok tt
    → check_record c (key, value) ≡ ok (checked c key value)
unfolding check_record
check_record-checked c key value h k = rw (h, k)

pub any_three : (a b c : Bool) → (a || (b || c)) ≡ ((a || b) || c)
any_three a b c = ground arith

pub verify_records-Passes :
    (fuel : ℕ) (c : Check) (rows : List Entry) (rest : Bytes)
    → length rows < fuel
    → Above c.previous rows
    → IsSorted rows
    → All IsRecord rows
    → All (λ (row : Entry). check_format row ≡ ok tt) rows
    → Passes fuel c rows rest
unfolding verify_records records
verify_records-Passes zero c rows rest less above sorted fits formats = absurd (omega arith)
verify_records-Passes (suc fuel) c [] rest less above sorted fits formats = record {
  after = c;
  run = rw (read_record-footer rest);
  hashed = sym (append-nil c.hashed);
  count = omega arith;
  has_format = refl;
}
verify_records-Passes (suc fuel) c ((key, value) ∷ rows) rest less (next, above) (later, sorted)
      (fit, fits) (format_ok, formats) =
    let tail = to_le_bytes 4 u32_max ++ rest in
    let more =
      verify_records-Passes fuel (checked c key value) rows rest (omega arith) later sorted fits
        formats in
    record {
      after = more.after;
      run =
          rw
            (
              append_assoc (record_bytes key value) (records rows) tail,
              read_record-append key value (records rows ++ tail) fit,
              check_record-checked c key value next format_ok,
            )
            more.run;
      hashed = more.hashed ∙ append_assoc c.hashed (record_bytes key value) (records rows);
      count = omega (arith, more.count);
      has_format =
          more.has_format ∙ any_three (any_format rows) (bytes_eq key format_key) c.has_format;
    }
