-- ===== src/Backup/Records.antt =====
-- The records of a backup: what is written is read again, and what is read was so written.
use gengis_mimi.Shared.{
  ℕ, ◌≤◌, ◌<◌, ◌≡◌, refl, sym, false, ◌||◌, Option, none, some, ◌++◌, append_assoc, length,
  take_exact, take_exact-append, take_exact_sound, ltb, ◌==◌, ==_iff, Bool-cases, Option-cases, inl,
  inr, arith, All, append-All,
}
use gengis_mimi.Shared.Bytes.{Bytes, IsByte}
use gengis_mimi.Shared.Word.{
  to_le_bytes, from_le_bytes, length-to_le_bytes, from_le_bytes-to_le_bytes, to_le_bytes_eq,
}
use gengis_mimi.Error.{Error, ok}
use gengis_mimi.Error.Ensures.{Ensures, returns, fails, Ensures-bind, Ensures-reject_if}
use gengis_mimi.Slate.Entries.{Entry}
use gengis_mimi.Backup.{max_record, u32_max, record_bytes, read_exact, read_entry, read_record}

-- A row that a backup may have.
pub record IsRecord (row : Entry) : Type 0 where
  pub key_positive : 0 < length row.0
  pub key_bounded : length row.0 ≤ 2048
  pub value_bounded : length row.1 ≤ max_record

read_exact-append :
    (n : ℕ) (front rest : Bytes)
    → length front ≡ n
    → read_exact n (front ++ rest) ≡ ok (front, rest)
read_exact-append n front rest h = rw (take_exact-append n front rest h)

read_exact-word :
    (n : ℕ) (rest : Bytes) → read_exact 4 (to_le_bytes 4 n ++ rest) ≡ ok (to_le_bytes 4 n, rest)
read_exact-word n rest = read_exact-append 4 (to_le_bytes 4 n) rest (length-to_le_bytes 4 n)

key_len_fits : (n : ℕ) → 0 < n → n ≤ 2048 → (n == 0 || ltb 2048 n) ≡ false
key_len_fits n h k = ground arith

bad_lengths_false :
    (k v : ℕ)
    → 0 < k
    → k ≤ 2048
    → v ≤ max_record
    → (k == 0 || ltb 2048 k || ltb max_record v) ≡ false
bad_lengths_false k v h i j = ground arith

not_footer : (n : ℕ) → n ≤ 2048 → (n == u32_max) ≡ false
not_footer n h = ground arith

read_entry-append :
    (key value rest : Bytes)
    → IsRecord (key, value)
    → read_entry (length key) (to_le_bytes 4 (length value) ++ (key ++ (value ++ rest)))
      ≡ ok (some (key, value), rest)
unfolding read_entry
read_entry-append key value rest h =
    let size : from_le_bytes (to_le_bytes 4 (length value)) ≡ length value =
      from_le_bytes-to_le_bytes 4 (length value) (omega (arith, h.value_bounded)) in
    rw (
      take_exact-append 4 (to_le_bytes 4 (length value)) (key ++ (value ++ rest))
          (length-to_le_bytes 4 (length value)),
      size,
      bad_lengths_false (length key) (length value) h.key_positive h.key_bounded h.value_bounded,
      take_exact-append (length key) key (value ++ rest) refl,
      take_exact-append (length value) value rest refl,
    )

record_bytes-append :
    (key value rest : Bytes)
    → record_bytes key value ++ rest
      ≡ to_le_bytes 4 (length key) ++ (to_le_bytes 4 (length value) ++ (key ++ (value ++ rest)))
unfolding record_bytes
record_bytes-append key value rest = rw (
  append_assoc (to_le_bytes 4 (length key)) (to_le_bytes 4 (length value) ++ (key ++ value)) rest,
  append_assoc (to_le_bytes 4 (length value)) (key ++ value) rest,
  append_assoc key value rest,
)

pub read_record-append :
    (key value rest : Bytes)
    → IsRecord (key, value)
    → read_record (record_bytes key value ++ rest) ≡ ok (some (key, value), rest)
unfolding read_record
read_record-append key value rest h =
    let size : from_le_bytes (to_le_bytes 4 (length key)) ≡ length key =
      from_le_bytes-to_le_bytes 4 (length key) (omega (arith, h.key_bounded)) in
    rw
      (
        record_bytes-append key value rest,
        take_exact-append 4 (to_le_bytes 4 (length key))
            (to_le_bytes 4 (length value) ++ (key ++ (value ++ rest)))
            (length-to_le_bytes 4 (length key)),
        size,
        not_footer (length key) h.key_bounded,
      )
      (read_entry-append key value rest h)

pub read_record-footer :
    (rest : Bytes) → read_record (to_le_bytes 4 u32_max ++ rest) ≡ ok (none, rest)
unfolding read_record
read_record-footer rest = rw (
  take_exact-append 4 (to_le_bytes 4 u32_max) rest (length-to_le_bytes 4 u32_max),
  from_le_bytes-to_le_bytes 4 u32_max (omega arith),
)

-- Some bytes of a file, and those behind them.
pub record Front (n : ℕ) (file : Bytes) (p : Bytes × Bytes) : Type 0 where
  pub whole : file ≡ p.0 ++ p.1
  pub size : length p.0 ≡ n
  pub front_bytes : All IsByte p.0
  pub rest_bytes : All IsByte p.1

pub read_exact-Ensures :
    (n : ℕ) (file : Bytes) → All IsByte file → Ensures (Front n file) (read_exact n file)
read_exact-Ensures n file h = elim (Option-cases (take_exact n file)) [
  | inl none_left ↦ rw none_left fails
  | inr ((front, rest), e) ↦
      let (whole, size) = take_exact_sound n file e in
      let (front_bytes, rest_bytes) = append-All IsByte front rest (rw whole at h) in
      rw e (
        returns (record {
          whole = whole;
          size = size;
          front_bytes = front_bytes;
          rest_bytes = rest_bytes;
        }))
]

-- What a record was read from.
pub data Reads (file : Bytes) : Option Entry × Bytes → Type 0 where
  read_end :
      {rest : Bytes}
      → All IsByte rest
      → file ≡ to_le_bytes 4 u32_max ++ rest
      → Reads file (none, rest)
  read_row :
      {key value rest : Bytes}
      → All IsByte rest
      → file ≡ record_bytes key value ++ rest
      → IsRecord (key, value)
      → Reads file (some (key, value), rest)

good_lengths :
    (k v : ℕ)
    → (k == 0 || ltb 2048 k || ltb max_record v) ≡ false
    → (0 < k) × (k ≤ 2048) × (v ≤ max_record)
good_lengths k v h = (ground arith, ground arith, ground arith)

word_eq :
    (n : ℕ) (size : Bytes)
    → length size ≡ 4
    → All IsByte size
    → n ≡ from_le_bytes size
    → to_le_bytes 4 n ≡ size
word_eq n size = to_le_bytes_eq 4 n size

read_entry-Ensures :
    (key_size file : Bytes)
    → length key_size ≡ 4
    → All IsByte key_size
    → All IsByte file
    → Ensures (Reads (key_size ++ file)) (read_entry (from_le_bytes key_size) file)
unfolding read_entry
read_entry-Ensures key_size file four key_bytes h =
    Ensures-bind (read_exact-Ensures 4 file h) λ (size, file₁) a.
      Ensures-reject_if _ Error.corrupt λ good.
        Ensures-bind (read_exact-Ensures (from_le_bytes key_size) file₁ a.rest_bytes)
          λ (key, file₂) b.
            Ensures-bind (read_exact-Ensures (from_le_bytes size) file₂ b.rest_bytes)
              λ (value, rest) c.
                let (positive, bounded, fits) =
                  good_lengths (from_le_bytes key_size) (from_le_bytes size) good in
                returns (
                  read_row c.rest_bytes
                    (rw (
                      record_bytes-append key value rest,
                      word_eq (length key) key_size four key_bytes b.size,
                      word_eq (length value) size a.size a.front_bytes c.size,
                      a.whole,
                      b.whole,
                      c.whole,
                    ))
                    (record {
                      key_positive = rw b.size positive;
                      key_bounded = rw b.size bounded;
                      value_bounded = rw c.size fits;
                    }))

pub read_record-Ensures : (file : Bytes) → All IsByte file → Ensures (Reads file) (read_record file)
unfolding read_record
read_record-Ensures file h = Ensures-bind (read_exact-Ensures 4 file h) λ (size, rest) a.
    elim (Bool-cases (from_le_bytes size == u32_max)) [
      | inl last ↦
          let e : to_le_bytes 4 u32_max ≡ size =
            word_eq u32_max size a.size a.front_bytes
              (sym ((==_iff (from_le_bytes size) u32_max).0 last)) in
          rw last (returns (read_end a.rest_bytes (rw e a.whole)))
      | inr more ↦
          rw (more, a.whole) (read_entry-Ensures size rest a.size a.front_bytes a.rest_bytes)
    ]
