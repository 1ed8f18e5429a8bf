-- ===== src/Binary/RoundTrip.antt =====
-- What `encode` wrote, `decode` reads back.
use gengis_mimi.Shared.{
  ℕ, ◌+◌, ◌-◌, ◌*◌, ◌/◌, ◌^◌, ◌≤◌, ◌<◌, ◌≡◌, refl, ◌∙◌, true, false, List, [], ◌∷◌, ◌++◌,
  append-nil, append_assoc, arith, length, length-append, take, drop, take-append, drop-append, All,
  take_exact-append, take_exact-length, ltb, ==_refl,
}
use gengis_mimi.Shared.Bytes.{Bytes, bytes_eq_refl}
use gengis_mimi.Shared.Word.{
  to_le_bytes, from_le_bytes, length-to_le_bytes, from_le_bytes-to_le_bytes,
}
use native.Mathlib.Nat.{le-div_iff_mul-le}
use gengis_mimi.Error.{ok}
use gengis_mimi.Model.{max_dimensions, validate_id, is_id_byte}
use gengis_mimi.Model.Float.{is_finite_f32}
use gengis_mimi.Binary.{
  Row, magic, first_dimensions, encode_values, encode_row, encode_rows, encode_body, decode_values,
  bad_header, decode_row, decode_rows, decode_body, encode, decode, encode_vector, decode_vector,
}

-- A finite f32.
abbrev pub IsFinite : ℕ → Type 0
IsFinite v = (v < 2 ^ 32) × (is_finite_f32 v ≡ true)

-- A row of a block: a valid ID, and a vector of the block's dimensions.
pub record IsRow (dimensions : ℕ) (row : Row) : Type 0 where
  pub id_valid : validate_id row.0 ≡ ok tt
  pub width : length row.1 ≡ dimensions
  pub finite : All IsFinite row.1

decode_values-encode_values :
    (vs : List ℕ) → All IsFinite vs → decode_values (encode_values vs) ≡ ok vs
unfolding encode_values decode_values to_le_bytes
decode_values-encode_values [] h = refl
decode_values-encode_values (v ∷ vs) ((p, q), h) =
    let value : from_le_bytes (to_le_bytes 4 v) ≡ v = from_le_bytes-to_le_bytes 4 v (omega arith) in
    rw (value, q, decode_values-encode_values vs h)

length-encode_values : (vs : List ℕ) → length (encode_values vs) ≡ length vs * 4
unfolding encode_values to_le_bytes
length-encode_values [] = omega arith
length-encode_values (v ∷ vs) = omega (arith, length-encode_values vs)

-- A valid ID has 1 to 128 bytes, so its length fits in two.
validate_id-length : (id : Bytes) → validate_id id ≡ ok tt → (1 ≤ length id) × (length id ≤ 128)
unfolding validate_id
validate_id-length id h = ground arith

length-encode_row :
    (dimensions : ℕ) (row : Row)
    → IsRow dimensions row
    → dimensions * 4 + 2 ≤ length (encode_row row)
unfolding encode_row
length-encode_row dimensions row h = omega (
  arith,
  length-append (to_le_bytes 2 (length row.0)) (row.0 ++ encode_values row.1),
  length-append row.0 (encode_values row.1),
  length-to_le_bytes 2 (length row.0),
  length-encode_values row.1,
  h.width,
)

decode_row-encode_row :
    (dimensions : ℕ) (row : Row) (rest : Bytes)
    → IsRow dimensions row
    → decode_row dimensions (encode_row row ++ rest) ≡ ok (row, rest)
unfolding encode_row decode_row
decode_row-encode_row dimensions (id, vector) rest h = rw (
  append_assoc,
  take_exact-append 2 (to_le_bytes 2 (length id)) _ (length-to_le_bytes 2 _),
  from_le_bytes-to_le_bytes 2 (length id) (omega (arith, validate_id-length id h.id_valid)),
  append_assoc id (encode_values vector) rest,
  take_exact-length id (encode_values vector ++ rest),
  h.id_valid,
  take_exact-append (dimensions * 4) (encode_values vector) rest
      (omega (arith, length-encode_values vector, h.width)),
  decode_values-encode_values vector h.finite,
)

length-encode_rows :
    (dimensions : ℕ) (rows : List Row)
    → All (IsRow dimensions) rows
    → length rows * (dimensions * 4 + 2) ≤ length (encode_rows rows)
unfolding encode_rows
length-encode_rows dimensions [] h = omega arith
length-encode_rows dimensions (row ∷ rows) (p, h) = omega (
  arith,
  length-append (encode_row row) (encode_rows rows),
  length-encode_row dimensions row p,
  length-encode_rows dimensions rows h,
)

decode_rows-encode_rows :
    (dimensions : ℕ) (rows : List Row) (rest : Bytes)
    → All (IsRow dimensions) rows
    → decode_rows (length rows) dimensions (encode_rows rows ++ rest) ≡ ok (rows, rest)
unfolding encode_rows decode_rows
decode_rows-encode_rows dimensions [] rest h = refl
decode_rows-encode_rows dimensions (row ∷ rows) rest (p, h) = rw (
  append_assoc (encode_row row) (encode_rows rows) rest,
  decode_row-encode_row dimensions row (encode_rows rows ++ rest) p,
  decode_rows-encode_rows dimensions rows rest h,
)

-- Rows that a block can hold: alike in dimensions, at most `max_dimensions` and not zero, and as
-- many as a u32 counts.
pub record IsBlock (rows : List Row) : Type 0 where
  pub all_rows : All (IsRow (first_dimensions rows)) rows
  pub bounded : first_dimensions rows ≤ max_dimensions
  pub positive : 0 < length rows → 0 < first_dimensions rows
  pub counted : length rows < 2 ^ 32

module _ (rows : List Row) where
  body_fields :
      (take 4 (drop 5 (encode_body rows)) ≡ to_le_bytes 4 (first_dimensions rows))
      × (take 4 (drop 9 (encode_body rows)) ≡ to_le_bytes 4 (length rows))
      × (drop 13 (encode_body rows) ≡ encode_rows rows)
      × (length (encode_body rows) ≡ 13 + length (encode_rows rows))
  unfolding encode_body to_le_bytes
  body_fields = (refl, refl, refl, omega arith)

  encode_body-magic : take 5 (encode_body rows) ≡ magic
  unfolding encode_body
  encode_body-magic = refl

bad_header-fits :
    (dimensions count size : ℕ)
    → dimensions ≤ max_dimensions
    → (0 < count → 0 < dimensions)
    → count * (dimensions * 4 + 2) ≤ size
    → bad_header dimensions count size ≡ false
unfolding bad_header
bad_header-fits dimensions count size bounded positive fits =
    let enough : count ≤ size / (dimensions * 4 + 2) =
      (le-div_iff_mul-le {k = dimensions * 4 + 2} (omega arith)).1 fits in
    ground arith

decode_body-encode_body :
    (rows : List Row) → IsBlock rows → decode_body (encode_body rows) ≡ ok rows
unfolding decode_body
decode_body-encode_body rows h =
    let (dimensions, count, rest, size) = body_fields rows in
    rw
      (
        dimensions,
        count,
        rest,
        from_le_bytes-to_le_bytes 4 (first_dimensions rows) (omega (arith, h.bounded)),
        from_le_bytes-to_le_bytes 4 (length rows) h.counted,
        bad_header-fits (first_dimensions rows) (length rows) (length (encode_body rows)) h.bounded
            h.positive
            (omega (arith, size, length-encode_rows (first_dimensions rows) rows h.all_rows)),
      )
      (rw (← append-nil (encode_rows rows))
        (rw (decode_rows-encode_rows (first_dimensions rows) rows [] h.all_rows)))

module _ (crc32 : Bytes → ℕ) where
  -- A block whose checksum matches is decoded by its body.
  pub decode-append :
      (body sum : Bytes)
      → length sum ≡ 4
      → 13 ≤ length body
      → take 5 (body ++ sum) ≡ magic
      → from_le_bytes sum ≡ crc32 body
      → decode crc32 (body ++ sum) ≡ decode_body body
  unfolding decode
  decode-append body sum width long marked matches =
      let size : length (body ++ sum) - 4 ≡ length body = omega (arith, length-append body sum) in
      let enough : ltb (length (body ++ sum)) 17 ≡ false = ground (arith, length-append body sum) in
      rw (
        enough,
        marked,
        bytes_eq_refl magic,
        size,
        take-append body sum,
        drop-append body sum,
        matches,
        ==_refl (crc32 body),
      )

  encode-magic : (rows : List Row) → take 5 (encode crc32 rows) ≡ magic
  unfolding encode encode_body
  encode-magic rows = refl

  module _ (crc32_u32 : (bytes : Bytes) → crc32 bytes < 2 ^ 32) where
    -- For any checksum function into u32, a block of fewer than 2^32 rows, with valid IDs and
    -- finite vectors that all have the same number of dimensions, which is positive where there is
    -- a row and at most 4096, decodes from its encoding to these rows.
    pub decode-encode :
        (rows : List Row) → IsBlock rows → decode crc32 (encode crc32 rows) ≡ ok rows
    unfolding encode
    decode-encode rows h =
        let (dimensions, count, rest, size) = body_fields rows in
        decode-append (encode_body rows) (to_le_bytes 4 (crc32 (encode_body rows)))
          (length-to_le_bytes 4 (crc32 (encode_body rows))) (omega (arith, size))
          (encode-magic rows)
          (from_le_bytes-to_le_bytes 4 _ (omega (arith, crc32_u32 (encode_body rows))))
        ∙ decode_body-encode_body rows h

    -- A vector that the namespace accepts comes back from its stored form.
    pub decode_vector-encode_vector :
        (vector : List ℕ)
        → All IsFinite vector
        → 0 < length vector
        → length vector ≤ max_dimensions
        → decode_vector crc32 (encode_vector crc32 vector) ≡ ok vector
    unfolding encode_vector decode_vector validate_id is_id_byte
    decode_vector-encode_vector vector finite positive bounded = rw (
        decode-encode ((b'v' ∷ [], vector) ∷ []) (record {
          all_rows = (record { id_valid = refl; width = refl; finite = finite }, tt);
          bounded = bounded;
          positive = λ _. positive;
          counted = omega arith;
        }))
