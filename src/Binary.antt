-- ===== src/Binary.antt =====
-- src/binary.rs: checksummed little-endian blocks of vectors.
-- The checksum (crc32fast) is a parameter. An f32 is its bits, and an ID its bytes: `from_utf8` and
-- `validate_id` fail with one error, and what passes the second is ASCII, so the model makes only it.
pub mod RoundTrip
pub mod Sound
use gengis_mimi.Shared.{
  ℕ, zero, suc, ◌+◌, ◌-◌, ◌*◌, ◌/◌, Bool, true, false, not, ◌&&◌, ◌||◌, Option, none, some, List,
  [], ◌∷◌, ◌++◌, length, take, drop, take_exact, ltb, ◌==◌, if◌then◌else◌,
}
use gengis_mimi.Shared.Bytes.{Bytes, bytes_eq}
use gengis_mimi.Shared.Word.{to_le_bytes, from_le_bytes}
use gengis_mimi.Error.{Error, Result, ok, err, ◌>>=◌, ◌>>◌, reject_if, ok_or}
use gengis_mimi.Model.{max_dimensions, validate_id}
use gengis_mimi.Model.Float.{is_finite_f32}

abbrev pub Row : Type 0
Row = Bytes × List ℕ

-- b"GMVB\x01"
abbrev pub magic : Bytes
magic = b'G' ∷ b'M' ∷ b'V' ∷ b'B' ∷ 1 ∷ []

abbrev pub first_dimensions : List Row → ℕ
first_dimensions [] = 0
first_dimensions ((id, vector) ∷ rows) = length vector

unfoldable pub encode_values : List ℕ → Bytes
encode_values [] = []
encode_values (v ∷ vs) = to_le_bytes 4 v ++ encode_values vs

unfoldable pub encode_row : Row → Bytes
unfolding encode_values
encode_row (id, vector) = to_le_bytes 2 (length id) ++ (id ++ encode_values vector)

unfoldable pub encode_rows : List Row → Bytes
encode_rows [] = []
encode_rows (row ∷ rows) = encode_row row ++ encode_rows rows

-- Everything before the checksum.
unfoldable pub encode_body : List Row → Bytes
encode_body rows =
    magic
    ++ (to_le_bytes 4 (first_dimensions rows) ++ (to_le_bytes 4 (length rows) ++ encode_rows rows))

-- `as_chunks::<4>().0`, each chunk read as an f32 that must be finite.
unfoldable pub decode_values : Bytes → Result (List ℕ)
decode_values (a ∷ b ∷ c ∷ d ∷ rest) =
    let value = from_le_bytes (a ∷ b ∷ c ∷ d ∷ []) in
    let more = decode_values rest in
    do reject_if (not (is_finite_f32 value)) Error.corrupt; vector ← more; ok (value ∷ vector)
decode_values _ = ok []

-- `map_err(|_| bad())`
abbrev pub as_corrupt {ℓ} : {A : Type ℓ} → Result A → Result A
as_corrupt (ok a) = ok a
as_corrupt (err e) = err Error.corrupt

-- One round of the loop over the rows, and the loop.
unfoldable pub decode_row : ℕ → Bytes → Result (Row × Bytes)
decode_row dimensions rest = do
  (size, rest) ← ok_or (take_exact 2 rest) Error.corrupt
  (id, rest) ← ok_or (take_exact (from_le_bytes size) rest) Error.corrupt
  as_corrupt (validate_id id)
  (values, rest) ← ok_or (take_exact (dimensions * 4) rest) Error.corrupt
  vector ← decode_values values
  ok ((id, vector), rest)

unfoldable pub decode_rows : ℕ → ℕ → Bytes → Result (List Row × Bytes)
decode_rows zero dimensions rest = ok ([], rest)
decode_rows (suc count) dimensions rest = do
  (row, rest) ← decode_row dimensions rest
  (rows, rest) ← decode_rows count dimensions rest
  ok (row ∷ rows, rest)

-- The test of a block's dimensions and count against the length of its body.
unfoldable pub bad_header : ℕ → ℕ → ℕ → Bool
bad_header dimensions count size =
    ltb max_dimensions dimensions
    || ltb 0 count && dimensions == 0
    || ltb (size / (dimensions * 4 + 2)) count

-- The body of a block whose checksum matched.
unfoldable pub decode_body : Bytes → Result (List Row)
decode_body body = do
  let dimensions = from_le_bytes (take 4 (drop 5 body))
  let count = from_le_bytes (take 4 (drop 9 body))
  reject_if (bad_header dimensions count (length body)) Error.corrupt
  (rows, rest) ← decode_rows count dimensions (drop 13 body)
  reject_if (not (length rest == 0)) Error.corrupt
  ok rows

module _ (crc32 : Bytes → ℕ) where
  unfoldable pub encode : List Row → Bytes
  encode rows = encode_body rows ++ to_le_bytes 4 (crc32 (encode_body rows))

  unfoldable pub decode : Bytes → Result (List Row)
  decode bytes = do
    reject_if (ltb (length bytes) 17 || not (bytes_eq (take 5 bytes) magic)) Error.corrupt
    let body = take (length bytes - 4) bytes
    let checksum = drop (length bytes - 4) bytes
    reject_if (not (crc32 body == from_le_bytes checksum)) Error.corrupt
    decode_body body

  unfoldable pub encode_vector : List ℕ → Bytes
  encode_vector vector = encode ((b'v' ∷ [], vector) ∷ [])

  abbrev one_vector : List Row → Result (List ℕ)
  one_vector ((id, vector) ∷ []) = ok vector
  one_vector _ = err Error.corrupt

  unfoldable pub decode_vector : Bytes → Result (List ℕ)
  decode_vector bytes = do rows ← decode bytes; one_vector rows
