-- ===== src/Binary/Sound.antt =====
-- What `decode` accepts is exactly what `encode` writes.
mod Rows
use gengis_mimi.Shared.{
  ℕ, zero, suc, ◌-◌, ◌*◌, ◌^◌, ◌≤◌, ◌<◌, ◌≡◌, refl, ap, sym, ◌∙◌, Bool, true, false, List, [], ◌∷◌,
  ◌++◌, append-nil, append_assoc, arith, length, take, drop, take_next, take-append-drop,
  length-take, length-drop, All, take_exact, take_exact_sound, ltb, ◌==◌, ==_iff, ◌||◌, not,
  append-All,
}
use gengis_mimi.Shared.Bytes.{Bytes, IsByte, bytes_eq, bytes_eq→eq}
use gengis_mimi.Shared.Word.{
  to_le_bytes, from_le_bytes, to_le_bytes-from_le_bytes, to_le_bytes_eq, from_le_bytes-lt,
}
use gengis_mimi.Error.{Error, Result, ok, err}
use gengis_mimi.Error.Ensures.{
  Ensures, returns, Ensures-eq-ok, Ensures-bind, Ensures-mono, Ensures-bind_eq, Ensures-ok_or,
  Ensures-reject_if,
}
use gengis_mimi.Model.{max_dimensions, validate_id}
use gengis_mimi.Model.Float.{is_finite_f32}
use gengis_mimi.Binary.{
  Row, magic, first_dimensions, encode_values, encode_row, encode_rows, encode_body, decode_values,
  decode_row, decode_rows, decode_body, encode, decode, bad_header, as_corrupt,
}
use gengis_mimi.Binary.RoundTrip.{IsFinite, IsRow, IsBlock}
use Rows.{not-eq-false, ReadsRows, decode_rows_sound}

-- The fields of a block's body.
record Parts (body x y z : Bytes) : Type 0 where
  whole : body ≡ magic ++ (x ++ (y ++ z))
  first : length x ≡ 4
  second : length y ≡ 4
  first_bytes : All IsByte x
  second_bytes : All IsByte y
  bytes : All IsByte z

body-Parts :
    (body : Bytes)
    → All IsByte body
    → 13 ≤ length body
    → take 5 body ≡ magic
    → Parts body (take 4 (drop 5 body)) (take 4 (drop 9 body)) (drop 13 body)
body-Parts body bytes long marked =
    let whole : body ≡ magic ++ (take 4 (drop 5 body) ++ (take 4 (drop 9 body) ++ drop 13 body)) =
      rw (take_next 9 4 body, take_next 5 4 body) (rw marked at (sym (take-append-drop 5 body))) in
    let (_, b₁) = append-All IsByte magic _ (rw whole at bytes) in
    let (b₂, b₃) = append-All IsByte (take 4 (drop 5 body)) _ b₁ in
    let (b₄, b₅) = append-All IsByte (take 4 (drop 9 body)) _ b₃ in
    record {
      whole = whole;
      first = length-take 4 (drop 5 body) (omega (arith, length-drop 5 body));
      second = length-take 4 (drop 9 body) (omega (arith, length-drop 9 body));
      first_bytes = b₂;
      second_bytes = b₄;
      bytes = b₅;
    }

-- What is known of a body that was read, if it holds a row.
record ReadsBody (body : Bytes) (rows : List Row) : Type 0 where
  written : 0 < length rows → encode_body rows ≡ body
  is_block : 0 < length rows → IsBlock rows

first_dimensions_eq :
    (d : ℕ) (rows : List Row) → All (IsRow d) rows → 0 < length rows → first_dimensions rows ≡ d
first_dimensions_eq d [] h p = absurd (omega arith)
first_dimensions_eq d (row ∷ rows) (h, _) p = h.width

bad_header_sound :
    (d c size : ℕ) → bad_header d c size ≡ false → (d ≤ max_dimensions) × (0 < c → 0 < d)
unfolding bad_header
bad_header_sound d c size h = ground arith

length_zero {ℓ} : {A : Type ℓ} (xs : List A) → not (length xs == 0) ≡ false → xs ≡ []
length_zero [] h = refl
length_zero (x ∷ xs) h = ground arith

u32_lt : (y : Bytes) → length y ≡ 4 → All IsByte y → from_le_bytes y < 2 ^ 32
u32_lt y size h = rw (size) at (from_le_bytes-lt y h)

read_body :
    (body x y z : Bytes) (rows : List Row)
    → Parts body x y z
    → bad_header (from_le_bytes x) (from_le_bytes y) (length body) ≡ false
    → ReadsRows (from_le_bytes y) (from_le_bytes x) z rows []
    → ReadsBody body rows
unfolding encode_body
read_body body x y z rows parts good h =
    let (bounded, positive) = bad_header_sound _ _ _ good in
    let d = first_dimensions_eq (from_le_bytes x) rows h.all_rows in
    record {
      written = λ p. rw (
        to_le_bytes_eq 4 (first_dimensions rows) x parts.first parts.first_bytes (d p),
        to_le_bytes_eq 4 (length rows) y parts.second parts.second_bytes h.many,
        parts.whole,
        h.written,
        append-nil (encode_rows rows),
      );
      is_block = λ p. record {
        all_rows = rw (d p) h.all_rows;
        bounded = rw (d p) bounded;
        positive = λ q. rw (d p) (positive (omega (arith, h.many)));
        counted = omega (arith, h.many, u32_lt y parts.second parts.second_bytes);
      };
    }

decode_body_sound :
    (body : Bytes)
    → All IsByte body
    → 13 ≤ length body
    → take 5 body ≡ magic
    → Ensures (ReadsBody body) (decode_body body)
unfolding decode_body
decode_body_sound body bytes long marked =
    let d = from_le_bytes (take 4 (drop 5 body)) in
    let c = from_le_bytes (take 4 (drop 9 body)) in
    let parts = body-Parts body bytes long marked in
    Ensures-reject_if (bad_header d c (length body)) Error.corrupt λ good.
      Ensures-bind (decode_rows_sound c d (drop 13 body) parts.bytes) λ (rows, rest) h.
        Ensures-reject_if (not (length rest == 0)) Error.corrupt
          λ ended. returns (read_body body _ _ _ rows parts good (rw (length_zero rest ended) at h))

take-append_le : (n : ℕ) (xs ys : Bytes) → n ≤ length xs → take n (xs ++ ys) ≡ take n xs
take-append_le zero xs ys h = refl
take-append_le (suc n) [] ys h = absurd (omega arith)
take-append_le (suc n) (x ∷ xs) ys h = ap (λ zs. x ∷ zs) (take-append_le n xs ys (omega arith))

marked_bytes :
    (bytes : Bytes)
    → (ltb (length bytes) 17 || not (bytes_eq (take 5 bytes) magic)) ≡ false
    → (17 ≤ length bytes) × (take 5 bytes ≡ magic)
marked_bytes bytes h = ground (arith, bytes_eq→eq (take 5 bytes) magic)

module _ (crc32 : Bytes → ℕ) where
  -- What was read from a block with a row in it.
  pub record ReadsBlock (bytes : Bytes) (rows : List Row) : Type 0 where
    pub is_block : 0 < length rows → IsBlock rows
    pub written : 0 < length rows → encode crc32 rows ≡ bytes

  block_read :
      (body sum : Bytes) (rows : List Row)
      → length sum ≡ 4
      → All IsByte sum
      → crc32 body ≡ from_le_bytes sum
      → ReadsBody body rows
      → ReadsBlock (body ++ sum) rows
  unfolding encode
  block_read body sum rows size bytes matches h = record {
    is_block = h.is_block;
    written = λ p. rw (h.written p, to_le_bytes_eq 4 (crc32 body) sum size bytes matches);
  }

  -- A block that decodes to at least one row is, byte for byte, the one that `encode` writes for
  -- those rows, and the rows are such as a block may hold.
  decode_sound :
      (bytes : Bytes) → All IsByte bytes → Ensures (ReadsBlock bytes) (decode crc32 bytes)
  unfolding decode
  decode_sound bytes all_bytes =
      let body = take (length bytes - 4) bytes in
      let sum = drop (length bytes - 4) bytes in
      let whole : body ++ sum ≡ bytes = take-append-drop (length bytes - 4) bytes in
      let (body_bytes, sum_bytes) = append-All IsByte body sum (rw (sym whole) at all_bytes) in
      Ensures-reject_if (ltb (length bytes) 17 || not (bytes_eq (take 5 bytes) magic)) Error.corrupt
        λ marked. Ensures-reject_if (not (crc32 body == from_le_bytes sum)) Error.corrupt λ matches.
          let (long, m) = marked_bytes bytes marked in
          let size = length-take (length bytes - 4) bytes (omega arith) in
          let fits : 13 ≤ length body = omega (arith, size) in
          let front : take 5 body ≡ magic =
            sym (take-append_le 5 body sum (omega (arith, fits))) ∙ ap (take 5) whole ∙ m in
          let width : length sum ≡ 4 = omega (arith, length-drop (length bytes - 4) bytes) in
          Ensures-mono (decode_body_sound body body_bytes fits front) λ rows h.
            rw whole at
              (block_read body sum rows width sum_bytes ((==_iff _ _).0 (not-eq-false matches)) h)

  -- Bytes that decode to at least one row are the encoding of these rows, which have valid IDs and
  -- finite vectors of equal, positive dimensions: a block has no second form.
  pub encode-decode :
      (bytes : Bytes) {rows : List Row}
      → All IsByte bytes
      → decode crc32 bytes ≡ ok rows
      → 0 < length rows
      → IsBlock rows × (encode crc32 rows ≡ bytes)
  encode-decode bytes all_bytes e some_row =
      let h = Ensures-eq-ok (decode_sound bytes all_bytes) e in
      (h.is_block some_row, h.written some_row)
