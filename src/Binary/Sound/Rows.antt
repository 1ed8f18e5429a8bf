-- ===== src/Binary/Sound/Rows.antt =====
-- What the rows of a block were read from: `decode_values`, `decode_row` and `decode_rows`.
use gengis_mimi.Shared.{
  ℕ, zero, suc, ◌*◌, ◌≡◌, refl, ap, Bool, true, false, List, [], ◌∷◌, ◌++◌, append_assoc, arith,
  length, All, take_exact, take_exact_sound, not, append-All,
}
use gengis_mimi.Shared.Bytes.{Bytes, IsByte}
use gengis_mimi.Shared.Word.{
  to_le_bytes, from_le_bytes, to_le_bytes-from_le_bytes, to_le_bytes_eq, from_le_bytes-lt,
}
use gengis_mimi.Error.{Error, Result, ok, err}
use gengis_mimi.Error.Ensures.{
  Ensures, returns, Ensures-bind, Ensures-bind_eq, Ensures-ok_or, Ensures-reject_if,
}
use gengis_mimi.Model.{validate_id}
use gengis_mimi.Model.Float.{is_finite_f32}
use gengis_mimi.Binary.{
  Row, encode_values, encode_row, encode_rows, decode_values, decode_row, decode_rows, as_corrupt,
}
use gengis_mimi.Binary.RoundTrip.{IsFinite, IsRow}

-- Four bytes spell back as the word that they were read as.
pub word_bytes :
    (a b c d : ℕ)
    → All IsByte (a ∷ b ∷ c ∷ d ∷ [])
    → to_le_bytes 4 (from_le_bytes (a ∷ b ∷ c ∷ d ∷ [])) ≡ a ∷ b ∷ c ∷ d ∷ []
word_bytes a b c d h = to_le_bytes-from_le_bytes (a ∷ b ∷ c ∷ d ∷ []) h

pub not-eq-false : {b : Bool} → not b ≡ false → b ≡ true
not-eq-false h = ground arith

-- The values read from a whole number of chunks spell those chunks, and are finite.
pub record Spells (n : ℕ) (bs : Bytes) (vs : List ℕ) : Type 0 where
  pub written : encode_values vs ≡ bs
  pub many : length vs ≡ n
  pub finite : All IsFinite vs

pub decode_values_sound :
    (n : ℕ) (bs : Bytes)
    → length bs ≡ n * 4
    → All IsByte bs
    → Ensures (Spells n bs) (decode_values bs)
unfolding decode_values encode_values
decode_values_sound zero [] size bytes =
    returns (record { written = refl; many = refl; finite = tt })
decode_values_sound zero (a ∷ bs) size bytes = absurd (omega arith)
decode_values_sound (suc n) [] size bytes = absurd (omega arith)
decode_values_sound (suc n) (a ∷ []) size bytes = absurd (omega arith)
decode_values_sound (suc n) (a ∷ b ∷ []) size bytes = absurd (omega arith)
decode_values_sound (suc n) (a ∷ b ∷ c ∷ []) size bytes = absurd (omega arith)
decode_values_sound (suc n) (a ∷ b ∷ c ∷ d ∷ rest) size (p, (q, (r, (s, bytes)))) =
    let word = a ∷ b ∷ c ∷ d ∷ [] in
    Ensures-reject_if (not (is_finite_f32 (from_le_bytes word))) Error.corrupt λ finite.
      Ensures-bind (decode_values_sound n rest (omega arith) bytes) λ vector ih. returns (record {
        written = rw ih.written (ap (λ bs. bs ++ rest) (word_bytes a b c d (p, (q, (r, (s, tt))))));
        many = ap suc ih.many;
        finite = ((from_le_bytes-lt word (p, (q, (r, (s, tt)))), not-eq-false finite), ih.finite);
      })

-- A row that was read: what it spells, and the rest of the input.
pub record ReadsRow (dimensions : ℕ) (input : Bytes) (row : Row) (rest : Bytes) : Type 0 where
  pub written : input ≡ encode_row row ++ rest
  pub row_valid : IsRow dimensions row
  pub bytes : All IsByte rest

pub as_corrupt-eq-ok : (r : Result (Unit {0})) {u : Unit {0}} → as_corrupt r ≡ ok u → r ≡ ok tt
as_corrupt-eq-ok (ok tt) h = refl
as_corrupt-eq-ok (err e) h = cc

pub decode_row_sound :
    (dimensions : ℕ) (input : Bytes)
    → All IsByte input
    → Ensures (λ (row, rest). ReadsRow dimensions input row rest) (decode_row dimensions input)
unfolding decode_row encode_row
decode_row_sound dimensions input bytes =
    Ensures-ok_or (take_exact 2 input) Error.corrupt λ (size, rest₁) e₁.
      Ensures-ok_or (take_exact (from_le_bytes size) rest₁) Error.corrupt λ (id, rest₂) e₂.
        Ensures-bind_eq (as_corrupt (validate_id id)) λ _ e₃.
          Ensures-ok_or (take_exact (dimensions * 4) rest₂) Error.corrupt λ (values, rest₄) e₄.
            let (p₁, q₁) = take_exact_sound 2 input e₁ in
            let (p₂, q₂) = take_exact_sound (from_le_bytes size) rest₁ e₂ in
            let (p₄, q₄) = take_exact_sound (dimensions * 4) rest₂ e₄ in
            let split : input ≡ size ++ (id ++ (values ++ rest₄)) = rw (p₁, p₂, p₄) in
            let (b₁, b₂) = append-All IsByte size _ (rw split at bytes) in
            let (b₃, b₄) = append-All IsByte values rest₄ ((append-All IsByte id _ b₂).1) in
            Ensures-bind (decode_values_sound dimensions values q₄ b₃) λ vector spelled.
              returns (record {
                written = rw (
                  split,
                  to_le_bytes_eq 2 (length id) size q₁ b₁ q₂,
                  spelled.written,
                  append_assoc size (id ++ values) rest₄,
                  append_assoc id values rest₄,
                );
                row_valid = record {
                  id_valid = as_corrupt-eq-ok _ e₃;
                  width = spelled.many;
                  finite = spelled.finite;
                };
                bytes = b₄;
              })

-- Rows that were read in turn.
pub record ReadsRows (count dimensions : ℕ) (input : Bytes) (rows : List Row) (rest : Bytes)
    : Type 0 where
  pub written : input ≡ encode_rows rows ++ rest
  pub many : length rows ≡ count
  pub all_rows : All (IsRow dimensions) rows

pub decode_rows_sound :
    (count dimensions : ℕ) (input : Bytes)
    → All IsByte input
    → Ensures
        (λ (rows, rest). ReadsRows count dimensions input rows rest)
        (decode_rows count dimensions input)
unfolding decode_rows encode_rows
decode_rows_sound zero dimensions input bytes =
    returns (record { written = refl; many = refl; all_rows = tt })
decode_rows_sound (suc count) dimensions input bytes =
    Ensures-bind (decode_row_sound dimensions input bytes) λ (row, rest) h.
      Ensures-bind (decode_rows_sound count dimensions rest h.bytes) λ (rows, rest') ih.
        returns (record {
          written = rw (h.written, ih.written, append_assoc (encode_row row));
          many = ap suc ih.many;
          all_rows = (h.row_valid, ih.all_rows);
        })
