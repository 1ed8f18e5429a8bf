-- ===== src/Index/Ranges.antt =====
-- The key range of a numeric filter in `filter_ids` of src/index.rs against the filter's own test.
use gengis_mimi.Shared.{
  ℕ, zero, suc, ◌/◌, ◌%◌, ◌≡◌, refl, Bool, true, false, not, ◌&&◌, Option, none, some, [], ◌∷◌,
  ◌++◌, append_assoc, append-nil, arith,
}
use gengis_mimi.Shared.Bytes.{Bytes, bytes_lt}
use gengis_mimi.Model.{NumericRange, within, is_none_or}
use gengis_mimi.Model.Float.{lt_f64, le_f64}
use gengis_mimi.Engine.Keys.{slash}
use gengis_mimi.Index.Keys.{to_hex, hex_digit, number_key}
use gengis_mimi.Index.Filter.{low_key, high_key, tilde}
use gengis_mimi.Index.NumberOrder.{IsNumber, place, lt_f64-place, bytes_lt-number_key}

-- Whether the part of a key behind the prefix lies in `low..high`.
abbrev pub in_scan : Bytes → Bytes → Bytes → Bool
in_scan low high key = not (bytes_lt key low) && bytes_lt key high

abbrev pub IsBound : Option ℕ → Type 0
IsBound none = Unit
IsBound (some v) = IsNumber v

digits_below : (w n : ℕ) (x : Bytes) → bytes_lt (to_hex (suc w) n ++ x) tilde ≡ true
unfolding to_hex bytes_lt
digits_below zero n x = ground arith
digits_below (suc w) n x =
    rw (append_assoc (to_hex (suc w) (n / 16)) (hex_digit (n % 16) ∷ []) x)
      (digits_below w (n / 16) (hex_digit (n % 16) ∷ x))

nothing_below : (key : Bytes) → bytes_lt key [] ≡ false
unfolding bytes_lt
nothing_below [] = refl
nothing_below (c ∷ key) = refl

le_f64_lem : (a b : ℕ) → IsNumber a → IsNumber b → le_f64 a b ≡ not (lt_f64 b a)
unfolding le_f64
le_f64_lem a b h k = rw (h.not_nan, k.not_nan) refl

module _ (m : ℕ) (rest : Bytes) (number : IsNumber m) where
  not_below :
      (g : ℕ)
      → IsNumber g
      → not (bytes_lt (number_key m ++ slash ∷ rest) (number_key g)) ≡ le_f64 g m
  unfolding bytes_lt
  not_below g h =
      let e =
        rw (append-nil (number_key g)) at (bytes_lt-number_key m g (slash ∷ rest) [] number h) in
      rw (e, le_f64_lem g m h number, lt_f64-place m g number h) (ground arith)

  below_tilde :
      (l : ℕ)
      → IsNumber l
      → bytes_lt (number_key m ++ slash ∷ rest) (number_key l ++ tilde) ≡ le_f64 m l
  unfolding bytes_lt
  below_tilde l h =
      rw
        (
          bytes_lt-number_key m l (slash ∷ rest) tilde number h,
          le_f64_lem m l number h,
          lt_f64-place m l number h,
          lt_f64-place l m h number,
        )
        (ground arith)

  from_low :
      (gte : Option ℕ)
      → IsBound gte
      → not (bytes_lt (number_key m ++ slash ∷ rest) (low_key gte))
        ≡ is_none_or gte (λ lo. le_f64 lo m)
  from_low none h = rw (nothing_below (number_key m ++ slash ∷ rest)) refl
  from_low (some g) h = not_below g h

  to_high :
      (lte : Option ℕ)
      → IsBound lte
      → bytes_lt (number_key m ++ slash ∷ rest) (high_key lte) ≡ is_none_or lte (λ hi. le_f64 m hi)
  unfolding number_key
  to_high none h = digits_below 15 (place m) (slash ∷ rest)
  to_high (some l) h = below_tilde l h

  -- For a number that is not a NaN and bounds that are none, the key range by which a range filter
  -- scans the index contains the key of a block of the number exactly if the filter's own test
  -- lets the number through.
  pub in_scan-number_key :
      (r : NumericRange)
      → IsBound r.gte
      → IsBound r.lte
      → in_scan (low_key r.gte) (high_key r.lte) (number_key m ++ slash ∷ rest) ≡ within r m
  unfolding within
  in_scan-number_key r h k = rw (from_low r.gte h, to_high r.lte k) refl
