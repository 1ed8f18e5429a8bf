-- ===== src/Index/NumberOrder.antt =====
-- The number keys of src/index.rs are in the order of the numbers.
use gengis_mimi.Shared.{
  ℕ, zero, suc, ◌/◌, ◌%◌, ◌^◌, ◌<◌, ◌≡◌, ◌∙◌, false, [], ◌∷◌, ◌++◌, append_assoc, arith, ltb, ◌==◌,
  if◌then◌else◌,
}
use native.Mathlib.Nat.{pow-suc}
use gengis_mimi.Shared.Bytes.{Bytes, bytes_lt}
use gengis_mimi.Model.Float.{lt_f64, is_nan_f64}
use gengis_mimi.Index.Keys.{to_hex, hex_digit, number_key, number_bits, order_bits}

-- Digits of one length are in the order of the numbers, and what follows decides between equal ones.
bytes_lt-to_hex :
    (w a b : ℕ) (x y : Bytes)
    → a < 16 ^ w
    → b < 16 ^ w
    → bytes_lt (to_hex w a ++ x) (to_hex w b ++ y) ≡ (if a == b then bytes_lt x y else ltb a b)
unfolding to_hex bytes_lt
bytes_lt-to_hex zero a b x y h k = ground arith
bytes_lt-to_hex (suc w) a b x y h k =
    let h' : a / 16 < 16 ^ w = omega (arith, rw pow-suc at h) in
    let k' : b / 16 < 16 ^ w = omega (arith, rw pow-suc at k) in
    rw
      (
        append_assoc (to_hex w (a / 16)) (hex_digit (a % 16) ∷ []) x,
        append_assoc (to_hex w (b / 16)) (hex_digit (b % 16) ∷ []) y,
      )
      (bytes_lt-to_hex w (a / 16) (b / 16) (hex_digit (a % 16) ∷ x) (hex_digit (b % 16) ∷ y) h' k'
        ∙ last_digit a b x y)
  where
    last_digit :
        (a b : ℕ) (x y : Bytes)
        → (if a / 16 == b / 16
            then bytes_lt (hex_digit (a % 16) ∷ x) (hex_digit (b % 16) ∷ y)
            else ltb (a / 16) (b / 16))
          ≡ (if a == b then bytes_lt x y else ltb a b)
    last_digit a b x y = ground arith

-- The bits of an f64 that is not a NaN.
pub record IsNumber (v : ℕ) : Type 0 where
  pub bits : v < 2 ^ 64
  pub not_nan : is_nan_f64 v ≡ false

abbrev pub place : ℕ → ℕ
place v = order_bits (number_bits v)

place-lt : (v : ℕ) → v < 2 ^ 64 → place v < 2 ^ 64
place-lt v h = ground arith

pub lt_f64-place : (a b : ℕ) → IsNumber a → IsNumber b → lt_f64 a b ≡ ltb (place a) (place b)
unfolding lt_f64
lt_f64-place a b h k =
    let p = h.bits in
    let q = k.bits in let n = h.not_nan in let m = k.not_nan in rw (n, m) (ground arith)

pub bytes_lt-number_key :
    (a b : ℕ) (x y : Bytes)
    → IsNumber a
    → IsNumber b
    → bytes_lt (number_key a ++ x) (number_key b ++ y)
      ≡ (if place a == place b then bytes_lt x y else lt_f64 a b)
unfolding number_key
bytes_lt-number_key a b x y h k =
    rw (lt_f64-place a b h k)
      (bytes_lt-to_hex 16 (place a) (place b) x y (place-lt a h.bits) (place-lt b k.bits))
