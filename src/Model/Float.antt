-- ===== src/Model/Float.antt =====
-- IEEE 754 numbers by their bits, as far as the program looks at them (std's f32 and f64).
use gengis_mimi.Shared.{
  ℕ, List, ◌+◌, ◌-◌, ◌*◌, ◌/◌, ◌%◌, ◌^◌, Bool, false, not, ◌||◌, ltb, ◌==◌, if◌then◌else◌,
}

-- The exponent is not all ones.
unfoldable pub is_finite_f32 : ℕ → Bool
is_finite_f32 v = not (v / 2 ^ 23 % 2 ^ 8 == 2 ^ 8 - 1)

-- Zero of either sign.
unfoldable pub is_zero_f32 : ℕ → Bool
is_zero_f32 v = v % 2 ^ 31 == 0

unfoldable pub is_finite_f64 : ℕ → Bool
is_finite_f64 v = not (v / 2 ^ 52 % 2 ^ 11 == 2 ^ 11 - 1)

unfoldable pub is_nan_f64 : ℕ → Bool
is_nan_f64 v = ltb (2047 * 2 ^ 52) (v % 2 ^ 63)

-- `a < b` of two numbers of which neither is a NaN: by sign and magnitude, the zeros being equal.
abbrev magnitude : ℕ → ℕ
magnitude v = v % 2 ^ 63

abbrev negative : ℕ → Bool
negative v = not (ltb v (2 ^ 63))

unfoldable pub lt_f64 : ℕ → ℕ → Bool
unfolding is_nan_f64
lt_f64 a b =
    if is_nan_f64 a || is_nan_f64 b
    then false
    else if negative a
    then (if negative b then ltb (magnitude b) (magnitude a) else ltb 0 (magnitude a + magnitude b))
    else (if negative b then false else ltb (magnitude a) (magnitude b))

unfoldable pub le_f64 : ℕ → ℕ → Bool
unfolding lt_f64 is_nan_f64
le_f64 a b = if is_nan_f64 a || is_nan_f64 b then false else not (lt_f64 b a)

-- `total_cmp`: the place of an f64 among all, the negatives below in reverse.
unfoldable pub total_key : ℕ → ℕ
total_key v = if ltb v (2 ^ 63) then v + 2 ^ 63 else 2 ^ 64 - 1 - v

-- The arithmetic of the processor and of std on f32 and f64: a parameter.
pub record Arithmetic : Type 0 where
  pub of_f32 : ℕ → ℕ
  pub to_f32 : ℕ → ℕ
  pub of_int : ℕ → ℕ
  pub add : ℕ → ℕ → ℕ
  pub sub : ℕ → ℕ → ℕ
  pub mul : ℕ → ℕ → ℕ
  pub div : ℕ → ℕ → ℕ
  pub neg : ℕ → ℕ
  -- `powi(2)`, `sqrt`, `ln`, and the sum of an iterator
  pub square : ℕ → ℕ
  pub sqrt : ℕ → ℕ
  pub ln : ℕ → ℕ
  pub sum : List ℕ → ℕ
  -- The numbers that literals spell: 0.25, 0.5, 0.75, 1.0, 1.2 and 2.2.
  pub quarter : ℕ
  pub half : ℕ
  pub three_quarters : ℕ
  pub one : ℕ
  pub one_fifth_more : ℕ
  pub two_and_a_fifth : ℕ
