-- ===== src/Access/Tokens.antt =====
-- The comparison of tokens in constant time is equality.
use gengis_mimi.Shared.{
  ℕ, zero, suc, ◌/◌, ◌^◌, ◌<◌, ◌≡◌, ◌↔◌, refl, true, [], ◌∷◌, length, All, arith, ==_iff,
}
use gengis_mimi.Shared.Bytes.{Bytes, IsByte}
use native.Mathlib.Nat.{pow-suc}
use gengis_mimi.Access.{xor, lor, byte_or_zero, behind, differences, equal_token}

xor-zero : (w a b : ℕ) → a < 2 ^ w → b < 2 ^ w → xor w a b ≡ 0 → a ≡ b
unfolding xor
xor-zero zero a b h k e = omega arith
xor-zero (suc w) a b h k e =
    let h' = rw pow-suc at h in
    let k' = rw pow-suc at k in
    omega (arith, xor-zero w (a / 2) (b / 2) (omega arith) (omega arith) (omega arith))

xor_self : (w a : ℕ) → xor w a a ≡ 0
unfolding xor
xor_self zero a = refl
xor_self (suc w) a = omega (arith, xor_self w (a / 2))

xor-lt : (w a b : ℕ) → xor w a b < 2 ^ w
unfolding xor
xor-lt zero a b = omega arith
xor-lt (suc w) a b = rw pow-suc (omega (arith, xor-lt w (a / 2) (b / 2)))

lor-lt : (w a b : ℕ) → lor w a b < 2 ^ w
unfolding lor
lor-lt zero a b = omega arith
lor-lt (suc w) a b = rw pow-suc (omega (arith, lor-lt w (a / 2) (b / 2)))

lor-zero : (w a b : ℕ) → a < 2 ^ w → b < 2 ^ w → lor w a b ≡ 0 → (a ≡ 0) × (b ≡ 0)
unfolding lor
lor-zero zero a b h k e = (omega arith, omega arith)
lor-zero (suc w) a b h k e =
    let h' = rw pow-suc at h in
    let k' = rw pow-suc at k in
    let (p, q) = lor-zero w (a / 2) (b / 2) (omega arith) (omega arith) (omega arith) in
    (omega arith, omega arith)

lor-zeros : (w : ℕ) → lor w 0 0 ≡ 0
unfolding lor
lor-zeros zero = refl
lor-zeros (suc w) = omega (arith, lor-zeros w)

differences-zero :
    (d : ℕ) (a b : Bytes)
    → d < 2 ^ 64
    → All IsByte a
    → All IsByte b
    → length a ≡ length b
    → differences d a b ≡ 0
    → (d ≡ 0) × (a ≡ b)
unfolding differences
differences-zero d [] [] h p q s e = (e, refl)
differences-zero d [] (y ∷ b) h p q s e = absurd (omega arith)
differences-zero d (x ∷ a) [] h p q s e = absurd (omega arith)
differences-zero d (x ∷ a) (y ∷ b) h (p, ps) (q, qs) s e =
    let (zero_all, same) =
      differences-zero (lor 64 d (xor 8 x y)) a b (lor-lt 64 d (xor 8 x y)) ps qs (omega arith) e in
    let (first, second) = lor-zero 64 d (xor 8 x y) h (omega (arith, xor-lt 8 x y)) zero_all in
    let equal = xor-zero 8 x y p q second in (first, cc)

differences-start : (d : ℕ) (a b : Bytes) → d < 2 ^ 64 → differences d a b ≡ 0 → d ≡ 0
unfolding differences
differences-start d [] b h e = e
differences-start d (x ∷ a) b h e =
    let m = xor 8 x (byte_or_zero b) in
    (lor-zero 64 d m h (omega (arith, xor-lt 8 x (byte_or_zero b)))
      (differences-start (lor 64 d m) a (behind b) (lor-lt 64 d m) e)).0

differences_self : (a : Bytes) → differences 0 a a ≡ 0
unfolding differences
differences_self [] = refl
differences_self (x ∷ a) = rw (xor_self 8 x, lor-zeros 64) (differences_self a)

-- On byte strings whose lengths fit a usize, the comparison of tokens without an early exit is
-- equality.
pub equal_token_iff :
    (a b : Bytes)
    → All IsByte a
    → All IsByte b
    → length a < 2 ^ 64
    → length b < 2 ^ 64
    → (equal_token a b ≡ true) ↔ (a ≡ b)
unfolding equal_token
equal_token_iff a b p q h k = (
  λ e.
      let d = xor 64 (length a) (length b) in
      let none = (==_iff (differences d a b) 0).0 e in
      let start = differences-start d a b (xor-lt 64 (length a) (length b)) none in
      let same = xor-zero 64 (length a) (length b) h k start in
      (differences-zero d a b (xor-lt 64 (length a) (length b)) p q same none).1,
  λ e. rw (← e, xor_self 64 (length a), differences_self a),
)
