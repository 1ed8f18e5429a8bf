-- ===== src/Shared/Bytes.antt =====
-- Byte strings: equality, prefixes, and the lexicographic order of Rust's `[u8]` and `str`.
use Prim.Native.Nat.{ℕ, ◌<◌}
use mathlib.Core.Path.{◌≡◌, refl}
use mathlib.Core.Logic.{◌↔◌, inl, inr}
use mathlib.Core.Bool.{Bool, true, false, ◌&&◌, ◌||◌}
use mathlib.Core.List.{List, [], ◌∷◌, ◌++◌}
use native.Mathlib.Omega.{arith}
use gengis_mimi.Shared.Tests.{ltb, ◌==◌, &&-eq-true, ==_iff, ==_refl, Bool-cases}

abbrev pub Bytes : Type 0
Bytes = List ℕ

abbrev pub IsByte : ℕ → Type 0
IsByte b = b < 256

unfoldable pub bytes_eq : Bytes → Bytes → Bool
bytes_eq [] [] = true
bytes_eq [] (b ∷ bs) = false
bytes_eq (a ∷ as') [] = false
bytes_eq (a ∷ as') (b ∷ bs) = a == b && bytes_eq as' bs

-- `starts_with`, the prefix first.
unfoldable pub starts_with : Bytes → Bytes → Bool
starts_with [] bs = true
starts_with (a ∷ as') [] = false
starts_with (a ∷ as') (b ∷ bs) = a == b && starts_with as' bs

-- `a < b` of two byte strings.
unfoldable pub bytes_lt : Bytes → Bytes → Bool
bytes_lt [] [] = false
bytes_lt [] (b ∷ bs) = true
bytes_lt (a ∷ as') [] = false
bytes_lt (a ∷ as') (b ∷ bs) = ltb a b || a == b && bytes_lt as' bs

pub bytes_eq_refl : (a : Bytes) → bytes_eq a a ≡ true
unfolding bytes_eq
bytes_eq_refl [] = refl
bytes_eq_refl (a ∷ as') = rw (==_refl a, bytes_eq_refl as')

pub bytes_eq→eq : (a b : Bytes) → bytes_eq a b ≡ true → a ≡ b
unfolding bytes_eq
bytes_eq→eq [] [] h = refl
bytes_eq→eq [] (b ∷ bs) h = cc
bytes_eq→eq (a ∷ as') [] h = cc
bytes_eq→eq (a ∷ as') (b ∷ bs) h =
    let (p, q) = &&-eq-true (a == b) (bytes_eq as' bs) h in
    cc ((==_iff a b).0 p, bytes_eq→eq as' bs q)

pub bytes_eq_iff : (a b : Bytes) → (bytes_eq a b ≡ true) ↔ (a ≡ b)
bytes_eq_iff a b = (bytes_eq→eq a b, λ e. rw e (bytes_eq_refl b))

pub starts_with-append : (p s : Bytes) → starts_with p (p ++ s) ≡ true
unfolding starts_with
starts_with-append [] s = refl
starts_with-append (a ∷ p) s = rw (==_refl a, starts_with-append p s)

pub starts_with_sound : (p s : Bytes) → starts_with p s ≡ true → (r : Bytes) × (s ≡ p ++ r)
unfolding starts_with
starts_with_sound [] s h = (s, refl)
starts_with_sound (a ∷ p) [] h = cc
starts_with_sound (a ∷ p) (b ∷ s) h =
    let (e, q) = &&-eq-true (a == b) (starts_with p s) h in
    let (r, t) = starts_with_sound p s q in (r, cc ((==_iff a b).0 e, t))

pub bytes_lt_irrefl : (a : Bytes) → bytes_lt a a ≡ false
unfolding bytes_lt
bytes_lt_irrefl [] = refl
bytes_lt_irrefl (a ∷ as') = ground (arith, bytes_lt_irrefl as')

pub bytes_lt_trans :
    (a b c : Bytes) → bytes_lt a b ≡ true → bytes_lt b c ≡ true → bytes_lt a c ≡ true
unfolding bytes_lt
bytes_lt_trans [] [] c h k = cc
bytes_lt_trans [] (b ∷ bs) [] h k = cc
bytes_lt_trans [] (b ∷ bs) (c ∷ cs) h k = refl
bytes_lt_trans (a ∷ as') [] c h k = cc
bytes_lt_trans (a ∷ as') (b ∷ bs) [] h k = cc
bytes_lt_trans (a ∷ as') (b ∷ bs) (c ∷ cs) h k = ground (arith, bytes_lt_trans as' bs cs)

-- Two different byte strings are in order one way or the other.
pub bytes_lt_total :
    (a b : Bytes) → bytes_eq a b ≡ false → bytes_lt a b ≡ false → bytes_lt b a ≡ true
unfolding bytes_eq bytes_lt
bytes_lt_total [] [] h k = cc
bytes_lt_total [] (b ∷ bs) h k = cc
bytes_lt_total (a ∷ as') [] h k = refl
bytes_lt_total (a ∷ as') (b ∷ bs) h k = ground (arith, bytes_lt_total as' bs)

pub bytes_lt-ne : (a b : Bytes) → bytes_lt a b ≡ true → bytes_eq b a ≡ false
unfolding bytes_eq bytes_lt
bytes_lt-ne [] [] h = cc
bytes_lt-ne [] (b ∷ bs) h = refl
bytes_lt-ne (a ∷ as') [] h = cc
bytes_lt-ne (a ∷ as') (b ∷ bs) h = ground (arith, bytes_lt-ne as' bs)

pub bytes_eq_swap : (a b : Bytes) → bytes_eq a b ≡ false → bytes_eq b a ≡ false
bytes_eq_swap a b h = ground (arith, bytes_eq_iff a b, bytes_eq_iff b a)

pub bytes_lt_negative :
    (a b c : Bytes) → bytes_lt a b ≡ true → bytes_lt c b ≡ false → bytes_lt a c ≡ true
bytes_lt_negative a b c h k =
    ground (arith, bytes_eq_iff b c, bytes_lt_total b c, bytes_lt_trans a b c, bytes_lt_total c b)

pub bytes_lt_asym : (a b : Bytes) → bytes_lt a b ≡ true → bytes_lt b a ≡ false
bytes_lt_asym a b h = elim (Bool-cases (bytes_lt b a)) [
  | inl back ↦ cc (bytes_lt_trans a b a h back, bytes_lt_irrefl a)
  | inr other ↦ other
]
