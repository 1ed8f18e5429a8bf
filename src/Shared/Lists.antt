-- ===== src/Shared/Lists.antt =====
-- Lists measured and cut by native numbers, under the library's names, and list predicates.
use Prim.Native.Nat.{ℕ, zero, suc, ◌+◌, ◌-◌, ◌≤◌}
use mathlib.Core.Path.{◌≡◌, refl, ap}
use mathlib.Core.Bool.{Bool, true, false, ◌&&◌, ◌||◌}
use mathlib.Core.List.{List, [], ◌∷◌, ◌++◌}
use mathlib.Core.Option.{Option, none, some}
use native.Mathlib.Omega.{arith}
use native.Mathlib.Nat.{zero-add, add-zero}
use Prim.Native.Nat.add

module _ {ℓ} {A : Type ℓ} where
  abbrev pub length : List A → ℕ
  length [] = 0
  length (x ∷ xs) = suc (length xs)

  abbrev pub take : ℕ → List A → List A
  take zero xs = []
  take (suc n) [] = []
  take (suc n) (x ∷ xs) = x ∷ take n xs

  abbrev pub drop : ℕ → List A → List A
  drop zero xs = xs
  drop (suc n) [] = []
  drop (suc n) (x ∷ xs) = drop n xs

  -- `all` and `any` of an iterator.
  abbrev pub all : (A → Bool) → List A → Bool
  all p [] = true
  all p (x ∷ xs) = p x && all p xs

  abbrev pub any : (A → Bool) → List A → Bool
  any p [] = false
  any p (x ∷ xs) = p x || any p xs

  pub length-append : (xs ys : List A) → length (xs ++ ys) ≡ length xs + length ys
  length-append [] ys = omega arith
  length-append (x ∷ xs) ys = omega (arith, length-append xs ys)

  pub take-append : (xs ys : List A) → take (length xs) (xs ++ ys) ≡ xs
  take-append [] ys = refl
  take-append (x ∷ xs) ys = ap (λ zs. x ∷ zs) (take-append xs ys)

  pub drop-append : (xs ys : List A) → drop (length xs) (xs ++ ys) ≡ ys
  drop-append [] ys = refl
  drop-append (x ∷ xs) ys = drop-append xs ys

  pub take_all : (k : ℕ) (xs : List A) → length xs ≤ k → take k xs ≡ xs
  take_all zero [] h = refl
  take_all (suc k) [] h = refl
  take_all zero (x ∷ xs) h = absurd (omega arith)
  take_all (suc k) (x ∷ xs) h = ap (λ l. x ∷ l) (take_all k xs (omega arith))

  pub take-append-drop : (n : ℕ) (xs : List A) → take n xs ++ drop n xs ≡ xs
  take-append-drop zero xs = refl
  take-append-drop (suc n) [] = refl
  take-append-drop (suc n) (x ∷ xs) = rw (take-append-drop n xs)

  pub length-drop : (n : ℕ) (xs : List A) → length (drop n xs) ≡ length xs - n
  length-drop zero xs = omega arith
  length-drop (suc n) [] = omega arith
  length-drop (suc n) (x ∷ xs) = omega (arith, length-drop n xs)

  pub drop-drop : (n m : ℕ) (xs : List A) → drop m (drop n xs) ≡ drop (n + m) xs
  drop-drop zero m xs = rw zero-add
  drop-drop (suc n) zero [] = rw add-zero
  drop-drop (suc n) (suc m) [] = rw (add.suc n (suc m))
  drop-drop (suc n) m (x ∷ xs) = rw (add.suc n m) (drop-drop n m xs)

  -- The next `m` elements, and what follows them.
  pub take_next : (n m : ℕ) (xs : List A) → take m (drop n xs) ++ drop (n + m) xs ≡ drop n xs
  take_next n m xs = rw (← drop-drop n m xs) (take-append-drop m (drop n xs))

  pub length-take : (n : ℕ) (xs : List A) → n ≤ length xs → length (take n xs) ≡ n
  length-take zero xs h = refl
  length-take (suc n) [] h = absurd (omega arith)
  length-take (suc n) (x ∷ xs) h = ap suc (length-take n xs (omega arith))

module _ {ℓ κ} {A : Type ℓ} where
  abbrev pub All : (A → Type κ) → List A → Type κ
  All P [] = Unit
  All P (x ∷ xs) = P x × All P xs

module _ {ℓ κ} {A : Type ℓ} (P : A → Type κ) where
  pub All-append : (xs ys : List A) → All P xs → All P ys → All P (xs ++ ys)
  All-append [] ys h k = k
  All-append (x ∷ xs) ys (p, h) k = (p, All-append xs ys h k)

  pub append-All : (xs ys : List A) → All P (xs ++ ys) → All P xs × All P ys
  append-All [] ys h = (tt, h)
  append-All (x ∷ xs) ys (p, h) = let (a, b) = append-All xs ys h in ((p, a), b)

-- Exactly `n` elements off the front, or nothing: `get(..n)` of a slice, `read_exact` of a file.
module _ {ℓ} {A : Type ℓ} where
  abbrev pub cons_front : A → Option (List A × List A) → Option (List A × List A)
  cons_front x none = none
  cons_front x (some (front, back)) = some (x ∷ front, back)

  unfoldable pub take_exact : ℕ → List A → Option (List A × List A)
  take_exact zero xs = some ([], xs)
  take_exact (suc n) [] = none
  take_exact (suc n) (x ∷ xs) = cons_front x (take_exact n xs)

  pub take_exact-length : (xs ys : List A) → take_exact (length xs) (xs ++ ys) ≡ some (xs, ys)
  unfolding take_exact
  take_exact-length [] ys = refl
  take_exact-length (x ∷ xs) ys = rw (take_exact-length xs ys)

  pub take_exact-append :
      (n : ℕ) (xs ys : List A) → length xs ≡ n → take_exact n (xs ++ ys) ≡ some (xs, ys)
  take_exact-append n xs ys h = rw (← h) (take_exact-length xs ys)

  cons_front-eq-some :
      (x : A) (o : Option (List A × List A)) {front back : List A}
      → cons_front x o ≡ some (front, back)
      → (f : List A) × (o ≡ some (f, back)) × (front ≡ x ∷ f)
  cons_front-eq-some x none h = cc
  cons_front-eq-some x (some (f, b)) h = (f, cc, cc)

  pub take_exact_sound :
      (n : ℕ) (xs : List A) {front back : List A}
      → take_exact n xs ≡ some (front, back)
      → (xs ≡ front ++ back) × (length front ≡ n)
  unfolding take_exact
  take_exact_sound zero xs h = ground arith
  take_exact_sound (suc n) [] h = cc
  take_exact_sound (suc n) (x ∷ xs) h =
      let (f, e, p) = cons_front-eq-some x (take_exact n xs) h in
      let (q, r) = take_exact_sound n xs e in (rw (p, ← q), rw p (ap suc r))
