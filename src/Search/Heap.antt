-- ===== src/Search/Heap.antt =====
-- `std::collections::BinaryHeap`, and the bounded use of it by `retain` of src/search.rs.
-- A heap is the list of its elements, the least first: `peek` and `pop` take the last, and
-- `into_vec` with `sort` is the list.
use mathlib.Core.List.{Perm}
use mathlib.Core.List.Perm
use gengis_mimi.Shared.{
  ℕ, ◌≡◌, Bool, true, false, inl, inr, Option, none, some, List, [], ◌∷◌, length, ltb, All,
  Bool-cases, if◌then◌else◌,
}

-- The order of the elements, and the laws of a total one that the proofs need.
pub record Order {ℓ} (A : Type ℓ) : Type ℓ where
  pub lt : A → A → Bool
  pub lt_irrefl : (a : A) → lt a a ≡ false
  pub lt_trans : (a b c : A) → lt a b ≡ true → lt b c ≡ true → lt a c ≡ true
  pub lt_negative : (a b c : A) → lt a b ≡ true → lt c b ≡ false → lt a c ≡ true

module _ {ℓ} {A : Type ℓ} where
  unfoldable pub peek : List A → Option A
  peek [] = none
  peek (x ∷ []) = some x
  peek (x ∷ y ∷ xs) = peek (y ∷ xs)

  unfoldable pub pop : List A → List A
  pop [] = []
  pop (x ∷ []) = []
  pop (x ∷ y ∷ xs) = x ∷ pop (y ∷ xs)

module _ {ℓ} {A : Type ℓ} (order : Order A) where
  open order use {lt, lt_irrefl, lt_trans, lt_negative}

  unfoldable pub push : A → List A → List A
  push a [] = a ∷ []
  push a (x ∷ xs) = if lt a x then a ∷ x ∷ xs else x ∷ push a xs

  -- `peek().is_some_and(|worst| a < *worst)`
  abbrev pub is_better : A → Option A → Bool
  is_better a none = false
  is_better a (some worst) = lt a worst

  unfoldable pub retain : ℕ → A → List A → List A
  unfolding push peek pop
  retain k a best =
      if ltb (length best) k
      then push a best
      else (if is_better a (peek best) then push a (pop best) else best)

  -- The elements in order, of equal ones the later first.
  unfoldable pub sort : List A → List A
  unfolding push
  sort [] = []
  sort (x ∷ xs) = push x (sort xs)

  -- No element is below one before it.
  abbrev pub IsSorted : List A → Type 0
  IsSorted [] = Unit
  IsSorted (x ∷ xs) = All (λ (y : A). lt y x ≡ false) xs × IsSorted xs

  -- What is below `a`, which is not above `x`, is below `x` too.
  above-push :
      (x a : A) (xs : List A)
      → lt a x ≡ false
      → All (λ (y : A). lt y x ≡ false) xs
      → All (λ (y : A). lt y x ≡ false) (push a xs)
  unfolding push
  above-push x a [] h k = (h, tt)
  above-push x a (y ∷ xs) h (p, k) = elim (Bool-cases (lt a y)) [
    | inl below ↦ rw below (h, (p, k))
    | inr above ↦ rw above (p, above-push x a xs h k)
  ]

  asymmetric : (a x : A) → lt a x ≡ true → lt x a ≡ false
  asymmetric a x h = elim (Bool-cases (lt x a)) [
    | inl back ↦ cc (lt_trans a x a h back, lt_irrefl a)
    | inr other ↦ other
  ]

  not_below : (a x y : A) → lt a x ≡ true → lt y x ≡ false → lt y a ≡ false
  not_below a x y h k = asymmetric a y (lt_negative a x y h k)

  All-not_below :
      (a x : A) (xs : List A)
      → lt a x ≡ true
      → All (λ (y : A). lt y x ≡ false) xs
      → All (λ (y : A). lt y a ≡ false) xs
  All-not_below a x [] h k = tt
  All-not_below a x (y ∷ xs) h (p, k) = (not_below a x y h p, All-not_below a x xs h k)

  pub push-IsSorted : (a : A) (xs : List A) → IsSorted xs → IsSorted (push a xs)
  unfolding push
  push-IsSorted a [] s = (tt, tt)
  push-IsSorted a (x ∷ xs) (h, s) = elim (Bool-cases (lt a x)) [
    | inl below ↦ rw below ((asymmetric a x below, All-not_below a x xs below h), (h, s))
    | inr above ↦ rw above (above-push x a xs above h, push-IsSorted a xs s)
  ]

  pub sort-IsSorted : (xs : List A) → IsSorted (sort xs)
  unfolding sort
  sort-IsSorted [] = tt
  sort-IsSorted (x ∷ xs) = push-IsSorted x (sort xs) (sort-IsSorted xs)

  pub push-Perm : (a : A) (xs : List A) → Perm (push a xs) (a ∷ xs)
  unfolding push
  push-Perm a [] = Perm.refl (a ∷ [])
  push-Perm a (x ∷ xs) = elim (Bool-cases (lt a x)) [
    | inl below ↦ rw below (Perm.refl (a ∷ x ∷ xs))
    | inr above ↦ rw above (Perm.trans (Perm.cons x (push-Perm a xs)) (Perm.swap a x xs))
  ]

  pub sort-Perm : (xs : List A) → Perm (sort xs) xs
  unfolding sort
  sort-Perm [] = Perm.refl []
  sort-Perm (x ∷ xs) = Perm.trans (push-Perm x (sort xs)) (Perm.cons x (sort-Perm xs))
