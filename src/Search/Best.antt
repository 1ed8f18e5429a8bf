-- ===== src/Search/Best.antt =====
-- The bounded heap of src/search.rs keeps the least elements of all that it is shown.
use gengis_mimi.Shared.{
  ℕ, zero, suc, ◌≤◌, ◌<◌, ◌≡◌, refl, sym, ap, true, false, inl, inr, List, [], ◌∷◌, take, take_all,
  length, ltb, arith, Bool-cases, if◌then◌else◌,
}
use gengis_mimi.Search.Heap.{Order, peek, pop, push, is_better, retain, IsSorted}

module _ {ℓ} {A : Type ℓ} where
  -- The first `suc k` of a list that has them are the first, and the rest's first `k`.
  pop-take : (k : ℕ) (xs : List A) → suc k ≤ length xs → pop (take (suc k) xs) ≡ take k xs
  unfolding pop
  pop-take zero (x ∷ xs) h = refl
  pop-take zero [] h = refl
  pop-take (suc k) [] h = refl
  pop-take (suc k) (x ∷ []) h = absurd (omega arith)
  pop-take (suc k) (x ∷ y ∷ xs) h = ap (λ l. x ∷ l) (pop-take k (y ∷ xs) (omega arith))

  length-take_le : (k : ℕ) (xs : List A) → length (take k xs) ≤ k
  length-take_le zero xs = omega arith
  length-take_le (suc k) [] = omega arith
  length-take_le (suc k) (x ∷ xs) = omega (arith, length-take_le k xs)

  length-take_short : (k : ℕ) (xs : List A) → ltb (length (take k xs)) k ≡ true → length xs < k
  length-take_short zero xs h = absurd (ground arith)
  length-take_short (suc k) [] h = ground arith
  length-take_short (suc k) (x ∷ xs) h = ground (arith, length-take_short k xs)

  length-take_full : (k : ℕ) (xs : List A) → ltb (length (take k xs)) k ≡ false → k ≤ length xs
  length-take_full zero xs h = omega arith
  length-take_full (suc k) [] h = ground arith
  length-take_full (suc k) (x ∷ xs) h = ground (arith, length-take_full k xs)

module _ {ℓ} {A : Type ℓ} (order : Order A) where
  open order use {lt, lt_irrefl, lt_trans, lt_negative}

  length-push : (a : A) (xs : List A) → length (push order a xs) ≡ suc (length xs)
  unfolding push
  length-push a [] = refl
  length-push a (x ∷ xs) = elim (Bool-cases (lt a x)) [
    | inl below ↦ rw below refl
    | inr above ↦ rw above (ap suc (length-push a xs))
  ]

  -- The last of the first `suc k` is not below the first.
  worst_not_below :
      (k : ℕ) (a x : A) (xs : List A)
      → IsSorted order (x ∷ xs)
      → is_better order a (peek (take (suc k) (x ∷ xs))) ≡ false
      → lt a x ≡ false
  unfolding peek
  worst_not_below zero a x xs s h = h
  worst_not_below (suc k) a x [] s h = h
  worst_not_below (suc k) a x (y ∷ xs) ((p, q), s) h =
      let above = worst_not_below k a y xs s h in
      elim (Bool-cases (lt a x)) [
        | inl below ↦ cc (lt_negative a x y below p, above)
        | inr other ↦ other
      ]

  -- A full heap.
  replace_worst :
      (k : ℕ) (a x : A) (xs : List A)
      → k ≤ length xs
      → IsSorted order (x ∷ xs)
      → is_better order a (peek (take (suc k) (x ∷ xs))) ≡ true
      → push order a (take k (x ∷ xs)) ≡ take (suc k) (push order a (x ∷ xs))
  unfolding peek push
  replace_worst zero a x xs h s better = rw better refl
  replace_worst (suc k) a x [] h s better = absurd (omega arith)
  replace_worst (suc k) a x (y ∷ xs) h (p, s) better = elim (Bool-cases (lt a x)) [
    | inl below ↦ rw below refl
    | inr above ↦ rw above (ap (λ l. x ∷ l) (replace_worst k a y xs (omega arith) s better))
  ]

  keep_worst :
      (k : ℕ) (a x : A) (xs : List A)
      → k ≤ length xs
      → IsSorted order (x ∷ xs)
      → is_better order a (peek (take (suc k) (x ∷ xs))) ≡ false
      → take (suc k) (x ∷ xs) ≡ take (suc k) (push order a (x ∷ xs))
  unfolding peek push
  keep_worst zero a x xs h s worse = rw worse refl
  keep_worst (suc k) a x [] h s worse = absurd (omega arith)
  keep_worst (suc k) a x (y ∷ xs) h (p, s) worse =
      rw (worst_not_below (suc k) a x (y ∷ xs) (p, s) worse)
        (ap (λ l. x ∷ l) (keep_worst k a y xs (omega arith) s worse))

  full :
      (k : ℕ) (a : A) (xs : List A)
      → k ≤ length xs
      → IsSorted order xs
      → (if is_better order a (peek (take k xs)) then push order a (pop (take k xs)) else take k xs)
        ≡ take k (push order a xs)
  unfolding peek
  full zero a xs h s = refl
  full (suc k) a [] h s = absurd (omega arith)
  full (suc k) a (x ∷ xs) h s =
      elim (Bool-cases (is_better order a (peek (take (suc k) (x ∷ xs))))) [
        | inl better ↦
            rw (better, pop-take k (x ∷ xs) h) (replace_worst k a x xs (omega arith) s better)
        | inr worse ↦ rw worse (keep_worst k a x xs (omega arith) s worse)
      ]

  -- The heap holds the first `k` of all in order, and of one more.
  pub retain-take :
      (k : ℕ) (a : A) (xs : List A)
      → IsSorted order xs
      → retain order k a (take k xs) ≡ take k (push order a xs)
  unfolding retain
  retain-take k a xs s = elim (Bool-cases (ltb (length (take k xs)) k)) [
    | inl room ↦
        let short = length-take_short k xs room in
        rw (room, take_all k xs (omega arith))
          (sym (take_all k (push order a xs) (omega (arith, length-push a xs))))
    | inr none_left ↦ rw none_left (full k a xs (length-take_full k xs none_left) s)
  ]
