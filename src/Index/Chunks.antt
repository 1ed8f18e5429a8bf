-- ===== src/Index/Chunks.antt =====
-- `chunks` of a slice.
use gengis_mimi.Shared.{
  ℕ, ◌≤◌, ◌≡◌, refl, sym, ap, ◌∙◌, inl, inr, List, [], ◌∷◌, ◌++◌, append_assoc, append-nil, length,
  length-append, arith, ◌==◌, Bool-cases, if◌then◌else◌, All,
}

module _ {ℓ} {A : Type ℓ} where
  abbrev pub last_chunk : List A → List (List A)
  last_chunk [] = []
  last_chunk (x ∷ xs) = (x ∷ xs) ∷ []

  -- With the chunk that is being filled.
  unfoldable pub chunks_from : ℕ → List A → List A → List (List A)
  chunks_from per chunk [] = last_chunk chunk
  chunks_from per chunk (x ∷ xs) =
      let rest = chunks_from per (if length chunk == per then x ∷ [] else chunk ++ x ∷ []) xs in
      if length chunk == per then chunk ∷ rest else rest

  unfoldable pub chunks : ℕ → List A → List (List A)
  unfolding chunks_from
  chunks per xs = chunks_from per [] xs

  abbrev pub concat : List (List A) → List A
  concat [] = []
  concat (xs ∷ rest) = xs ++ concat rest

  concat-last_chunk : (xs : List A) → concat (last_chunk xs) ≡ xs
  concat-last_chunk [] = refl
  concat-last_chunk (x ∷ xs) = append-nil (x ∷ xs)

  concat-chunks_from :
      (per : ℕ) (chunk xs : List A) → concat (chunks_from per chunk xs) ≡ chunk ++ xs
  unfolding chunks_from
  concat-chunks_from per chunk [] = concat-last_chunk chunk ∙ sym (append-nil chunk)
  concat-chunks_from per chunk (x ∷ xs) = elim (Bool-cases (length chunk == per)) [
    | inl done ↦ rw done (ap (λ l. chunk ++ l) (concat-chunks_from per (x ∷ []) xs))
    | inr room ↦
        rw room (concat-chunks_from per (chunk ++ x ∷ []) xs ∙ append_assoc chunk (x ∷ []) xs)
  ]

  -- The chunks in a row are the list.
  pub concat-chunks : (per : ℕ) (xs : List A) → concat (chunks per xs) ≡ xs
  unfolding chunks
  concat-chunks per xs = concat-chunks_from per [] xs

  chunks_from-All :
      (per : ℕ) (chunk xs : List A)
      → 1 ≤ per
      → length chunk ≤ per
      → All (λ (c : List A). (1 ≤ length c) × (length c ≤ per)) (chunks_from per chunk xs)
  unfolding chunks_from
  chunks_from-All per [] [] h k = tt
  chunks_from-All per (y ∷ chunk) [] h k = ((omega arith, k), tt)
  chunks_from-All per chunk (x ∷ xs) h k = elim (Bool-cases (length chunk == per)) [
    | inl done ↦
        let size : length chunk ≡ per = ground arith in
        rw done ((omega arith, k), chunks_from-All per (x ∷ []) xs h h)
    | inr room ↦
        rw room (
          chunks_from-All per (chunk ++ x ∷ []) xs h (ground (arith, length-append chunk (x ∷ []))))
  ]

  -- No chunk is empty or too long.
  pub chunks-All :
      (per : ℕ) (xs : List A)
      → 1 ≤ per
      → All (λ (c : List A). (1 ≤ length c) × (length c ≤ per)) (chunks per xs)
  unfolding chunks
  chunks-All per xs h = chunks_from-All per [] xs h (omega arith)
