-- ===== src/Slate/Total.antt =====
-- Sums over the entries: how an insertion and a removal change them.
use gengis_mimi.Shared.{
  ℕ, ◌+◌, ◌≡◌, refl, inl, inr, Option, none, some, List, [], ◌∷◌, arith, Bool-cases, if◌then◌else◌,
  length,
}
use gengis_mimi.Shared.Bytes.{Bytes, bytes_eq, bytes_eq_iff, bytes_lt, bytes_lt-ne, starts_with}
use gengis_mimi.Slate.Entries.{Entry, lookup, insert, remove}
use gengis_mimi.Slate.Sorted.{Above, IsSorted, lookup-Above, Above-trans}

module _ (weight : Entry → ℕ) where
  unfoldable pub total : List Entry → ℕ
  total [] = 0
  total (e ∷ es) = weight e + total es

  -- The weight of what a key holds.
  abbrev pub held : Bytes → Option Bytes → ℕ
  held k none = 0
  held k (some v) = weight (k, v)

  pub total-insert :
      (k v : Bytes) (es : List Entry)
      → IsSorted es
      → total (insert k v es) + held k (lookup k es) ≡ total es + weight (k, v)
  unfolding total insert lookup
  total-insert k v [] s = omega arith
  total-insert k v ((j, w) ∷ es) (a, s) = elim (Bool-cases (bytes_eq j k)) [
    | inl same ↦ rw (same, (bytes_eq_iff j k).0 same) (omega arith)
    | inr other ↦ elim (Bool-cases (bytes_lt k j)) [
      | inl below ↦ rw (other, below, lookup-Above k es (Above-trans k j es below a)) (omega arith)
      | inr above ↦ rw (other, above) (omega (arith, total-insert k v es s))
    ]
  ]

  remove-Above_self : (k : Bytes) (es : List Entry) → Above k es → total (remove k es) ≡ total es
  unfolding total remove
  remove-Above_self k [] a = refl
  remove-Above_self k ((j, w) ∷ es) (p, a) =
      rw (bytes_lt-ne k j p) (omega (arith, remove-Above_self k es a))

  pub total-remove :
      (k : Bytes) (es : List Entry)
      → IsSorted es
      → total (remove k es) + held k (lookup k es) ≡ total es
  unfolding total remove lookup
  total-remove k [] s = omega arith
  total-remove k ((j, w) ∷ es) (a, s) = elim (Bool-cases (bytes_eq j k)) [
    | inl same ↦
        let above = remove-Above_self k es (rw ((bytes_eq_iff j k).0 same) at a) in
        rw (same, (bytes_eq_iff j k).0 same) (omega (arith, above))
    | inr other ↦ rw other (omega (arith, total-remove k es s))
  ]

-- The weights: one for each entry under a prefix, and the bytes of its value.
abbrev pub counted : Bytes → Entry → ℕ
counted p (k, v) = if starts_with p k then 1 else 0

abbrev pub sized : Bytes → Entry → ℕ
sized p (k, v) = if starts_with p k then length v else 0
