-- ===== src/Slate/Sorted.antt =====
-- Entries in strictly increasing key order, which every batch keeps.
use gengis_mimi.Shared.{◌≡◌, refl, inl, inr, true, none, List, [], ◌∷◌, All, Bool-cases}
use gengis_mimi.Shared.Bytes.{
  Bytes, bytes_eq, bytes_eq_iff, bytes_lt, bytes_lt_trans, bytes_lt_total, bytes_lt-ne,
  bytes_eq_swap,
}
use gengis_mimi.Slate.Entries.{
  Entry, Op, put, delete, lookup, insert, remove, apply_op, apply_batch,
}

-- Every key is above `k`.
abbrev pub Above : Bytes → List Entry → Type 0
Above k = All (λ (e : Entry). bytes_lt k e.0 ≡ true)

abbrev pub IsSorted : List Entry → Type 0
IsSorted [] = Unit
IsSorted ((k, v) ∷ es) = Above k es × IsSorted es

pub Above-trans : (k j : Bytes) (es : List Entry) → bytes_lt k j ≡ true → Above j es → Above k es
Above-trans k j [] h a = tt
Above-trans k j ((i, w) ∷ es) h (p, a) = (bytes_lt_trans k j i h p, Above-trans k j es h a)

pub lookup-Above : (k : Bytes) (es : List Entry) → Above k es → lookup k es ≡ none
unfolding lookup
lookup-Above k [] a = refl
lookup-Above k ((j, w) ∷ es) (p, a) = rw (bytes_lt-ne k j p) (lookup-Above k es a)

insert-Above :
    (b k v : Bytes) (es : List Entry) → bytes_lt b k ≡ true → Above b es → Above b (insert k v es)
unfolding insert
insert-Above b k v [] h a = (h, tt)
insert-Above b k v ((j, w) ∷ es) h (p, a) = elim (Bool-cases (bytes_eq j k)) [
  | inl same ↦ rw same (h, a)
  | inr other ↦ elim (Bool-cases (bytes_lt k j)) [
    | inl below ↦ rw (other, below) (h, (p, a))
    | inr above ↦ rw (other, above) (p, insert-Above b k v es h a)
  ]
]

remove-Above : (b k : Bytes) (es : List Entry) → Above b es → Above b (remove k es)
unfolding remove
remove-Above b k [] a = tt
remove-Above b k ((j, w) ∷ es) (p, a) = elim (Bool-cases (bytes_eq j k)) [
  | inl same ↦ rw same (remove-Above b k es a)
  | inr other ↦ rw other (p, remove-Above b k es a)
]

pub insert-IsSorted : (k v : Bytes) (es : List Entry) → IsSorted es → IsSorted (insert k v es)
unfolding insert
insert-IsSorted k v [] s = (tt, tt)
insert-IsSorted k v ((j, w) ∷ es) (a, s) = elim (Bool-cases (bytes_eq j k)) [
  | inl same ↦ rw same (rw ((bytes_eq_iff j k).0 same) at a, s)
  | inr other ↦ elim (Bool-cases (bytes_lt k j)) [
    | inl below ↦ rw (other, below) ((below, Above-trans k j es below a), (a, s))
    | inr above ↦
        rw (other, above)
          (
            insert-Above j k v es (bytes_lt_total k j (bytes_eq_swap j k other) above) a,
            insert-IsSorted k v es s,
          )
  ]
]

pub remove-IsSorted : (k : Bytes) (es : List Entry) → IsSorted es → IsSorted (remove k es)
unfolding remove
remove-IsSorted k [] s = tt
remove-IsSorted k ((j, w) ∷ es) (a, s) = elim (Bool-cases (bytes_eq j k)) [
  | inl same ↦ rw same (remove-IsSorted k es s)
  | inr other ↦ rw other (remove-Above j k es a, remove-IsSorted k es s)
]

pub apply_batch-IsSorted :
    (b : List Op) (es : List Entry) → IsSorted es → IsSorted (apply_batch b es)
unfolding apply_batch apply_op
apply_batch-IsSorted [] es s = s
apply_batch-IsSorted (put k v ∷ b) es s = apply_batch-IsSorted b _ (insert-IsSorted k v es s)
apply_batch-IsSorted (delete k ∷ b) es s = apply_batch-IsSorted b _ (remove-IsSorted k es s)
