-- ===== src/Engine/Sums.antt =====
-- Counts and sizes of a namespace's entries, and how a write of one item key changes them.
use gengis_mimi.Shared.{
  ℕ, ◌+◌, ◌≡◌, Bool, false, ◌&&◌, Option, none, some, List, arith, if◌then◌else◌, length, ◌==◌,
  ==_refl,
}
use gengis_mimi.Shared.Bytes.{Bytes, bytes_eq, bytes_eq_refl, starts_with}
use gengis_mimi.Slate.Entries.{
  Entry, Op, put, delete, lookup, apply_op, lookup-insert, lookup-remove,
}
use gengis_mimi.Slate.Sorted.{IsSorted, insert-IsSorted, remove-IsSorted}
use gengis_mimi.Slate.Total.{total, held, counted, sized, total-insert, total-remove}
use gengis_mimi.Engine.Keys.{item_prefix, item_key}
use gengis_mimi.Engine.Keys.Separate.{NoSlash, starts_with-item_key}

abbrev pub has : Option Bytes → ℕ
has none = 0
has (some v) = 1

abbrev pub size_of : Option Bytes → ℕ
size_of none = 0
size_of (some v) = length v

-- Leave `n` under the key `k`.
abbrev pub op_of : Bytes → Option Bytes → Op
op_of k none = delete k
op_of k (some v) = put k v

-- The entries of a namespace in a keyspace, and the bytes of their values.
unfoldable pub count_in : ℕ → Bytes → List Entry → ℕ
count_in letter name = total (counted (item_prefix letter name))

unfoldable pub size_in : ℕ → Bytes → List Entry → ℕ
size_in letter name = total (sized (item_prefix letter name))

pub lookup-op_of :
    (k j : Bytes) (n : Option Bytes) (es : List Entry)
    → lookup j (apply_op (op_of k n) es) ≡ (if bytes_eq k j then n else lookup j es)
unfolding apply_op
lookup-op_of k j none es = lookup-remove k j es
lookup-op_of k j (some v) es = lookup-insert k j v es

pub op_of-IsSorted :
    (k : Bytes) (n : Option Bytes) (es : List Entry)
    → IsSorted es
    → IsSorted (apply_op (op_of k n) es)
unfolding apply_op
op_of-IsSorted k none es s = remove-IsSorted k es s
op_of-IsSorted k (some v) es s = insert-IsSorted k v es s

total-op_of :
    (w : Entry → ℕ) (k : Bytes) (n : Option Bytes) (es : List Entry)
    → IsSorted es
    → total w (apply_op (op_of k n) es) + held w k (lookup k es) ≡ total w es + held w k n
unfolding apply_op
total-op_of w k none es s = omega (arith, total-remove w k es s)
total-op_of w k (some v) es s = total-insert w k v es s

pub held-counted :
    (p k : Bytes) (o : Option Bytes) → held (counted p) k o ≡ (if starts_with p k then has o else 0)
held-counted p k o = ground arith

pub held-sized :
    (p k : Bytes) (o : Option Bytes)
    → held (sized p) k o ≡ (if starts_with p k then size_of o else 0)
held-sized p k o = ground arith

module _ (letter other_letter : ℕ) (name other id : Bytes) (h : NoSlash name)
    (k : NoSlash other) where
  -- The key of this item lies in the range that is summed.
  abbrev pub in_range_of : Bool
  in_range_of = letter == other_letter && bytes_eq name other

  pub count_in-op_of :
      (n : Option Bytes) (es : List Entry)
      → IsSorted es
      → count_in letter name (apply_op (op_of (item_key other_letter other id) n) es)
          + (if in_range_of then has (lookup (item_key other_letter other id) es) else 0)
        ≡ count_in letter name es + (if in_range_of then has n else 0)
  unfolding count_in
  count_in-op_of n es s =
      let range = item_prefix letter name in
      let key = item_key other_letter other id in
      rw
        (
          held-counted range key (lookup key es),
          held-counted range key n,
          starts_with-item_key letter other_letter name other id h k,
        )
        at (total-op_of (counted range) key n es s)

  pub size_in-op_of :
      (n : Option Bytes) (es : List Entry)
      → IsSorted es
      → size_in letter name (apply_op (op_of (item_key other_letter other id) n) es)
          + (if in_range_of then size_of (lookup (item_key other_letter other id) es) else 0)
        ≡ size_in letter name es + (if in_range_of then size_of n else 0)
  unfolding size_in
  size_in-op_of n es s =
      let range = item_prefix letter name in
      let key = item_key other_letter other id in
      rw
        (
          held-sized range key (lookup key es),
          held-sized range key n,
          starts_with-item_key letter other_letter name other id h k,
        )
        at (total-op_of (sized range) key n es s)

-- The same keyspace and namespace: one item changes the sums by its old and its new value.
module _ (letter : ℕ) (name id : Bytes) (h : NoSlash name) (n : Option Bytes) (es : List Entry)
    (s : IsSorted es) where
  pub count_in_self :
      count_in letter name (apply_op (op_of (item_key letter name id) n) es)
        + has (lookup (item_key letter name id) es)
      ≡ count_in letter name es + has n
  count_in_self =
      rw (==_refl letter, bytes_eq_refl name) at
        (count_in-op_of letter letter name name id h h n es s)

  pub size_in_self :
      size_in letter name (apply_op (op_of (item_key letter name id) n) es)
        + size_of (lookup (item_key letter name id) es)
      ≡ size_in letter name es + size_of n
  size_in_self =
      rw (==_refl letter, bytes_eq_refl name) at
        (size_in-op_of letter letter name name id h h n es s)

-- Another keyspace, or another namespace: the sums stay.
module _ (letter other_letter : ℕ) (name other id : Bytes) (h : NoSlash name) (k : NoSlash other)
    (n : Option Bytes) (es : List Entry) (s : IsSorted es)
    (apart : (letter == other_letter && bytes_eq name other) ≡ false) where
  pub count_in_apart :
      count_in letter name (apply_op (op_of (item_key other_letter other id) n) es)
      ≡ count_in letter name es
  count_in_apart =
      omega (arith, rw apart at (count_in-op_of letter other_letter name other id h k n es s))

  pub size_in_apart :
      size_in letter name (apply_op (op_of (item_key other_letter other id) n) es)
      ≡ size_in letter name es
  size_in_apart =
      omega (arith, rw apart at (size_in-op_of letter other_letter name other id h k n es s))
