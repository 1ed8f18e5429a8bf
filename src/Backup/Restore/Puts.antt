-- ===== src/Backup/Restore/Puts.antt =====
-- The writes of a restoration, by what their keys hold afterwards.
use gengis_mimi.Shared.{
  suc, ◌+◌, ◌≡◌, refl, sym, ap, ◌∙◌, false, inl, inr, Option, none, some, List, [], ◌∷◌, arith, All,
  length, Bool-cases, if◌then◌else◌,
}
use gengis_mimi.Shared.Bytes.{Bytes, bytes_eq, bytes_eq→eq, bytes_eq_iff, bytes_lt-ne}
use gengis_mimi.Slate.Entries.{
  Entry, Op, put, delete, lookup, insert, remove, apply_op, apply_batch, lookup-insert,
  lookup-remove,
}
use gengis_mimi.Slate.Sorted.{Above, IsSorted, lookup-Above, insert-IsSorted, apply_batch-IsSorted}
use gengis_mimi.Slate.Same.{IsSorted-unique}
use gengis_mimi.Engine.Keys.{format_key, format}
use gengis_mimi.Backup.{restoring, any_other_key}

-- The writes for some rows: all but the row of the format.
abbrev pub puts : List Entry → List Op
puts [] = []
puts ((key, value) ∷ rows) =
    let rest = puts rows in if bytes_eq key format_key then rest else put key value ∷ rest

abbrev pub NotFormat : Op → Type 0
NotFormat (put k v) = bytes_eq k format_key ≡ false
NotFormat (delete k) = bytes_eq k format_key ≡ false

pub lookup-NotFormat :
    (ops : List Op) (es : List Entry)
    → All NotFormat ops
    → lookup format_key (apply_batch ops es) ≡ lookup format_key es
unfolding apply_batch apply_op
lookup-NotFormat [] es h = refl
lookup-NotFormat (put k v ∷ ops) es (p, h) =
    lookup-NotFormat ops (insert k v es) h ∙ rw (lookup-insert k format_key v es, p)
lookup-NotFormat (delete k ∷ ops) es (p, h) =
    lookup-NotFormat ops (remove k es) h ∙ rw (lookup-remove k format_key es, p)

abbrev or_else : Option Bytes → Option Bytes → Option Bytes
or_else none held = held
or_else (some v) held = some v

none-ne-some : {X : Type 0} {v : Bytes} → none ≡ some v → X
none-ne-some h = cc

length-puts-Above : (rows : List Entry) → Above format_key rows → length (puts rows) ≡ length rows
length-puts-Above [] h = refl
length-puts-Above ((key, value) ∷ rows) (p, h) =
    rw (bytes_lt-ne format_key key p) (ap suc (length-puts-Above rows h))

-- One row of a complete content is that of the format.
pub length-puts :
    (rows : List Entry)
    → IsSorted rows
    → lookup format_key rows ≡ some format
    → length (puts rows) + 1 ≡ length rows
unfolding lookup
length-puts [] s e = none-ne-some e
length-puts ((key, value) ∷ rows) (above, s) e = elim (Bool-cases (bytes_eq key format_key)) [
  | inl same ↦
      let first = bytes_eq→eq key format_key same in
      rw same (omega (arith, length-puts-Above rows (rw first at above)))
  | inr other ↦ rw other (omega (arith, length-puts rows s (rw other at e)))
]

or_else-none : (o : Option Bytes) → or_else o none ≡ o
or_else-none none = refl
or_else-none (some v) = refl

lookup-puts :
    (rows es : List Entry) (k : Bytes)
    → IsSorted rows
    → bytes_eq format_key k ≡ false
    → lookup k (apply_batch (puts rows) es) ≡ or_else (lookup k rows) (lookup k es)
unfolding apply_batch apply_op lookup
lookup-puts [] es k s h = refl
lookup-puts ((j, v) ∷ rows) es k (a, s) h = elim (Bool-cases (bytes_eq j format_key)) [
  | inl same ↦ rw (same, bytes_eq→eq j format_key same, h) (lookup-puts rows es k s h)
  | inr other ↦ elim (Bool-cases (bytes_eq j k)) [
    | inl here ↦ rw (
      other,
      lookup-puts rows (insert j v es) k s h,
      lookup-insert j k v es,
      here,
      ← bytes_eq→eq j k here,
      lookup-Above j rows a,
    )
    | inr there ↦ rw (other, lookup-puts rows (insert j v es) k s h, lookup-insert j k v es, there)
  ]
]

-- A database that may be restored into holds the format at most.
only_format :
    (es : List Entry) (k : Bytes)
    → any_other_key es ≡ false
    → bytes_eq format_key k ≡ false
    → lookup k es ≡ none
unfolding lookup
only_format [] k h e = refl
only_format ((j, w) ∷ es) k h e = ground (
  arith,
  only_format es k,
  bytes_eq_iff j format_key,
  bytes_eq_iff j k,
  bytes_eq_iff format_key k,
)

-- All the writes together leave exactly the rows.
pub restored_rows :
    (rows es : List Entry)
    → IsSorted rows
    → IsSorted es
    → any_other_key es ≡ false
    → lookup format_key rows ≡ some format
    → insert format_key format (apply_batch (puts rows) (insert format_key restoring es)) ≡ rows
restored_rows rows es sorted h only has_format =
    let marked = insert format_key restoring es in
    let all_sorted =
      apply_batch-IsSorted (puts rows) marked (insert-IsSorted format_key restoring es h) in
    IsSorted-unique _ rows (insert-IsSorted format_key format _ all_sorted) sorted λ k.
      elim (Bool-cases (bytes_eq format_key k)) [
        | inl here ↦
            rw
              (
                lookup-insert format_key k format (apply_batch (puts rows) marked),
                here,
                ← bytes_eq→eq format_key k here,
              )
              (sym has_format)
        | inr there ↦
            rw
              (
                lookup-insert format_key k format (apply_batch (puts rows) marked),
                there,
                lookup-puts rows marked k sorted there,
                lookup-insert format_key k restoring es,
                there,
                only_format es k only there,
              )
              (or_else-none (lookup k rows))
      ]
