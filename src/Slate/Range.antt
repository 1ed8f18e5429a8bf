-- ===== src/Slate/Range.antt =====
-- What a content holds in a range of keys, and the sums over it, are known by its lookups there.
use gengis_mimi.Shared.{
  ◌≡◌, refl, sym, ◌∙◌, Bool, true, false, inl, inr, Option, none, List, [], ◌∷◌, arith, Bool-cases,
  if◌then◌else◌,
}
use gengis_mimi.Shared.Bytes.{Bytes, bytes_eq_iff, starts_with}
use gengis_mimi.Slate.Entries.{Entry, lookup, with_prefix}
use gengis_mimi.Slate.Sorted.{Above, IsSorted}
use gengis_mimi.Slate.Same.{IsSorted-unique}

with_prefix-Above : (p k : Bytes) (es : List Entry) → Above k es → Above k (with_prefix p es)
unfolding with_prefix
with_prefix-Above p k [] a = tt
with_prefix-Above p k ((j, v) ∷ es) (h, a) = elim (Bool-cases (starts_with p j)) [
  | inl e ↦ rw e (h, with_prefix-Above p k es a)
  | inr e ↦ rw e (with_prefix-Above p k es a)
]

pub with_prefix-IsSorted : (p : Bytes) (es : List Entry) → IsSorted es → IsSorted (with_prefix p es)
unfolding with_prefix
with_prefix-IsSorted p [] s = tt
with_prefix-IsSorted p ((j, v) ∷ es) (a, s) = elim (Bool-cases (starts_with p j)) [
  | inl e ↦ rw e (with_prefix-Above p j es a, with_prefix-IsSorted p es s)
  | inr e ↦ rw e (with_prefix-IsSorted p es s)
]

pub lookup-with_prefix :
    (p k : Bytes) (es : List Entry)
    → lookup k (with_prefix p es) ≡ (if starts_with p k then lookup k es else none)
unfolding with_prefix lookup
lookup-with_prefix p k [] = ground arith
lookup-with_prefix p k ((j, v) ∷ es) = ground (arith, lookup-with_prefix p k es, bytes_eq_iff j k)

if_same :
    (b : Bool) (x y : Option Bytes)
    → (b ≡ true → x ≡ y)
    → (if b then x else none) ≡ (if b then y else none)
if_same true x y h = h refl
if_same false x y h = refl

-- Sorted contents with the same lookups in a range list the same rows there.
pub with_prefix_same :
    (p : Bytes) (es fs : List Entry)
    → IsSorted es
    → IsSorted fs
    → ((k : Bytes) → starts_with p k ≡ true → lookup k es ≡ lookup k fs)
    → with_prefix p es ≡ with_prefix p fs
with_prefix_same p es fs h i same =
    IsSorted-unique (with_prefix p es) (with_prefix p fs) (with_prefix-IsSorted p es h)
      (with_prefix-IsSorted p fs i)
      λ k.
        lookup-with_prefix p k es
        ∙ if_same (starts_with p k) (lookup k es) (lookup k fs) (same k)
        ∙ sym (lookup-with_prefix p k fs)
