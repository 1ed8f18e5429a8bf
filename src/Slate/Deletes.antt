-- ===== src/Slate/Deletes.antt =====
-- What deletions do to a content: the keys that they hit are gone, and all others stay.
use gengis_mimi.Shared.{
  ◌≡◌, ◌⊎◌, inl, inr, refl, ap, ◌∙◌, Bool, true, false, ◌||◌, none, List, [], ◌∷◌, ◌++◌, any, arith,
  Bool-cases, if◌then◌else◌,
}
use gengis_mimi.Shared.Bytes.{Bytes, bytes_eq, bytes_eq_iff, starts_with}
use gengis_mimi.Slate.Entries.{
  Entry, Op, delete, lookup, remove, apply_op, apply_batch, with_prefix, lookup-remove,
}

-- The keys that pass the test are gone.
abbrev pub Cleared : (Bytes → Bool) → List Entry → List Entry → Type 0
Cleared hit es es' = (k : Bytes) → lookup k es' ≡ (if hit k then none else lookup k es)

-- Some of them may be gone.
abbrev pub Touched : (Bytes → Bool) → List Entry → List Entry → Type 0
Touched hit es es' =
    (k : Bytes) → (lookup k es' ≡ lookup k es) ⊎ ((hit k ≡ true) × (lookup k es' ≡ none))

pub Touched-refl : (hit : Bytes → Bool) (es : List Entry) → Touched hit es es
Touched-refl hit es k = inl refl

pub Cleared-Touched :
    (hit : Bytes → Bool) (es es' : List Entry) → Cleared hit es es' → Touched hit es es'
Cleared-Touched hit es es' h k = elim (Bool-cases (hit k)) [
  | inl e ↦ inr (e, h k ∙ rw e)
  | inr e ↦ inl (h k ∙ rw e)
]

or_right : (x y : Bool) → y ≡ true → (x || y) ≡ true
or_right x y e = ground arith

-- A clearing, and then a touch of other keys.
pub Touched-after :
    (a b : Bytes → Bool) (es fs gs : List Entry)
    → Cleared a es fs
    → Touched b fs gs
    → Touched (λ k. a k || b k) es gs
Touched-after a b es fs gs h t k = elim (t k) [
  | inl same ↦ elim (Bool-cases (a k)) [
    | inl e ↦ inr (rw e, same ∙ h k ∙ rw e)
    | inr e ↦ inl (same ∙ h k ∙ rw e)
  ]
  | inr (e, gone) ↦ inr (or_right (a k) (b k) e, gone)
]

pub Cleared-after :
    (a b : Bytes → Bool) (es fs gs : List Entry)
    → Cleared a es fs
    → Cleared b fs gs
    → Cleared (λ k. a k || b k) es gs
Cleared-after a b es fs gs h t k = t k ∙ ground (arith, h k)

pub Touched-mono :
    (a b : Bytes → Bool) (es fs : List Entry)
    → ((k : Bytes) → a k ≡ true → b k ≡ true)
    → Touched a es fs
    → Touched b es fs
Touched-mono a b es fs h t k = elim (t k) [
  | inl same ↦ inl same
  | inr (e, gone) ↦ inr (h k e, gone)
]

-- The deletions of some keys.
abbrev pub deletes : List Bytes → List Op
deletes [] = []
deletes (k ∷ ks) = delete k ∷ deletes ks

abbrev pub is_one_of : List Bytes → Bytes → Bool
is_one_of ks k = any (λ j. bytes_eq j k) ks

pub deletes-append : (ks js : List Bytes) → deletes (ks ++ js) ≡ deletes ks ++ deletes js
deletes-append [] js = refl
deletes-append (k ∷ ks) js = ap (λ l. delete k ∷ l) (deletes-append ks js)

pub Cleared-deletes :
    (ks : List Bytes) (es : List Entry) → Cleared (is_one_of ks) es (apply_batch (deletes ks) es)
unfolding apply_batch apply_op
Cleared-deletes [] es k = refl
Cleared-deletes (j ∷ ks) es k =
    Cleared-deletes ks (remove j es) k ∙ ground (arith, lookup-remove j k es)

abbrev pub keys_of : List Entry → List Bytes
keys_of [] = []
keys_of ((k, v) ∷ es) = k ∷ keys_of es

pub is_one_of-with_prefix :
    (p k : Bytes) (es : List Entry)
    → is_one_of (keys_of (with_prefix p es)) k ≡ true
    → starts_with p k ≡ true
unfolding with_prefix
is_one_of-with_prefix p k [] h = cc
is_one_of-with_prefix p k ((j, v) ∷ es) h =
    ground (arith, is_one_of-with_prefix p k es, bytes_eq_iff j k)

missing-with_prefix :
    (p k : Bytes) (es : List Entry)
    → starts_with p k ≡ true
    → is_one_of (keys_of (with_prefix p es)) k ≡ false
    → lookup k es ≡ none
unfolding with_prefix lookup
missing-with_prefix p k [] h e = refl
missing-with_prefix p k ((j, v) ∷ es) h e =
    ground (arith, missing-with_prefix p k es, bytes_eq_iff j k)

-- The deletion of all that a prefix scan lists.
pub Cleared-prefix :
    (p : Bytes) (es : List Entry)
    → Cleared (starts_with p) es (apply_batch (deletes (keys_of (with_prefix p es))) es)
Cleared-prefix p es k =
    Cleared-deletes (keys_of (with_prefix p es)) es k
    ∙ ground (arith, is_one_of-with_prefix p k es, missing-with_prefix p k es)
