-- ===== src/Slate/Same.antt =====
-- A content is the only sorted list with its lookups.
use gengis_mimi.Shared.{◌≡◌, refl, sym, ◌∙◌, inl, inr, none, some, List, [], ◌∷◌, Bool-cases}
use gengis_mimi.Shared.Bytes.{Bytes, bytes_eq, bytes_eq_refl, bytes_lt, bytes_lt_total, bytes_eq→eq}
use gengis_mimi.Slate.Entries.{Entry, lookup}
use gengis_mimi.Slate.Sorted.{Above, IsSorted, Above-trans, lookup-Above}

some-ne-none : {X : Type 0} {v : Bytes} → some v ≡ none → X
some-ne-none h = cc

-- A first entry is missing in what lies above it.
missing :
    {X : Type 0} (k v : Bytes) (es fs : List Entry)
    → Above k fs
    → lookup k ((k, v) ∷ es) ≡ lookup k fs
    → X
unfolding lookup
missing k v es fs above h = some-ne-none (rw (bytes_eq_refl k, lookup-Above k fs above) at h)

-- The rest of two contents that begin with one key.
lookup-rest :
    (k v w : Bytes) (es fs : List Entry)
    → Above k es
    → Above k fs
    → ((i : Bytes) → lookup i ((k, v) ∷ es) ≡ lookup i ((k, w) ∷ fs))
    → (i : Bytes) → lookup i es ≡ lookup i fs
unfolding lookup
lookup-rest k v w es fs a b same i = elim (Bool-cases (bytes_eq k i)) [
  | inl e ↦ rw (← bytes_eq→eq k i e) (lookup-Above k es a ∙ sym (lookup-Above k fs b))
  | inr e ↦ rw e at (same i)
]

some-injective : {x y : Bytes} → some x ≡ some y → x ≡ y
some-injective h = cc

first_value :
    (k v w : Bytes) (es fs : List Entry) → lookup k ((k, v) ∷ es) ≡ lookup k ((k, w) ∷ fs) → v ≡ w
unfolding lookup
first_value k v w es fs h = some-injective (rw (bytes_eq_refl k) at h)

pub IsSorted-unique :
    (es fs : List Entry)
    → IsSorted es
    → IsSorted fs
    → ((k : Bytes) → lookup k es ≡ lookup k fs)
    → es ≡ fs
IsSorted-unique [] [] h k same = refl
IsSorted-unique [] ((k, v) ∷ fs) h i same = missing k v fs [] tt (sym (same k))
IsSorted-unique ((k, v) ∷ es) [] h i same = missing k v es [] tt (same k)
IsSorted-unique ((k, v) ∷ es) ((j, w) ∷ fs) (a, h) (b, i) same = elim (Bool-cases (bytes_eq k j)) [
  | inl e ↦
      let p = sym (bytes_eq→eq k j e) in
      let b' = rw p at b in
      let same' = rw p at same in
      rw (
        p,
        first_value k v w es fs (same' k),
        IsSorted-unique es fs h i (lookup-rest k v w es fs a b' same'),
      )
  | inr e ↦ elim (Bool-cases (bytes_lt k j)) [
    | inl below ↦ missing k v es ((j, w) ∷ fs) (below, Above-trans k j fs below b) (same k)
    | inr above ↦
        let below = bytes_lt_total k j e above in
        missing j w fs ((k, v) ∷ es) (below, Above-trans j k es below a) (sym (same j))
  ]
]
