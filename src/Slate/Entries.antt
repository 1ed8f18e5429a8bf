-- ===== src/Slate/Entries.antt =====
-- A database's content: its entries, what a key holds, and what a batch does.
use gengis_mimi.Shared.{
  Bool, not, ◌&&◌, drop, length, ◌≡◌, refl, Option, none, some, List, [], ◌∷◌, ◌++◌, arith,
  if◌then◌else◌,
}
use gengis_mimi.Shared.Bytes.{Bytes, bytes_eq, bytes_eq_iff, bytes_lt, starts_with}

abbrev pub Entry : Type 0
Entry = Bytes × Bytes

pub data Op : Type 0 where
  put : Bytes → Bytes → Op
  delete : Bytes → Op

unfoldable pub lookup : Bytes → List Entry → Option Bytes
lookup k [] = none
lookup k ((j, v) ∷ es) = if bytes_eq j k then some v else lookup k es

-- In key order, over the entry of the same key if there is one.
unfoldable pub insert : Bytes → Bytes → List Entry → List Entry
insert k v [] = (k, v) ∷ []
insert k v ((j, w) ∷ es) =
    let later = (j, w) ∷ insert k v es in
    if bytes_eq j k then (k, v) ∷ es else if bytes_lt k j then (k, v) ∷ (j, w) ∷ es else later

unfoldable pub remove : Bytes → List Entry → List Entry
remove k [] = []
remove k ((j, w) ∷ es) = let rest = remove k es in if bytes_eq j k then rest else (j, w) ∷ rest

unfoldable pub apply_op : Op → List Entry → List Entry
apply_op (put k v) es = insert k v es
apply_op (delete k) es = remove k es

unfoldable pub apply_batch : List Op → List Entry → List Entry
apply_batch [] es = es
apply_batch (op ∷ ops) es = apply_batch ops (apply_op op es)

unfoldable pub with_prefix : Bytes → List Entry → List Entry
with_prefix p [] = []
with_prefix p ((k, v) ∷ es) =
    let rest = with_prefix p es in if starts_with p k then (k, v) ∷ rest else rest

abbrev pub in_key_range : Bytes → Bytes → Bytes → Bytes → Bool
in_key_range p low high k =
    starts_with p k && not (bytes_lt (drop (length p) k) low) && bytes_lt (drop (length p) k) high

unfoldable pub with_range : Bytes → Bytes → Bytes → List Entry → List Entry
with_range p low high [] = []
with_range p low high ((k, v) ∷ es) =
    let rest = with_range p low high es in if in_key_range p low high k then (k, v) ∷ rest else rest

-- The keys under `p` that go on above `after`.
unfoldable pub with_after : Bytes → Bytes → List Entry → List Entry
with_after p after [] = []
with_after p after ((k, v) ∷ es) =
    let rest = with_after p after es in
    if starts_with p k && bytes_lt after (drop (length p) k) then (k, v) ∷ rest else rest

pub lookup-insert :
    (k j : Bytes) (v : Bytes) (es : List Entry)
    → lookup j (insert k v es) ≡ (if bytes_eq k j then some v else lookup j es)
unfolding lookup insert
lookup-insert k j v [] = refl
lookup-insert k j v ((i, w) ∷ es) =
    ground (arith, bytes_eq_iff k j, bytes_eq_iff i k, bytes_eq_iff i j, lookup-insert k j v es)

pub lookup-remove :
    (k j : Bytes) (es : List Entry)
    → lookup j (remove k es) ≡ (if bytes_eq k j then none else lookup j es)
unfolding lookup remove
lookup-remove k j [] = ground arith
lookup-remove k j ((i, w) ∷ es) =
    ground (arith, bytes_eq_iff k j, bytes_eq_iff i k, bytes_eq_iff i j, lookup-remove k j es)

pub apply_batch-append :
    (a b : List Op) (es : List Entry) → apply_batch (a ++ b) es ≡ apply_batch b (apply_batch a es)
unfolding apply_batch
apply_batch-append [] b es = refl
apply_batch-append (op ∷ a) b es = apply_batch-append a b (apply_op op es)
