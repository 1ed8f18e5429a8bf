-- ===== src/Engine/Effect.antt =====
-- What one operation of a batch does to a database's content: it leaves a document, a vector and a
-- change mark under the keys of its ID, or takes the first two away.
use gengis_mimi.Shared.{
  ℕ, ◌+◌, ◌≡◌, refl, ap, Bool, false, ◌&&◌, Option, none, some, List, [], ◌∷◌, arith, ◌==◌,
  if◌then◌else◌,
}
use gengis_mimi.Shared.Bytes.{Bytes, bytes_eq}
use gengis_mimi.Slate.Entries.{Entry, put, delete, lookup, apply_op, apply_batch}
use gengis_mimi.Slate.Sorted.{IsSorted}
use gengis_mimi.Engine.Keys.{item_key, document_key, vector_key, change_key}
use gengis_mimi.Engine.Keys.Separate.{NoSlash, bytes_eq-item_key}
use gengis_mimi.Engine.Sums.{
  has, size_of, op_of, count_in, size_in, lookup-op_of, op_of-IsSorted, count_in_self, size_in_self,
  count_in_apart, size_in_apart,
}

-- Entries of a namespace's three item keyspaces, summed.
abbrev pub documents_in : Bytes → List Entry → ℕ
documents_in = count_in b'd'

abbrev pub document_bytes_in : Bytes → List Entry → ℕ
document_bytes_in = size_in b'd'

abbrev pub vector_bytes_in : Bytes → List Entry → ℕ
vector_bytes_in = size_in b'v'

abbrev pub changes_in : Bytes → List Entry → ℕ
changes_in = count_in b'c'

pub record Effect (name id : Bytes) (document vector change : Option Bytes) (es es' : List Entry)
    : Type 0 where
  pub sorted : IsSorted es'
  pub documents :
      documents_in name es' + has (lookup (document_key name id) es)
      ≡ documents_in name es + has document
  pub document_bytes :
      document_bytes_in name es' + size_of (lookup (document_key name id) es)
      ≡ document_bytes_in name es + size_of document
  pub vector_bytes :
      vector_bytes_in name es' + size_of (lookup (vector_key name id) es)
      ≡ vector_bytes_in name es + size_of vector
  pub changes :
      changes_in name es' + has (lookup (change_key name id) es) ≡ changes_in name es + has change
  pub lookups :
      (k : Bytes)
      → lookup k es' ≡ (
          if bytes_eq (change_key name id) k
          then change
          else if bytes_eq (document_key name id) k
          then document
          else if bytes_eq (vector_key name id) k
          then vector
          else lookup k es)

-- One write of an item's key.
record Step (letter : ℕ) (name id : Bytes) (n : Option Bytes) (es es' : List Entry) : Type 0 where
  sorted : IsSorted es'
  count_self :
      count_in letter name es' + has (lookup (item_key letter name id) es)
      ≡ count_in letter name es + has n
  size_self :
      size_in letter name es' + size_of (lookup (item_key letter name id) es)
      ≡ size_in letter name es + size_of n
  count_other : (l : ℕ) → (l == letter) ≡ false → count_in l name es' ≡ count_in l name es
  size_other : (l : ℕ) → (l == letter) ≡ false → size_in l name es' ≡ size_in l name es
  lookups :
      (k : Bytes) → lookup k es' ≡ (if bytes_eq (item_key letter name id) k then n else lookup k es)
  lookup_other :
      (l : ℕ)
      → (l == letter) ≡ false
      → lookup (item_key l name id) es' ≡ lookup (item_key l name id) es

apart_letters : (a b : ℕ) (x : Bool) → (a == b) ≡ false → (a == b && x) ≡ false
apart_letters a b x h = rw h

swapped : (a b : ℕ) → (a == b) ≡ false → (b == a) ≡ false
swapped a b h = ground arith

Step-op_of :
    (letter : ℕ) (name id : Bytes) (n : Option Bytes) (es : List Entry)
    → NoSlash name
    → IsSorted es
    → Step letter name id n es (apply_op (op_of (item_key letter name id) n) es)
Step-op_of letter name id n es h s = record {
  sorted = op_of-IsSorted (item_key letter name id) n es s;
  count_self = count_in_self letter name id h n es s;
  size_self = size_in_self letter name id h n es s;
  count_other = λ l e. count_in_apart l letter name name id h h n es s (apart_letters l letter _ e);
  size_other = λ l e. size_in_apart l letter name name id h h n es s (apart_letters l letter _ e);
  lookups = λ k. lookup-op_of (item_key letter name id) k n es;
  lookup_other = λ l e. rw (
    lookup-op_of (item_key letter name id) (item_key l name id) n es,
    bytes_eq-item_key letter l name id id,
    swapped l letter e,
  );
}

module _ {name id : Bytes} {document vector change : Option Bytes}
    {es es₁ es₂ es₃ : List Entry} where
  -- An upsert writes the vector first,
  upsert-Effect :
      Step b'v' name id vector es es₁
      → Step b'd' name id document es₁ es₂
      → Step b'c' name id change es₂ es₃
      → Effect name id document vector change es es₃
  upsert-Effect v d c = record {
    sorted = c.sorted;
    documents = omega (
      arith,
      c.count_other b'd' refl,
      d.count_self,
      v.count_other b'd' refl,
      ap has (v.lookup_other b'd' refl),
    );
    document_bytes = omega (
      arith,
      c.size_other b'd' refl,
      d.size_self,
      v.size_other b'd' refl,
      ap size_of (v.lookup_other b'd' refl),
    );
    vector_bytes = omega (arith, c.size_other b'v' refl, d.size_other b'v' refl, v.size_self);
    changes = omega (
      arith,
      c.count_self,
      d.count_other b'c' refl,
      v.count_other b'c' refl,
      ap has (d.lookup_other b'c' refl),
      ap has (v.lookup_other b'c' refl),
    );
    lookups = λ k. rw (c.lookups k, d.lookups k, v.lookups k);
  }

module _ {name id : Bytes} {change : Option Bytes} {es es₁ es₂ es₃ : List Entry} where
  -- and a deletion takes the document away first.
  delete-Effect :
      Step b'd' name id none es es₁
      → Step b'v' name id none es₁ es₂
      → Step b'c' name id change es₂ es₃
      → Effect name id none none change es es₃
  delete-Effect d v c = record {
    sorted = c.sorted;
    documents = omega (arith, c.count_other b'd' refl, v.count_other b'd' refl, d.count_self);
    document_bytes = omega (arith, c.size_other b'd' refl, v.size_other b'd' refl, d.size_self);
    vector_bytes = omega (
      arith,
      c.size_other b'v' refl,
      v.size_self,
      d.size_other b'v' refl,
      ap size_of (d.lookup_other b'v' refl),
    );
    changes = omega (
      arith,
      c.count_self,
      v.count_other b'c' refl,
      d.count_other b'c' refl,
      ap has (v.lookup_other b'c' refl),
      ap has (d.lookup_other b'c' refl),
    );
    lookups = λ k. rw (c.lookups k, v.lookups k, d.lookups k) (ground arith);
  }

module _ (name id : Bytes) (h : NoSlash name) (change : Bytes) (es : List Entry)
    (s : IsSorted es) where
  -- The batch of an upsert.
  pub put_batch-Effect :
      (document : Bytes) (vector : Option Bytes)
      → Effect name id (some document) vector (some change) es (
          apply_batch
            (op_of (vector_key name id) vector
              ∷ put (document_key name id) document
              ∷ put (change_key name id) change
              ∷ [])
            es)
  unfolding apply_batch
  put_batch-Effect document vector =
      let v = Step-op_of b'v' name id vector es h s in
      let d = Step-op_of b'd' name id (some document) _ h v.sorted in
      upsert-Effect v d (Step-op_of b'c' name id (some change) _ h d.sorted)

  -- The batch of a deletion.
  pub delete_batch-Effect : Effect name id none none (some change) es (
      apply_batch
        (delete (document_key name id)
          ∷ delete (vector_key name id)
          ∷ put (change_key name id) change
          ∷ [])
        es)
  unfolding apply_batch
  delete_batch-Effect =
      let d = Step-op_of b'd' name id none es h s in
      let v = Step-op_of b'v' name id none _ h d.sorted in
      delete-Effect d v (Step-op_of b'c' name id (some change) _ h v.sorted)
