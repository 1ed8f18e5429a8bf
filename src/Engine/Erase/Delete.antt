-- ===== src/Engine/Erase/Delete.antt =====
-- `delete_namespace` of src/engine.rs, and the resumption of deletions at a start.
use gengis_mimi.Shared.{
  ◌≡◌, ◌⊎◌, inl, inr, refl, ◌∙◌, Bool, true, false, ◌||◌, none, some, List, arith, if◌then◌else◌,
}
use gengis_mimi.Shared.Bytes.{Bytes, bytes_eq, bytes_eq→eq, bytes_eq_refl, starts_with}
use gengis_mimi.Model.{validate_id}
use gengis_mimi.Slate.{Slate}
use gengis_mimi.Slate.Action.{Ends, Ends-continue, Ends-reads, Ends-mono}
use gengis_mimi.Slate.Entries.{
  Entry, lookup, apply_op, apply_batch, lookup-insert, lookup-remove, remove,
}
use gengis_mimi.Slate.Writes.{Ends-write}
use gengis_mimi.Slate.Deletes.{Cleared, Touched}
use gengis_mimi.Engine.Keys.{namespace_key}
use gengis_mimi.Engine.Read.{check_ready}
use gengis_mimi.Engine.Erase.{deletion, deletion_batch, delete_namespace}
use gengis_mimi.Engine.Erase.Intent.{
  mark_key, is_erased, mark_erased, Erasing, erase_namespace-Ends,
}

-- The key that names the namespace, and all others of it.
unfoldable pub is_gone : Bytes → Bytes → Bool
is_gone name k = bytes_eq (namespace_key name) k || is_erased name k

intended : (name : Bytes) (es : List Entry) → List Entry
intended name es = apply_batch (deletion_batch name) es

lookup-intended :
    (name k : Bytes) (es : List Entry)
    → lookup k (intended name es) ≡ (
        if bytes_eq (mark_key name) k
        then some deletion
        else if bytes_eq (namespace_key name) k
        then none
        else lookup k es)
unfolding intended apply_batch apply_op
lookup-intended name k es = ground (
  arith,
  lookup-insert (mark_key name) k deletion (remove (namespace_key name) es),
  lookup-remove (namespace_key name) k es,
)

mark_is_erased : (name k : Bytes) → bytes_eq (mark_key name) k ≡ true → is_erased name k ≡ true
mark_is_erased name k e = rw (← bytes_eq→eq (mark_key name) k e) (mark_erased name)

name_not_erased : (name : Bytes) → is_erased name (namespace_key name) ≡ false
unfolding is_erased starts_with bytes_eq
name_not_erased name = refl

name_not_mark : (name : Bytes) → bytes_eq (mark_key name) (namespace_key name) ≡ false
unfolding bytes_eq
name_not_mark name = refl

-- The intent, and then the erasure of all keys.
Cleared-intended :
    (name : Bytes) (es fs : List Entry)
    → Cleared (is_erased name) (intended name es) fs
    → Cleared (is_gone name) es fs
unfolding is_gone
Cleared-intended name es fs h k =
    ground (arith, h k, lookup-intended name k es, mark_is_erased name k)

-- The namespace is no longer named, no other key has changed, and the mark of the deletion is there
-- unless all keys are gone.
pub record Deleting (name : Bytes) (es fs : List Entry) : Type 0 where
  pub hidden : lookup (namespace_key name) fs ≡ none
  pub others : (k : Bytes) → is_gone name k ≡ false → lookup k fs ≡ lookup k es
  pub marked : (lookup (mark_key name) fs ≡ some deletion) ⊎ Cleared (is_gone name) es fs

untouched :
    (hit : Bytes → Bool) (es fs : List Entry) (k : Bytes)
    → Touched hit es fs
    → hit k ≡ false
    → lookup k fs ≡ lookup k es
untouched hit es fs k t h = elim (t k) [ inl same ↦ same | inr (e, gone) ↦ cc ]

mark-intended :
    (name : Bytes) (es : List Entry) → lookup (mark_key name) (intended name es) ≡ some deletion
mark-intended name es =
    lookup-intended name (mark_key name) es ∙ rw (bytes_eq_refl (mark_key name)) refl

other-intended :
    (name k : Bytes) (es : List Entry)
    → is_gone name k ≡ false
    → lookup k (intended name es) ≡ lookup k es
unfolding is_gone
other-intended name k es h = ground (arith, lookup-intended name k es, mark_is_erased name k)

not_erased : (name k : Bytes) → is_gone name k ≡ false → is_erased name k ≡ false
unfolding is_gone
not_erased name k h = ground arith

Erasing-Deleting :
    (name : Bytes) (es fs : List Entry) → Erasing name (intended name es) fs → Deleting name es fs
Erasing-Deleting name es fs h = record {
  hidden =
      untouched (is_erased name) (intended name es) fs (namespace_key name) h.touched
        (name_not_erased name)
      ∙ lookup-intended name (namespace_key name) es
      ∙ rw (name_not_mark name, bytes_eq_refl (namespace_key name)) refl;
  others = λ k apart.
      untouched (is_erased name) (intended name es) fs k h.touched (not_erased name k apart)
      ∙ other-intended name k es apart;
  marked = elim h.marked [
    | inl same ↦ inl (same ∙ mark-intended name es)
    | inr gone ↦ inr (Cleared-intended name es fs gone)
  ];
}

Erasing-refl : (name : Bytes) (es : List Entry) → Erasing name es es
Erasing-refl name es = record { touched = λ k. inl refl; marked = inl refl }

module _ (s : Slate) where
  -- `delete_namespace` ends in one of two ways. It returns, and every key of the namespace is gone
  -- and every other key holds what it held. Or it fails, and the content is unchanged, or the
  -- namespace is no longer named, no key of another has changed, and the mark of the deletion is
  -- there unless every key of the namespace is gone.
  pub delete_namespace-Ends :
      (name : Bytes) (db : s.Db)
      → Ends
          (λ u db'. Cleared (is_gone name) (s.entries db) (s.entries db'))
          (λ db'. (s.entries db' ≡ s.entries db) ⊎ Deleting name (s.entries db) (s.entries db'))
          (delete_namespace s name db)
  unfolding delete_namespace intended
  delete_namespace-Ends name db =
      let es = s.entries db in
      Ends-reads (validate_id name) db _ (inl refl) λ _ valid.
        Ends-reads (check_ready s db) db _ (inl refl) λ _ ready.
          Ends-continue
            (Ends-write s db (deletion_batch name) (λ n db' e. e)
              λ db' either. elim either [
                | inl same ↦ inl same
                | inr applied ↦ inr (
                    rw applied (
                      Erasing-Deleting name es (intended name es)
                        (Erasing-refl name (intended name es))))
              ])
            λ n db' marked.
              Ends-mono (rw marked at (erase_namespace-Ends s name db'))
                (λ u db'' gone. Cleared-intended name es (s.entries db'') gone)
                (λ db'' part. inr (Erasing-Deleting name es (s.entries db'') part))
