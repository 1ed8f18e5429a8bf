-- ===== src/Engine/Erase/Intent.antt =====
-- A deletion in src/engine.rs either leaves its mark, by which the next start takes it up again, or
-- has erased the whole namespace.
use gengis_mimi.Shared.{◌≡◌, ◌⊎◌, inl, inr, refl, Bool, true, false, ◌||◌, List, arith}
use gengis_mimi.Shared.Bytes.{Bytes, bytes_eq_refl, starts_with}
use gengis_mimi.Slate.{Slate}
use gengis_mimi.Slate.Action.{Ends, returned, Ends-continue, Ends-weaken}
use gengis_mimi.Slate.Entries.{Entry, lookup, apply_batch}
use gengis_mimi.Slate.Writes.{Ends-write}
use gengis_mimi.Slate.Deletes.{
  Cleared, Touched, Cleared-Touched, Cleared-after, deletes, is_one_of, Cleared-deletes,
}
use gengis_mimi.Engine.Keys.{name_key}
use gengis_mimi.Engine.Erase.{item_prefixes, name_marks, erase_namespace}
use gengis_mimi.Engine.Erase.Effect.{has_one_of, clear_prefixes-Ends}

abbrev pub mark_key : Bytes → Bytes
mark_key name = name_key b'z' name

-- The keys of the namespace, apart from the one that names it.
unfoldable pub is_erased : Bytes → Bytes → Bool
is_erased name k = has_one_of (item_prefixes name) k || is_one_of (name_marks name) k

marks_erased : (name k : Bytes) → is_one_of (name_marks name) k ≡ true → is_erased name k ≡ true
unfolding is_erased
marks_erased name k e = ground arith

pub mark_erased : (name : Bytes) → is_erased name (mark_key name) ≡ true
unfolding is_erased
mark_erased name = ground (arith, bytes_eq_refl (mark_key name))

mark_apart : (name : Bytes) → has_one_of (item_prefixes name) (mark_key name) ≡ false
unfolding starts_with
mark_apart name = refl

items_erased : (name k : Bytes) → has_one_of (item_prefixes name) k ≡ true → is_erased name k ≡ true
unfolding is_erased
items_erased name k e = rw e refl

-- Part of the namespace may be gone. The mark stays as long as any key of it may be left.
pub record Erasing (name : Bytes) (es fs : List Entry) : Type 0 where
  pub touched : Touched (is_erased name) es fs
  pub marked :
      (lookup (mark_key name) fs ≡ lookup (mark_key name) es) ⊎ Cleared (is_erased name) es fs

Erasing-items :
    (name : Bytes) (es fs : List Entry)
    → Touched (has_one_of (item_prefixes name)) es fs
    → Erasing name es fs
Erasing-items name es fs t = record {
  touched =
      λ k. elim (t k) [ inl same ↦ inl same | inr (e, gone) ↦ inr (items_erased name k e, gone) ];
  marked = elim (t (mark_key name)) [
    | inl same ↦ inl same
    | inr (e, gone) ↦ cc (e, mark_apart name)
  ];
}

module _ (s : Slate) where
  pub erase_namespace-Ends :
      (name : Bytes) (db : s.Db)
      → Ends
          (λ u db'. Cleared (is_erased name) (s.entries db) (s.entries db'))
          (λ db'. Erasing name (s.entries db) (s.entries db'))
          (erase_namespace s name db)
  unfolding erase_namespace is_erased
  erase_namespace-Ends name db =
      let es = s.entries db in
      Ends-continue
        (Ends-weaken (clear_prefixes-Ends s (item_prefixes name) db)
          λ db' t. Erasing-items name es (s.entries db') t)
        λ u db' cleared.
          let all_gone : (fs : List Entry)
              → fs ≡ apply_batch (deletes (name_marks name)) (s.entries db')
              → Cleared (is_erased name) es fs =
            λ fs e. rw e (
              Cleared-after (has_one_of (item_prefixes name)) (is_one_of (name_marks name)) es
                (s.entries db') (apply_batch (deletes (name_marks name)) (s.entries db')) cleared
                (Cleared-deletes (name_marks name) (s.entries db'))) in
          Ends-continue
            (Ends-write s db' (deletes (name_marks name)) (λ n db'' e. all_gone (s.entries db'') e)
              (λ db'' either. elim either [
                | inl same ↦ rw same (
                    Erasing-items name es (s.entries db') (
                      Cleared-Touched (has_one_of (item_prefixes name)) es (s.entries db') cleared))
                | inr applied ↦ record {
                  touched =
                      Cleared-Touched (is_erased name) es (s.entries db'')
                        (all_gone (s.entries db'') applied);
                  marked = inr (all_gone (s.entries db'') applied);
                }
              ]))
            λ n db'' gone. returned gone
