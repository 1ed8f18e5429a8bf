-- ===== src/Engine/Erase.antt =====
-- The erasure of a namespace in src/engine.rs: `delete_namespace`, `erase_namespace`, the loop of
-- `open_inner` that resumes it, and the batches of a thousand deletions that `cleanup_inner` shares.
pub mod Rows
pub mod Effect
pub mod Intent
pub mod Delete
pub mod Resume
pub mod Returns
use gengis_mimi.Shared.{
  ℕ, ◌+◌, Bool, false, true, Option, none, some, List, [], ◌∷◌, ◌++◌, drop, ltb, ◌==◌,
  if◌then◌else◌,
}
use gengis_mimi.Shared.Bytes.{Bytes}
use gengis_mimi.Error.{ok}
use gengis_mimi.Model.{validate_id}
use gengis_mimi.Slate.{Slate}
use gengis_mimi.Slate.Action.{Action, ◌>>=◌, ◌>>◌, pure, lift, reads}
use gengis_mimi.Slate.Entries.{Entry, Op, put, delete}
use gengis_mimi.Slate.Deletes.{deletes}
use gengis_mimi.Engine.Keys.{name_key, item_prefix, namespace_key}
use gengis_mimi.Engine.Read.{check_ready}

-- A batch of deletions that is being filled, and their number.
pub record Batch : Type 0 where
  pub ops : List Op
  pub count : ℕ

abbrev pub no_ops : Batch
no_ops = record { ops = []; count = 0 }

abbrev pub delete_key : Bytes → Batch → Batch
delete_key key b = record { ops = b.ops ++ delete key ∷ []; count = b.count + 1 }

-- The key of a row that is not to be kept joins the batch.
abbrev pub drop_row : (Bytes → Bool) → Bytes → Batch → Batch
drop_row keep key b = if keep key then b else delete_key key b

-- Documents, vectors, changes and index blocks.
abbrev pub item_prefixes : Bytes → List Bytes
item_prefixes name =
    item_prefix b'd' name
    ∷ item_prefix b'v' name
    ∷ item_prefix b'c' name
    ∷ item_prefix b'g' name
    ∷ []

-- The index pointer, the statistics and the marks of deletion and cleanup.
abbrev pub name_marks : Bytes → List Bytes
name_marks name =
    name_key b'i' name ∷ name_key b's' name ∷ name_key b'z' name ∷ name_key b'j' name ∷ []

-- b"delete"
abbrev pub deletion : Bytes
deletion = b'd' ∷ b'e' ∷ b'l' ∷ b'e' ∷ b't' ∷ b'e' ∷ []

abbrev pub deletion_batch : Bytes → List Op
deletion_batch name = delete (namespace_key name) ∷ put (name_key b'z' name) deletion ∷ []

module _ (s : Slate) where
  unfoldable pub flush_full : Batch → Action s.Db Batch
  flush_full b db =
      if b.count == 1000 then (do λ db. s.write db b.ops; pure no_ops) db else (ok b, db)

  unfoldable pub flush_rest : Batch → Action s.Db (Unit {0})
  flush_rest b db = if ltb 0 b.count then (do λ db. s.write db b.ops; pure tt) db else (ok tt, db)

  -- The loop over the rows of a scan, and the last batch behind it.
  unfoldable pub clear_rows : (Bytes → Bool) → List Entry → Batch → Action s.Db (Unit {0})
  clear_rows keep [] b = flush_rest b
  clear_rows keep ((key, value) ∷ rows) b = do
    b ← flush_full (drop_row keep key b)
    clear_rows keep rows b

  unfoldable pub clear_prefixes : List Bytes → Action s.Db (Unit {0})
  clear_prefixes [] = pure tt
  clear_prefixes (prefix ∷ rest) = do
    rows ← reads (λ db. s.scan_prefix db prefix)
    clear_rows (λ key. false) rows no_ops
    clear_prefixes rest

  unfoldable pub erase_namespace : Bytes → Action s.Db (Unit {0})
  erase_namespace name = do
    clear_prefixes (item_prefixes name)
    λ db. s.write db (deletes (name_marks name))
    pure tt

  unfoldable pub delete_namespace : Bytes → Action s.Db (Unit {0})
  delete_namespace name = do
    lift (validate_id name)
    reads (check_ready s)
    λ db. s.write db (deletion_batch name)
    erase_namespace name

  -- The loop of `open_inner` over the marks that a scan lists. A key there is of bytes that an ID
  -- may have, so `from_utf8` takes it.
  unfoldable pub erase_marked : List Entry → Action s.Db (Unit {0})
  erase_marked [] = pure tt
  erase_marked ((key, value) ∷ rows) = do erase_namespace (drop 2 key); erase_marked rows

  unfoldable pub resume_deletes : Action s.Db (Unit {0})
  resume_deletes = do rows ← reads (λ db. s.scan_prefix db (name_key b'z' [])); erase_marked rows
