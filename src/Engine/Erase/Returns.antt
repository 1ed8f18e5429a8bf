-- ===== src/Engine/Erase/Returns.antt =====
-- A deletion of src/engine.rs returns where the database does not fail.
use gengis_mimi.Shared.{◌≡◌, Bool, false, inl, inr, List, [], ◌∷◌, ltb, ◌==◌, Bool-cases}
use gengis_mimi.Shared.Bytes.{Bytes}
use gengis_mimi.Error.{ok}
use gengis_mimi.Model.Ids.{IsId}
use gengis_mimi.Slate.{Slate, IsHealthy}
use gengis_mimi.Slate.Action.{Ends-ok}
use gengis_mimi.Slate.Entries.{Entry, with_prefix}
use gengis_mimi.Slate.Deletes.{Cleared, deletes}
use gengis_mimi.Slate.Succeeds.{
  Succeeds, succeeds, Succeeds-eq, Succeeds-continue, Succeeds-write, Succeeds-reads,
}
use gengis_mimi.Engine.Read.{check_ready}
use gengis_mimi.Engine.Erase.{
  Batch, no_ops, drop_row, flush_full, flush_rest, clear_rows, clear_prefixes, item_prefixes,
  name_marks, erase_namespace, deletion_batch, delete_namespace,
}
use gengis_mimi.Engine.Erase.Delete.{is_gone, delete_namespace-Ends}

module _ (s : Slate) (healthy : IsHealthy s) where
  flush_full_returns : (b : Batch) (db : s.Db) → Succeeds (flush_full s b db)
  unfolding flush_full
  flush_full_returns b db = elim (Bool-cases (b.count == 1000)) [
    | inl full ↦ rw full (Succeeds-continue (Succeeds-write s healthy db b.ops) λ n db'. succeeds)
    | inr room ↦ rw room succeeds
  ]

  flush_rest_returns : (b : Batch) (db : s.Db) → Succeeds (flush_rest s b db)
  unfolding flush_rest
  flush_rest_returns b db = elim (Bool-cases (ltb 0 b.count)) [
    | inl some_left ↦
        rw some_left (Succeeds-continue (Succeeds-write s healthy db b.ops) λ n db'. succeeds)
    | inr none_left ↦ rw none_left succeeds
  ]

  clear_rows_returns :
      (keep : Bytes → Bool) (rows : List Entry) (b : Batch) (db : s.Db)
      → Succeeds (clear_rows s keep rows b db)
  unfolding clear_rows
  clear_rows_returns keep [] b db = flush_rest_returns b db
  clear_rows_returns keep ((key, value) ∷ rows) b db =
      Succeeds-continue (flush_full_returns (drop_row keep key b) db)
        λ b' db'. clear_rows_returns keep rows b' db'

  clear_prefixes_returns : (ps : List Bytes) (db : s.Db) → Succeeds (clear_prefixes s ps db)
  unfolding clear_prefixes
  clear_prefixes_returns [] db = succeeds
  clear_prefixes_returns (p ∷ ps) db = Succeeds-reads _ _ db _ (healthy.scan_prefix_ok db p) (
      Succeeds-continue (clear_rows_returns (λ key. false) (with_prefix p (s.entries db)) no_ops db)
        λ u db'. clear_prefixes_returns ps db')

  pub erase_namespace_returns : (name : Bytes) (db : s.Db) → Succeeds (erase_namespace s name db)
  unfolding erase_namespace
  erase_namespace_returns name db =
      Succeeds-continue (clear_prefixes_returns (item_prefixes name) db) λ u db'.
        Succeeds-continue (Succeeds-write s healthy db' (deletes (name_marks name)))
          λ n db''. succeeds

  delete_namespace-Succeeds :
      (name : Bytes) (db : s.Db)
      → IsId name
      → check_ready s db ≡ ok tt
      → Succeeds (delete_namespace s name db)
  unfolding delete_namespace
  delete_namespace-Succeeds name db valid ready = Succeeds-reads _ _ db _ valid (
      Succeeds-reads _ _ db _ ready (
        Succeeds-continue (Succeeds-write s healthy db (deletion_batch name))
          λ n db'. erase_namespace_returns name db'))

  -- On a database that never fails and is ready, `delete_namespace` of a valid name returns, every
  -- key of the namespace is gone and every other key holds what it held.
  pub delete_namespace_returns :
      (name : Bytes) (db : s.Db)
      → IsId name
      → check_ready s db ≡ ok tt
      → ((delete_namespace s name db).0 ≡ ok tt)
        × Cleared (is_gone name) (s.entries db) (s.entries (delete_namespace s name db).1)
  delete_namespace_returns name db valid ready =
      let (done, e) = Succeeds-eq (delete_namespace-Succeeds name db valid ready) in
      (e, Ends-ok (delete_namespace-Ends s name db) e)
