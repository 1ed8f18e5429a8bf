-- ===== src/Backup/Restore.antt =====
-- `restore` of src/backup.rs. The schema lock, which only the steps on the database need, makes the
-- call one action. A put is a batch of one.
pub mod Puts
pub mod Whole
use gengis_mimi.Shared.{
  ℕ, zero, suc, ◌+◌, ◌*◌, Bool, true, false, Option, none, some, List, [], ◌∷◌, ◌++◌, length, leb,
  if◌then◌else◌,
}
use gengis_mimi.Shared.Bytes.{Bytes, bytes_eq}
use gengis_mimi.Error.{Error, Result, ok, err, reject_if}
use gengis_mimi.Slate.{Slate}
use gengis_mimi.Slate.Action.{Action, ◌>>=◌, ◌>>◌, pure, lift, reads}
use gengis_mimi.Slate.Entries.{Entry, Op, put}
use gengis_mimi.Engine.Keys.{format_key, format}
use gengis_mimi.Backup.{
  read_exact, read_record, verify, restoring, any_other_key, Filling, empty, add_row,
}

module _ (s : Slate) where
  -- A batch of a mebibyte is written.
  unfoldable pub flush : Filling → Action s.Db Filling
  flush r db =
      if leb (1024 * 1024) r.size
      then (do λ db. s.write db r.batch; pure (record r { batch = []; size = 0 })) db
      else (ok r, db)

  abbrev pub restore_next :
      (Filling → Bytes → Action s.Db Filling) → Option Entry → Filling → Bytes → Action s.Db Filling
  restore_next more none r file = pure r
  restore_next more (some (key, value)) r file =
      if bytes_eq key format_key
      then more r file
      else (do r ← flush (add_row key value r); more r file)

  -- The loop over the records of the file, which `verify` has read before.
  unfoldable pub restore_records : ℕ → Filling → Bytes → Action s.Db Filling
  restore_records zero r file = lift (err Error.io)
  restore_records (suc fuel) r file = do
    (row, file) ← lift (read_record file)
    restore_next (restore_records fuel) row r file

  unfoldable pub restore : (Bytes → Bytes) → Bytes → Action s.Db ℕ
  restore sha256 file = do
    lift (verify sha256 file)
    existing ← reads s.scan
    lift (reject_if (any_other_key existing) Error.conflict)
    λ db. s.write db (put format_key restoring ∷ [])
    (start, file) ← lift (read_exact 8 file)
    r ← restore_records (length file) empty file
    λ db. s.write db (r.batch ++ put format_key format ∷ [])
    pure r.count
