-- ===== src/Engine/Build.antt =====
-- The index job of src/engine.rs: `build_index_inner`, `rebuild_index`, `cleanup_inner` and
-- `resume_index_cleanup`, under the index lock. No write of another task comes between: each chunk
-- of `cleanup_inner` reads the database as it is then, as one step under the schema lock.
-- The name of the new generation, a random UUID, is an argument.
pub mod Input
pub mod Frame
pub mod Stored
pub mod Cleanup
pub mod Accounts
pub mod Published
pub mod Install
use gengis_mimi.Shared.{
  ℕ, ◌+◌, ◌*◌, Bool, true, false, Option, none, some, List, [], ◌∷◌, ◌++◌, length, ltb, leb,
  if◌then◌else◌,
}
use gengis_mimi.Shared.Bytes.{Bytes, starts_with}
use gengis_mimi.Error.{Result, ok}
use gengis_mimi.Model.{NamespaceConfig, validate_id}
use gengis_mimi.Config.{IndexConfig}
use gengis_mimi.Slate.{Slate}
use gengis_mimi.Slate.Action.{Action, ◌>>=◌, ◌>>◌, pure, lift, reads}
use gengis_mimi.Slate.Entries.{Entry, Op, put, delete}
use gengis_mimi.Engine.Serde.{Serde}
use gengis_mimi.Engine.Keys.{name_key, item_prefix, document_prefix, stats_key}
use gengis_mimi.Engine.Read.{check_ready, namespace_at, stats_at}
use gengis_mimi.Engine.Erase.{no_ops, clear_rows}
use gengis_mimi.Index.{IndexStatus}
use gengis_mimi.Index.Keys.{root}
use gengis_mimi.Index.Chunks.{chunks}
use gengis_mimi.Index.Build.{Tools}
use gengis_mimi.Index.Build.Documents.{build}
use gengis_mimi.Search.Pending.{index_at}
use Input.{build_input, indexed_keys, Retired, retire_keys}

-- b"cleanup"
abbrev pub cleanup : Bytes
cleanup = b'c' ∷ b'l' ∷ b'e' ∷ b'a' ∷ b'n' ∷ b'u' ∷ b'p' ∷ []

-- `IndexStatus::default()`
abbrev pub default_status : IndexStatus
default_status = record {
  generation = [];
  revision = 0;
  documents = 0;
  vectors = 0;
  centroids = [];
  cluster_blocks = [];
  text = [];
}

abbrev pub unwrap_status : Option IndexStatus → IndexStatus
unwrap_status none = default_status
unwrap_status (some status) = status

-- A batch of entries that is being filled, and their bytes.
pub record EntryBatch : Type 0 where
  pub ops : List Op
  pub bytes : ℕ

abbrev pub no_entries : EntryBatch
no_entries = record { ops = []; bytes = 0 }

abbrev pub add_entry : Bytes → Bytes → EntryBatch → EntryBatch
add_entry key value b = record {
  ops = b.ops ++ put key value ∷ [];
  bytes = b.bytes + (length key + length value);
}

module _ (s : Slate) where
  unfoldable pub store_full : EntryBatch → Action s.Db EntryBatch
  store_full b db =
      if leb (1024 * 1024) b.bytes
      then (do λ db. s.write db b.ops; pure no_entries) db
      else (ok b, db)

  unfoldable pub store_rest : EntryBatch → Action s.Db (Unit {0})
  store_rest b db = if ltb 0 b.bytes then (do λ db. s.write db b.ops; pure tt) db else (ok tt, db)

  -- The loop over the entries, and the last batch behind it.
  unfoldable pub write_entries : List Entry → EntryBatch → Action s.Db (Unit {0})
  write_entries [] b = store_rest b
  write_entries ((key, value) ∷ entries) b = do
    b ← store_full (add_entry key value b)
    write_entries entries b

module _ (s : Slate) {J : Type 0} (serde : Serde J) (name : Bytes) where
  -- One chunk, under the schema lock.
  unfoldable pub retire_chunk : ℕ → List Bytes → Action s.Db (Unit {0})
  retire_chunk watermark keys = do
    stats ← reads (λ db. stats_at s serde db name)
    r ← reads (λ db. retire_keys s db watermark keys (record { ops = []; stats = stats }))
    λ db. s.write db (r.ops ++ put (stats_key name) (serde.stats_to_vec r.stats) ∷ [])
    pure tt

  unfoldable pub retire_chunks : ℕ → List (List Bytes) → Action s.Db (Unit {0})
  retire_chunks watermark [] = pure tt
  retire_chunks watermark (keys ∷ rest) = do
    retire_chunk watermark keys
    retire_chunks watermark rest

  unfoldable pub cleanup_inner : IndexStatus → Action s.Db (Unit {0})
  cleanup_inner active = do
    reads (check_ready s)
    snapshot ← reads ok
    rows ← lift (s.scan_prefix snapshot (item_prefix b'g' name))
    clear_rows s (starts_with (root name active.generation)) rows no_ops
    changes ← lift (s.scan_prefix snapshot (item_prefix b'c' name))
    keys ← lift (indexed_keys active.revision changes [])
    retire_chunks active.revision (chunks 1000 keys)

  abbrev pub cleanup_marked :
      (s.Db → Result (Option IndexStatus)) → Option Bytes → Action s.Db (Unit {0})
  cleanup_marked status none = pure tt
  cleanup_marked status (some mark) = do
    reads (check_ready s)
    active ← reads status
    cleanup_inner (unwrap_status active)
    λ db. s.write db (delete (name_key b'j' name) ∷ [])
    pure tt

module _ (s : Slate) {J : Type 0} (serde : Serde J) (tools : Tools J) (config : IndexConfig)
    (name : Bytes) where
  unfoldable pub resume_index_cleanup : Action s.Db (Unit {0})
  resume_index_cleanup = do
    mark ← reads (λ db. s.get db (name_key b'j' name))
    cleanup_marked s serde name (λ db. index_at s tools.serde db name) mark

  -- Behind the build: the mark of a cleanup, the entries, the pointer, the cleanup.
  unfoldable pub install : IndexStatus × List Entry → Action s.Db IndexStatus
  install (status, entries) = do
    λ db. s.write db (put (name_key b'j' name) cleanup ∷ [])
    write_entries s entries no_entries
    λ db. s.write db (put (name_key b'i' name) (tools.serde.status_to_vec status) ∷ [])
    cleanup_inner s serde name status
    λ db. s.write db (delete (name_key b'j' name) ∷ [])
    pure status

  unfoldable pub build_index_inner : Bytes → Action s.Db IndexStatus
  build_index_inner generation = do
    built ← reads (build_input s serde tools config name generation)
    install built

  unfoldable pub rebuild_index : Bytes → Action s.Db IndexStatus
  rebuild_index generation = do lift (validate_id name); build_index_inner generation
