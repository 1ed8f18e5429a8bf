-- ===== src/Engine/Write.antt =====
-- `Engine::write` of src/engine.rs: one durable batch of documents, vectors, quotas and changes.
-- The schema lock makes each call one step; a snapshot is the database that the step starts from.
pub mod Request
pub mod Drafted
pub mod Frame
pub mod Laws
pub mod Accounting
pub mod Content
use gengis_mimi.Shared.{ℕ, List, [], ◌∷◌, ◌++◌, length}
use gengis_mimi.Shared.Bytes.{Bytes}
use gengis_mimi.Model.{WriteRequest, WriteResult}
use gengis_mimi.Slate.{Slate}
use gengis_mimi.Slate.Entries.{Op, put}
use gengis_mimi.Slate.Action.{Action, ◌>>=◌, ◌>>◌, pure, lift, reads}
use gengis_mimi.Engine.Serde.{Serde}
use gengis_mimi.Engine.Keys.{stats_key}
use gengis_mimi.Config.{LimitsConfig}
use gengis_mimi.Engine.Draft.{Draft, validate_request, draft_at}

module _ (s : Slate) {J : Type 0} (serde : Serde J) (crc32 : Bytes → ℕ) where
  -- The batch with the new statistics behind the changes.
  abbrev pub full_batch : Bytes → Draft → List Op
  full_batch name draft = draft.batch ++ put (stats_key name) (serde.stats_to_vec draft.stats) ∷ []

  unfoldable pub write : LimitsConfig → Bytes → WriteRequest J → Action s.Db WriteResult
  write limits name request = do
    lift (validate_request name request)
    draft ← reads (draft_at s serde crc32 limits name request)
    sequence ← λ db. s.write db (full_batch name draft)
    pure (record {
      upserted = length request.upsert;
      deleted = length request.delete;
      sequence = sequence;
      revision = draft.stats.revision;
    })
