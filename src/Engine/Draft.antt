-- ===== src/Engine/Draft.antt =====
-- The body of `Engine::write` of src/engine.rs up to its one durable batch: the checks of a request
-- and the loop that builds the batch and the new statistics from a snapshot.
-- The counters are u64 and wrap, as in a release build; `usize` sums of one batch cannot.
pub mod Accounts
pub mod Rounds
pub mod Loop
use gengis_mimi.Shared.{
  ℕ, ◌+◌, Bool, not, ◌||◌, Option, none, some, List, [], ◌∷◌, ◌++◌, map, length, ltb, in_range,
  if◌then◌else◌,
}
use gengis_mimi.Shared.Bytes.{Bytes}
use gengis_mimi.Shared.Word.{to_le_bytes, add64, sub64, u64_mod}
use gengis_mimi.Error.{Error, Result, ok, err, ◌>>=◌, ◌>>◌, reject_if}
use gengis_mimi.Model.{
  NamespaceConfig, NamespaceStats, Document, WriteRequest, validate_id, validate_vector, contains,
  max_batch_operations, max_document_bytes, max_body_bytes,
}
use gengis_mimi.Binary.{encode_vector}
use gengis_mimi.Config.{LimitsConfig}
use gengis_mimi.Slate.{Slate}
use gengis_mimi.Slate.Entries.{Op, put, delete}
use gengis_mimi.Engine.Serde.{Serde}
use gengis_mimi.Engine.Read.{check_ready, namespace_at, stats_at}
use gengis_mimi.Engine.Keys.{document_key, vector_key, change_key}

-- The loop over the IDs of a request, with the set of those that it has seen.
unfoldable pub validate_batch_ids : List Bytes → List Bytes → Result (Unit {0})
validate_batch_ids seen [] = ok tt
validate_batch_ids seen (id ∷ ids) = do
  validate_id id
  reject_if (contains id seen) Error.invalid
  validate_batch_ids (id ∷ seen) ids

-- One operation: an ID, and the document that is to replace what it names, if any.
abbrev pub Item : Type 0 → Type 0
Item J = Bytes × Option (Document J)

module _ {J : Type 0} where
  abbrev pub upsert_item : Document J → Item J
  upsert_item d = (d.id, some d)

  abbrev pub delete_item : Bytes → Item J
  delete_item id = (id, none)

  abbrev pub items : WriteRequest J → List (Item J)
  items r = map upsert_item r.upsert ++ map delete_item r.delete

  abbrev pub request_ids : WriteRequest J → List Bytes
  request_ids r = map (λ (d : Document J). d.id) r.upsert ++ r.delete

  unfoldable pub validate_request : Bytes → WriteRequest J → Result (Unit {0})
  unfolding validate_batch_ids
  validate_request name r = do
    validate_id name
    reject_if (not (in_range 1 max_batch_operations (length r.upsert + length r.delete)))
        Error.invalid
    validate_batch_ids [] (request_ids r)

-- What the loop over the operations builds up.
pub record Draft : Type 0 where
  pub stats : NamespaceStats
  pub batch : List Op
  pub input_bytes : ℕ

abbrev pub size_of : Option Bytes → ℕ
size_of none = 0
size_of (some v) = length v

-- `if let Some(old) = old { … }`
unfoldable pub uncount : Option Bytes → Option Bytes → NamespaceStats → NamespaceStats
uncount none old_vector stats = stats
uncount (some old) old_vector stats = record stats {
  documents = sub64 stats.documents 1;
  bytes = sub64 stats.bytes (length old + size_of old_vector);
}

-- A key that no change marks yet is one more pending document.
unfoldable pub mark_pending : Option Bytes → NamespaceStats → NamespaceStats
mark_pending none stats = record stats { pending_documents = add64 stats.pending_documents 1 }
mark_pending (some old) stats = stats

module _ {J : Type 0} (serde : Serde J) (crc32 : Bytes → ℕ) (name : Bytes) where
  -- The vector part of an upsert.
  unfoldable pub put_vector : NamespaceConfig → Bytes → Option (List ℕ) → Draft → Result Draft
  put_vector schema id none draft =
      ok (record draft { batch = draft.batch ++ delete (vector_key name id) ∷ [] })
  put_vector schema id (some vector) draft = do
    validate_vector schema vector
    let encoded = encode_vector crc32 vector
    ok (record draft {
      stats = record (draft.stats) { bytes = add64 draft.stats.bytes (length encoded) };
      batch = draft.batch ++ put (vector_key name id) encoded ∷ [];
    })

  -- The stored form of a document has no vector.
  abbrev pub stored : Document J → Document J
  stored document = record document { vector = none }

  abbrev pub put_document : Bytes → Document J → Draft → Draft
  put_document id document draft =
      let encoded = serde.document_to_vec (stored document) in
      record draft {
        stats = record (draft.stats) {
          documents = add64 draft.stats.documents 1;
          bytes = add64 draft.stats.bytes (length encoded);
        };
        batch = draft.batch ++ put (document_key name id) encoded ∷ [];
      }

  unfoldable pub put_item : NamespaceConfig → Item J → Draft → Result Draft
  unfolding put_vector
  put_item schema (id, none) draft = ok (record draft {
    batch = draft.batch ++ delete (document_key name id) ∷ delete (vector_key name id) ∷ [];
    input_bytes = draft.input_bytes + length id;
  })
  put_item schema (id, some document) draft = do
    let size = length (serde.document_to_vec document)
    reject_if (ltb max_document_bytes size) Error.invalid
    reject_if (ltb 64 (length document.attributes)) Error.invalid
    draft ←
        put_vector schema id document.vector
          (record draft { input_bytes = draft.input_bytes + size })
    ok (put_document id document draft)

  -- The change mark carries the new revision.
  unfoldable pub mark_change : Bytes → Option Bytes → Draft → Draft
  unfolding mark_pending
  mark_change id old draft = record draft {
    stats = mark_pending old draft.stats;
    batch = draft.batch ++ put (change_key name id) (to_le_bytes 8 draft.stats.revision) ∷ [];
  }

  module _ (s : Slate) (snapshot : s.Db) (schema : NamespaceConfig) where
    -- One round of the loop, and the loop.
    unfoldable pub write_item : Item J → Draft → Result Draft
    unfolding uncount put_item mark_change
    write_item item draft = do
      old ← s.get snapshot (document_key name item.0)
      old_vector ← s.get snapshot (vector_key name item.0)
      draft ← put_item schema item (record draft { stats = uncount old old_vector draft.stats })
      old_change ← s.get snapshot (change_key name item.0)
      ok (mark_change item.0 old_change draft)

    unfoldable pub write_items : List (Item J) → Draft → Result Draft
    write_items [] draft = ok draft
    write_items (item ∷ rest) draft = do draft ← write_item item draft; write_items rest draft

-- The checks after the loop.
unfoldable pub over_quota : LimitsConfig → NamespaceStats → Bool
over_quota limits stats =
    ltb limits.max_documents stats.documents
    || ltb limits.max_namespace_bytes stats.bytes
    || ltb limits.max_pending_documents stats.pending_documents

unfoldable pub check_draft : LimitsConfig → Draft → Result (Unit {0})
unfolding over_quota
check_draft limits draft = do
  reject_if (ltb max_body_bytes draft.input_bytes) Error.invalid
  reject_if (over_quota limits draft.stats) Error.limit

-- `checked_add(1)`
unfoldable pub next_revision : NamespaceStats → Result NamespaceStats
next_revision stats =
    if ltb (stats.revision + 1) u64_mod
    then ok (record stats { revision = stats.revision + 1 })
    else err Error.limit

abbrev pub start : NamespaceStats → Draft
start stats = record { stats = stats; batch = []; input_bytes = 0 }

-- Everything that `write` does under the schema lock before it submits its batch.
module _ (s : Slate) {J : Type 0} (serde : Serde J) (crc32 : Bytes → ℕ) where
  unfoldable pub draft_at : LimitsConfig → Bytes → WriteRequest J → s.Db → Result Draft
  draft_at limits name request db = do
    check_ready s db
    namespace ← namespace_at s serde db name
    old ← stats_at s serde db name
    stats ← next_revision old
    draft ← write_items serde crc32 name s db namespace.config (items request) (start stats)
    check_draft limits draft
    ok draft
