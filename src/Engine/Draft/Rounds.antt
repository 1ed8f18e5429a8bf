-- ===== src/Engine/Draft/Rounds.antt =====
-- The loop of `Engine::write`, round by round: what it appends to the batch, and the statistics.
use gengis_mimi.Shared.{
  ℕ, ◌+◌, ◌≡◌, refl, Option, none, some, List, [], ◌∷◌, ◌++◌, arith, length, append_assoc, ltb,
}
use gengis_mimi.Shared.Bytes.{Bytes}
use gengis_mimi.Shared.Word.{to_le_bytes}
use gengis_mimi.Error.{Error}
use gengis_mimi.Error.Ensures.{Ensures, returns, Ensures-bind, Ensures-bind_eq, Ensures-reject_if}
use gengis_mimi.Model.{NamespaceStats, NamespaceConfig, validate_vector, max_document_bytes}
use gengis_mimi.Binary.{encode_vector}
use gengis_mimi.Slate.{Slate}
use gengis_mimi.Slate.Entries.{Entry, Op, put, delete, lookup, apply_batch, apply_batch-append}
use gengis_mimi.Slate.Sorted.{IsSorted}
use gengis_mimi.Engine.Serde.{Serde}
use gengis_mimi.Engine.Keys.{document_key, vector_key, change_key}
use gengis_mimi.Engine.Keys.Separate.{NoSlash}
use gengis_mimi.Engine.Sums.{op_of}
use gengis_mimi.Engine.Effect.{Effect, put_batch-Effect, delete_batch-Effect}
use gengis_mimi.Engine.Draft.{
  Draft, Item, uncount, mark_pending, put_vector, put_item, mark_change, write_item, stored,
}
use gengis_mimi.Engine.Draft.Accounts.{count_item, count_vector, after_round}

-- The content that a draft stands for.
abbrev pub drafted : List Entry → Draft → List Entry
drafted es draft = apply_batch draft.batch es

revision_kept :
    (document vector od ov : Option Bytes) (a : NamespaceStats)
    → (count_item document vector (uncount od ov a)).revision ≡ a.revision
unfolding count_item uncount
revision_kept document vector od ov a = ground arith

pub revision-after_round :
    (od ov oc document vector : Option Bytes) (a : NamespaceStats)
    → (after_round od ov oc document vector a).revision ≡ a.revision
unfolding count_item uncount mark_pending
revision-after_round od ov oc document vector a = ground arith

module _ {J : Type 0} (serde : Serde J) (crc32 : Bytes → ℕ) (name : Bytes) where
  -- What an operation leaves under the keys of its ID.
  abbrev pub item_document : Item J → Option Bytes
  item_document (id, none) = none
  item_document (id, some document) =
      some (serde.document_to_vec (stored serde crc32 name document))

  abbrev pub encoded : Option (List ℕ) → Option Bytes
  encoded none = none
  encoded (some vector) = some (encode_vector crc32 vector)

  abbrev pub item_vector : Item J → Option Bytes
  item_vector (id, none) = none
  item_vector (id, some document) = encoded document.vector

  abbrev pub item_ops : Item J → List Op
  item_ops (id, none) = delete (document_key name id) ∷ delete (vector_key name id) ∷ []
  item_ops (id, some document) =
      op_of (vector_key name id) (encoded document.vector)
      ∷ put (document_key name id) (serde.document_to_vec (stored serde crc32 name document))
      ∷ []

  -- After the middle of a round.
  record Put (item : Item J) (before after : Draft) : Type 0 where
    stats : after.stats ≡ count_item (item_document item) (item_vector item) before.stats
    batch : after.batch ≡ before.batch ++ item_ops item

  put_vector-Ensures :
      (schema : NamespaceConfig) (id : Bytes) (v : Option (List ℕ)) (draft : Draft)
      → Ensures
          (λ after.
            (after.stats ≡ count_vector (encoded v) draft.stats)
            × (after.batch ≡ draft.batch ++ op_of (vector_key name id) (encoded v) ∷ []))
          (put_vector serde crc32 name schema id v draft)
  unfolding put_vector count_vector
  put_vector-Ensures schema id none draft = returns (refl, refl)
  put_vector-Ensures schema id (some vector) draft =
      Ensures-bind_eq (validate_vector schema vector) λ _ _. returns (refl, refl)

  put_item-Ensures :
      (schema : NamespaceConfig) (item : Item J) (draft : Draft)
      → Ensures (Put item draft) (put_item serde crc32 name schema item draft)
  unfolding put_item count_item
  put_item-Ensures schema (id, none) draft = returns (record { stats = refl; batch = refl })
  put_item-Ensures schema (id, some document) draft =
      let size = length (serde.document_to_vec document) in
      Ensures-reject_if (ltb max_document_bytes size) Error.invalid λ _.
        Ensures-reject_if (ltb 64 (length document.attributes)) Error.invalid λ _.
          Ensures-bind
            (put_vector-Ensures schema id document.vector
              (record draft { input_bytes = draft.input_bytes + size }))
            λ after (stats, batch).
              returns (record { stats = rw stats; batch = rw (batch, append_assoc draft.batch) })

  module _ (s : Slate) (snapshot : s.Db) (schema : NamespaceConfig) where
    -- After a round.
    pub record Written (item : Item J) (before after : Draft) : Type 0 where
      pub stats :
          after.stats
          ≡ after_round
              (lookup (document_key name item.0) (s.entries snapshot))
              (lookup (vector_key name item.0) (s.entries snapshot))
              (lookup (change_key name item.0) (s.entries snapshot))
              (item_document item)
              (item_vector item)
              before.stats
      pub batch :
          after.batch
          ≡ before.batch
            ++ (item_ops item
                ++ put (change_key name item.0) (to_le_bytes 8 before.stats.revision) ∷ [])

    pub write_item-Ensures :
        (item : Item J) (draft : Draft)
        → Ensures (Written item draft) (write_item serde crc32 name s snapshot schema item draft)
    unfolding write_item mark_change
    write_item-Ensures item draft =
        Ensures-bind_eq (s.get snapshot (document_key name item.0)) λ od eod.
          Ensures-bind_eq (s.get snapshot (vector_key name item.0)) λ ov eov.
            Ensures-bind
              (put_item-Ensures schema item (record draft { stats = uncount od ov draft.stats }))
              λ middle put. Ensures-bind_eq (s.get snapshot (change_key name item.0)) λ oc eoc.
                returns (record {
                  stats = rw (
                    put.stats,
                    s.get_lem snapshot _ eod,
                    s.get_lem snapshot _ eov,
                    s.get_lem snapshot _ eoc,
                  );
                  batch = rw (
                    put.stats,
                    revision_kept (item_document item) (item_vector item) od ov draft.stats,
                    put.batch,
                    append_assoc draft.batch (item_ops item),
                  );
                })

    pub Written-Effect :
        (item : Item J) {before after : Draft}
        → NoSlash name
        → IsSorted (drafted (s.entries snapshot) before)
        → Written item before after
        → Effect name item.0
            (item_document item)
            (item_vector item)
            (some (to_le_bytes 8 before.stats.revision))
            (drafted (s.entries snapshot) before)
            (drafted (s.entries snapshot) after)
    Written-Effect (id, none) {before} h sorted w =
        rw (w.batch, apply_batch-append before.batch)
          (delete_batch-Effect name id h (to_le_bytes 8 before.stats.revision)
            (drafted (s.entries snapshot) before) sorted)
    Written-Effect (id, some document) {before} h sorted w =
        rw (w.batch, apply_batch-append before.batch)
          (put_batch-Effect name id h (to_le_bytes 8 before.stats.revision)
            (drafted (s.entries snapshot) before) sorted
            (serde.document_to_vec (stored serde crc32 name document)) (encoded document.vector))
