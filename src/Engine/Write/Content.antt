-- ===== src/Engine/Write/Content.antt =====
-- What the keys of a database hold after `Engine::write`.
use gengis_mimi.Shared.{ℕ, ◌≡◌, false, inl, inr}
use gengis_mimi.Shared.Bytes.{Bytes, bytes_eq, bytes_eq_swap}
use gengis_mimi.Shared.Word.{to_le_bytes}
use gengis_mimi.Error.{ok}
use gengis_mimi.Model.{WriteRequest, WriteResult}
use gengis_mimi.Slate.{Slate}
use gengis_mimi.Slate.Action.{Ends-ok, Ends-state}
use gengis_mimi.Slate.Entries.{lookup, lookup-insert, apply_batch}
use gengis_mimi.Engine.Serde.{Serde}
use gengis_mimi.Engine.Keys.{item_key, stats_key}
use gengis_mimi.Engine.Keys.Separate.{validate_id-NoSlash, bytes_eq-item_key_stats}
use gengis_mimi.Config.{LimitsConfig}
use gengis_mimi.Engine.Draft.{Draft, items}
use gengis_mimi.Engine.Draft.Loop.{overlay}
use gengis_mimi.Engine.Draft.Rounds.{drafted}
use gengis_mimi.Engine.Accounted.{IsAccounted}
use gengis_mimi.Engine.Write.{write}
use gengis_mimi.Model.Ids.{IsId}
use gengis_mimi.Engine.Write.Frame.{batch-SameItemsOf}
use gengis_mimi.Engine.Write.Laws.{Committed, Reported, write-Ends}

module _ (s : Slate) {J : Type 0} (serde : Serde J) (crc32 : Bytes → ℕ) (limits : LimitsConfig)
    (name : Bytes) (r : WriteRequest J) (db : s.Db) where
  Reported-lookup :
      (result : WriteResult) (db' : s.Db) (k : Bytes)
      → bytes_eq (stats_key name) k ≡ false
      → Reported s serde crc32 limits name r db result db'
      → lookup k (s.entries db')
        ≡ overlay serde crc32 name
            (to_le_bytes 8 result.revision)
            (items r)
            k
            (lookup k (s.entries db))
  unfolding apply_batch
  Reported-lookup result db' k apart h =
      let c = h.committed in
      rw
        (
          c.content,
          lookup-insert (stats_key name) k (serde.stats_to_vec h.draft.stats)
              (drafted (s.entries db) h.draft),
          apart,
          h.revision,
          c.good.loop.revision,
        )
        (c.good.loop.lookups k)

  -- After a `write` that returns, from a content in which the namespace is accounted for, every
  -- key other than the namespace's statistics holds what the operations of the request, in order,
  -- leave there: the stored document and vector of an upsert, nothing for a deletion, the result's
  -- revision under each change key, and otherwise what it held.
  pub lookup-write :
      {result : WriteResult} (k : Bytes)
      → IsAccounted serde name (s.entries db)
      → bytes_eq (stats_key name) k ≡ false
      → (write s serde crc32 limits name r db).0 ≡ ok result
      → lookup k (s.entries (write s serde crc32 limits name r db).1)
        ≡ overlay serde crc32 name
            (to_le_bytes 8 result.revision)
            (items r)
            k
            (lookup k (s.entries db))
  lookup-write {result} k accounted apart e =
      Reported-lookup result _ k apart
        (Ends-ok (write-Ends s serde crc32 limits name r db accounted) e)

  module _ (other : Bytes) (valid : IsId other) (apart : bytes_eq other name ≡ false) where
    Committed-other_item :
        (letter : ℕ) (id : Bytes) (draft : Draft) (db' : s.Db)
        → IsAccounted serde name (s.entries db)
        → Committed s serde crc32 limits name r db draft db'
        → lookup (item_key letter other id) (s.entries db')
          ≡ lookup (item_key letter other id) (s.entries db)
    Committed-other_item letter id draft db' h c =
        let slashless = validate_id-NoSlash name c.ask.name_valid in
        let same =
          batch-SameItemsOf name other slashless (validate_id-NoSlash other valid) apart draft.batch
            (s.entries db) c.own h.sorted in
        rw
          (
            c.content,
            lookup-insert (stats_key name) (item_key letter other id)
                (serde.stats_to_vec draft.stats) (drafted (s.entries db) draft),
            bytes_eq_swap (item_key letter other id) (stats_key name)
                (bytes_eq-item_key_stats letter other id name slashless),
          )
          (same.lookups letter id)

    -- From a content in which the namespace is accounted for, a `write`, whether it returns or
    -- fails, leaves every item key of every other namespace with a valid name as it was.
    pub lookup-write_other :
        (letter : ℕ) (id : Bytes)
        → IsAccounted serde name (s.entries db)
        → lookup (item_key letter other id) (s.entries (write s serde crc32 limits name r db).1)
          ≡ lookup (item_key letter other id) (s.entries db)
    lookup-write_other letter id accounted =
        Ends-state
          {S = λ db'.
            lookup (item_key letter other id) (s.entries db')
            ≡ lookup (item_key letter other id) (s.entries db)}
          (write-Ends s serde crc32 limits name r db accounted)
          (λ result db' h. Committed-other_item letter id h.draft db' accounted h.committed)
          (λ db' e. elim e [
            | inl same ↦ rw same
            | inr (draft, c) ↦ Committed-other_item letter id draft db' accounted c
          ])
