-- ===== src/Engine/Write/Accounting.antt =====
-- `Engine::write` keeps the accounts of every namespace, and adds one to its own revision.
use gengis_mimi.Shared.{ℕ, ◌+◌, ◌≡◌, ◌<◌, sym, ◌∙◌, false, List, inl, inr, Bool-cases}
use gengis_mimi.Shared.Bytes.{Bytes, bytes_eq, bytes_eq_refl, bytes_eq→eq, bytes_eq_swap}
use gengis_mimi.Shared.Word.{u64_mod}
use gengis_mimi.Error.{ok, ok-injective}
use gengis_mimi.Model.{NamespaceStats, WriteRequest, WriteResult}
use gengis_mimi.Slate.{Slate}
use gengis_mimi.Slate.Action.{Ends-ok, Ends-state}
use gengis_mimi.Slate.Entries.{Entry, lookup, insert, lookup-insert}
use gengis_mimi.Slate.Sorted.{insert-IsSorted}
use gengis_mimi.Engine.Serde.{Serde}
use gengis_mimi.Engine.Keys.{stats_key}
use gengis_mimi.Engine.Keys.Separate.{validate_id-NoSlash, bytes_eq-stats_key}
use gengis_mimi.Config.{LimitsConfig}
use gengis_mimi.Engine.Draft.{Draft}
use gengis_mimi.Engine.Draft.Rounds.{drafted}
use gengis_mimi.Engine.Accounted.{
  recorded, IsAccounted, insert_stats-IsAccounted, insert_stats-IsAccurate,
}
use gengis_mimi.Engine.Write.{write}
use gengis_mimi.Model.Ids.{IsId}
use gengis_mimi.Engine.Write.Drafted.{InQuota}
use gengis_mimi.Engine.Write.Frame.{batch-SameItemsOf, SameItemsOf-IsAccurate}
use gengis_mimi.Engine.Write.Laws.{Committed, Reported, write-Ends}

module _ (s : Slate) {J : Type 0} (serde : Serde J) (crc32 : Bytes → ℕ) (limits : LimitsConfig)
    (name : Bytes) (r : WriteRequest J) (db : s.Db) where
  -- The statistics of another namespace lie under another key.
  other_stats :
      (other value : Bytes) (es : List Entry)
      → bytes_eq other name ≡ false
      → lookup (stats_key other) (insert (stats_key name) value es) ≡ lookup (stats_key other) es
  other_stats other value es apart = rw (
    lookup-insert (stats_key name) (stats_key other) value es,
    bytes_eq-stats_key name other,
    bytes_eq_swap other name apart,
  )

  Committed-other :
      (other : Bytes) (draft : Draft) (db' : s.Db)
      → IsId other
      → bytes_eq other name ≡ false
      → IsAccounted serde other (s.entries db)
      → Committed s serde crc32 limits name r db draft db'
      → IsAccounted serde other (s.entries db')
  Committed-other other draft db' valid apart h c =
      let value = serde.stats_to_vec draft.stats in
      let after = drafted (s.entries db) draft in
      let same =
        batch-SameItemsOf name other (validate_id-NoSlash name c.ask.name_valid)
          (validate_id-NoSlash other valid) apart draft.batch (s.entries db) c.own h.sorted in
      rw c.content (record {
        sorted = insert-IsSorted (stats_key name) value after same.sorted;
        accurate = λ stats e. insert_stats-IsAccurate stats other name value after same.sorted (
            SameItemsOf-IsAccurate stats other same
              (h.accurate stats (rw (other_stats other value after apart, same.stats) at e)));
      })

  Committed-own :
      (draft : Draft) (db' : s.Db)
      → Committed s serde crc32 limits name r db draft db'
      → IsAccounted serde name (s.entries db')
  Committed-own draft db' c = rw c.content (
      insert_stats-IsAccounted serde draft.stats name (drafted (s.entries db) draft)
        c.good.loop.sorted c.good.loop.accurate)

  Committed-IsAccounted :
      (other : Bytes) (draft : Draft) (db' : s.Db)
      → IsId other
      → IsAccounted serde other (s.entries db)
      → Committed s serde crc32 limits name r db draft db'
      → IsAccounted serde other (s.entries db')
  Committed-IsAccounted other draft db' valid h c = elim (Bool-cases (bytes_eq other name)) [
    | inl same ↦ rw (bytes_eq→eq other name same) (Committed-own draft db' c)
    | inr apart ↦ Committed-other other draft db' valid apart h c
  ]

  -- From a content in which the namespace and another, of a valid name, are accounted for,
  -- `write`, whether it returns or fails, leaves one in which the other is, be it the same: the
  -- content stays sorted, and the recorded document, byte and pending counts are those of its
  -- keys, modulo 2^64, with no vector without its document.
  pub write-IsAccounted :
      (other : Bytes)
      → IsId other
      → IsAccounted serde name (s.entries db)
      → IsAccounted serde other (s.entries db)
      → IsAccounted serde other (s.entries (write s serde crc32 limits name r db).1)
  write-IsAccounted other valid accounted h =
      Ends-state {S = λ db'. IsAccounted serde other (s.entries db')}
        (write-Ends s serde crc32 limits name r db accounted)
        (λ result db' reported.
          Committed-IsAccounted other reported.draft db' valid h reported.committed)
        (λ db' e. elim e [
          | inl same ↦ rw same h
          | inr (draft, c) ↦ Committed-IsAccounted other draft db' valid h c
        ])

  -- The new statistics that a result speaks of.
  pub record Advanced (before : NamespaceStats) (result : WriteResult) (es' : List Entry)
      : Type 0 where
    pub after : NamespaceStats
    pub recorded_after : recorded serde name es' ≡ ok after
    pub reported : result.revision ≡ after.revision
    pub next : after.revision ≡ before.revision + 1
    pub fits : after.revision < u64_mod
    pub in_quota : InQuota limits after

  recorded-insert :
      (stats : NamespaceStats) (es : List Entry)
      → recorded serde name (insert (stats_key name) (serde.stats_to_vec stats) es) ≡ ok stats
  recorded-insert stats es = rw (
    lookup-insert (stats_key name) (stats_key name) (serde.stats_to_vec stats) es,
    bytes_eq_refl (stats_key name),
    serde.stats_round stats,
  )

  Reported-Advanced :
      (before : NamespaceStats) (result : WriteResult) (db' : s.Db)
      → recorded serde name (s.entries db) ≡ ok before
      → Reported s serde crc32 limits name r db result db'
      → Advanced before result (s.entries db')
  Reported-Advanced before result db' e h =
      let c = h.committed in
      let draft = h.draft in
      let known = rw (ok-injective (sym c.good.recorded_before ∙ e)) at c.good.loop.revision in
      record {
        after = draft.stats;
        recorded_after = rw c.content (recorded-insert draft.stats (drafted (s.entries db) draft));
        reported = h.revision;
        next = known;
        fits = rw c.good.loop.revision c.good.revision_fits;
        in_quota = c.good.in_quota;
      }

  -- A `write` that returns, from a content in which the namespace is accounted for and its
  -- recorded statistics can be read, has recorded new statistics within all three quotas, with a
  -- revision that is one more than the recorded one, fits a u64 and is the one that the result
  -- names.
  pub write-Advanced :
      {before : NamespaceStats} {result : WriteResult}
      → IsAccounted serde name (s.entries db)
      → recorded serde name (s.entries db) ≡ ok before
      → (write s serde crc32 limits name r db).0 ≡ ok result
      → Advanced before result (s.entries (write s serde crc32 limits name r db).1)
  write-Advanced {before} {result} accounted e f =
      Reported-Advanced before result _ e
        (Ends-ok (write-Ends s serde crc32 limits name r db accounted) f)
