-- ===== src/Engine/Write/Drafted.antt =====
-- The draft that `Engine::write` is about to submit: within the quotas, and true to its batch.
use gengis_mimi.Shared.{
  ℕ, ◌+◌, ◌≡◌, ◌≤◌, ◌<◌, refl, false, List, [], ◌∷◌, arith, All, ltb, ltb→lt, Bool-cases, inl, inr,
}
use gengis_mimi.Shared.Bytes.{Bytes}
use gengis_mimi.Shared.Word.{u64_mod}
use gengis_mimi.Error.{Error, ok}
use gengis_mimi.Error.Ensures.{
  Ensures, returns, fails, Ensures-bind, Ensures-bind_eq, Ensures-reject_if, Ensures-test,
}
use gengis_mimi.Model.{NamespaceStats, WriteRequest, max_body_bytes}
use gengis_mimi.Slate.{Slate}
use gengis_mimi.Slate.Entries.{Entry, apply_batch}
use gengis_mimi.Engine.Serde.{Serde}
use gengis_mimi.Engine.Keys.{stats_key}
use gengis_mimi.Engine.Keys.Separate.{validate_id-NoSlash}
use gengis_mimi.Engine.Read.{check_ready, namespace_at, stats_at, read_as}
use gengis_mimi.Config.{LimitsConfig}
use gengis_mimi.Engine.Draft.{Draft, items, over_quota, check_draft, next_revision, start, draft_at}
use gengis_mimi.Engine.Draft.Accounts.{IsAccurate}
use gengis_mimi.Engine.Draft.Loop.{Looped, SameItem, write_items-Ensures}
use gengis_mimi.Engine.Accounted.{recorded, IsAccounted}
use gengis_mimi.Engine.Write.Request.{IsRequest}

SameItems-refl : (name : Bytes) (es : List Entry) (ids : List Bytes) → All (SameItem name es es) ids
SameItems-refl name es [] = tt
SameItems-refl name es (id ∷ ids) =
    (record { document = refl; vector = refl; change = refl }, SameItems-refl name es ids)

-- The statistics with the next revision, which fits.
next_revision-Ensures :
    (old : NamespaceStats)
    → Ensures
        (λ new. (new ≡ record old { revision = old.revision + 1 }) × (old.revision + 1 < u64_mod))
        (next_revision old)
unfolding next_revision
next_revision-Ensures old = elim (Bool-cases (ltb (old.revision + 1) u64_mod)) [
  | inl fits ↦ rw fits (returns (refl, ltb→lt _ _ fits))
  | inr full ↦ rw full fails
]

-- Every quota is kept.
pub record InQuota (limits : LimitsConfig) (stats : NamespaceStats) : Type 0 where
  pub documents : stats.documents ≤ limits.max_documents
  pub bytes : stats.bytes ≤ limits.max_namespace_bytes
  pub pending : stats.pending_documents ≤ limits.max_pending_documents

over_quota_sound :
    (limits : LimitsConfig) (stats : NamespaceStats)
    → over_quota limits stats ≡ false
    → InQuota limits stats
unfolding over_quota
over_quota_sound limits stats h = ground arith

-- The revision is no part of the accounts.
same_accounts :
    {name : Bytes} {es : List Entry} {n : ℕ} (stats : NamespaceStats)
    → IsAccurate stats name es
    → IsAccurate (record stats { revision = n }) name es
same_accounts stats h = record {
  documents = h.documents;
  bytes = h.bytes;
  pending = h.pending;
  no_orphans = h.no_orphans;
}

module _ (s : Slate) {J : Type 0} (serde : Serde J) (db : s.Db) where
  pub stats_at-Ensures :
      (name : Bytes)
      → Ensures (λ stats. recorded serde name (s.entries db) ≡ ok stats) (stats_at s serde db name)
  unfolding stats_at
  stats_at-Ensures name = Ensures-bind_eq (s.get db (stats_key name)) λ found e.
      Ensures-bind_eq (read_as serde.stats_from_slice found)
        λ stats f. returns (rw (← s.get_lem db (stats_key name) e, f))

module _ (s : Slate) {J : Type 0} (serde : Serde J) (crc32 : Bytes → ℕ) (db : s.Db) where
  -- What is submitted for a request, with the revision that follows the recorded one.
  pub record Drafted (limits : LimitsConfig) (name : Bytes) (r : WriteRequest J) (draft : Draft)
      : Type 0 where
    pub before : NamespaceStats
    pub recorded_before : recorded serde name (s.entries db) ≡ ok before
    pub loop :
        Looped serde crc32 name
          (s.entries db)
          (items r)
          (start (record before { revision = before.revision + 1 }))
          draft
    pub revision_fits : before.revision + 1 < u64_mod
    pub in_quota : InQuota limits draft.stats

  check_draft-Ensures :
      (limits : LimitsConfig) (draft : Draft)
      → Ensures (λ _. InQuota limits draft.stats) (check_draft limits draft)
  unfolding check_draft
  check_draft-Ensures limits draft =
      Ensures-reject_if (ltb max_body_bytes draft.input_bytes) Error.invalid λ _.
        Ensures-test (over_quota limits draft.stats) Error.limit
          λ h. over_quota_sound limits draft.stats h

  pub draft_at-Ensures :
      (limits : LimitsConfig) (name : Bytes) (r : WriteRequest J)
      → IsRequest name r
      → IsAccounted serde name (s.entries db)
      → Ensures (Drafted limits name r) (draft_at s serde crc32 limits name r db)
  unfolding draft_at apply_batch
  draft_at-Ensures limits name r ask accounted =
      let slashless = validate_id-NoSlash name ask.name_valid in
      let es = s.entries db in
      Ensures-bind_eq (check_ready s db) λ _ _.
        Ensures-bind_eq (namespace_at s serde db name) λ namespace _.
          Ensures-bind (stats_at-Ensures s serde db name) λ old found.
            Ensures-bind (next_revision-Ensures old) λ stats (new, fits).
              Ensures-bind
                (write_items-Ensures serde crc32 name s db namespace.config slashless (items r)
                  (start stats) ask.distinct (SameItems-refl name es _) accounted.sorted
                  (rw new (same_accounts old (accounted.accurate old found))))
                λ draft loop. Ensures-bind (check_draft-Ensures limits draft) λ _ within.
                  returns (record {
                    before = old;
                    recorded_before = found;
                    loop = rw new at loop;
                    revision_fits = fits;
                    in_quota = within;
                  })
