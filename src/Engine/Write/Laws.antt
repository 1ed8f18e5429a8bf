-- ===== src/Engine/Write/Laws.antt =====
-- What `Engine::write` promises.
use gengis_mimi.Shared.{ℕ, ◌≡◌, ◌⊎◌, refl, ◌∙◌, List, All, inl, inr, length}
use gengis_mimi.Shared.Bytes.{Bytes}
use gengis_mimi.Error.{ok}
use gengis_mimi.Error.Ensures.{Ensures-eq-ok}
use gengis_mimi.Model.{WriteRequest, WriteResult}
use gengis_mimi.Slate.{Slate}
use gengis_mimi.Slate.Entries.{Entry, insert, apply_batch, apply_op, apply_batch-append}
use gengis_mimi.Slate.Writes.{Ends-write}
use gengis_mimi.Slate.Action.{Action, continue, Ends, returned, Ends-continue, Ends-reads}
use gengis_mimi.Engine.Serde.{Serde}
use gengis_mimi.Engine.Keys.{stats_key}
use gengis_mimi.Config.{LimitsConfig}
use gengis_mimi.Engine.Draft.{Draft, draft_at, validate_request}
use gengis_mimi.Engine.Draft.Rounds.{drafted}
use gengis_mimi.Engine.Accounted.{IsAccounted}
use gengis_mimi.Engine.Write.{write, full_batch}
use gengis_mimi.Engine.Write.Request.{IsRequest, validate_request-Ensures}
use gengis_mimi.Engine.Write.Drafted.{Drafted, draft_at-Ensures}
use gengis_mimi.Engine.Write.Frame.{IsItemOp, draft_at-IsItemOp}

module _ (s : Slate) {J : Type 0} (serde : Serde J) (crc32 : Bytes → ℕ) where
  full_batch-insert :
      (name : Bytes) (draft : Draft) (es : List Entry)
      → apply_batch (full_batch s serde crc32 name draft) es
        ≡ insert (stats_key name) (serde.stats_to_vec draft.stats) (drafted es draft)
  unfolding apply_batch apply_op
  full_batch-insert name draft es = apply_batch-append draft.batch _ es

  module _ (limits : LimitsConfig) (name : Bytes) (r : WriteRequest J) (db : s.Db) where
    -- The batch of a draft that answers the request is the content.
    pub record Committed (draft : Draft) (db' : s.Db) : Type 0 where
      pub ask : IsRequest name r
      pub good : Drafted s serde crc32 db limits name r draft
      pub own : All (IsItemOp name) draft.batch
      pub content :
          s.entries db'
          ≡ insert (stats_key name) (serde.stats_to_vec draft.stats) (drafted (s.entries db) draft)

    -- What a returned result says.
    pub record Reported (result : WriteResult) (db' : s.Db) : Type 0 where
      pub draft : Draft
      pub committed : Committed draft db'
      pub upserted : result.upserted ≡ length r.upsert
      pub deleted : result.deleted ≡ length r.delete
      pub revision : result.revision ≡ draft.stats.revision

    abbrev pub UnchangedOrCommitted : s.Db → Type 0
    UnchangedOrCommitted db' =
        (s.entries db' ≡ s.entries db) ⊎ ((draft : Draft) × Committed draft db')

    abbrev submit : Draft → Action s.Db WriteResult
    submit draft db₀ =
        continue
          (λ sequence db'. (
            ok (record {
              upserted = length r.upsert;
              deleted = length r.delete;
              sequence = sequence;
              revision = draft.stats.revision;
            }),
            db',
          ))
          (s.write db₀ (full_batch s serde crc32 name draft))

    submit-Ends :
        (draft : Draft)
        → IsRequest name r
        → Drafted s serde crc32 db limits name r draft
        → All (IsItemOp name) draft.batch
        → Ends Reported UnchangedOrCommitted (submit draft db)
    submit-Ends draft ask good own =
        let committed =
          λ (db' : s.Db)
              (e : s.entries db'
                ≡ apply_batch (full_batch s serde crc32 name draft) (s.entries db)).
            let c : Committed draft db' = record {
              ask = ask;
              good = good;
              own = own;
              content = e ∙ full_batch-insert name draft (s.entries db);
            } in
            c in
        Ends-continue
          (Ends-write s db (full_batch s serde crc32 name draft) (λ n db' e. committed db' e)
            (λ db' e. elim e [
              | inl same ↦ inl same
              | inr applied ↦ inr (draft, committed db' applied)
            ]))
          (λ n db' c. returned (record {
            draft = draft;
            committed = c;
            upserted = refl;
            deleted = refl;
            revision = refl;
          }))

    -- From a content in which the namespace is accounted for, `write` ends in one of two ways. It
    -- returns, and the content is that of the whole batch of a draft that answers the request: the
    -- IDs are valid and distinct, the revision is the next one and fits a u64, the statistics are
    -- accurate and within the quotas, every key holds what the operations say, every change is to
    -- an item key of the namespace, and the result counts the operations and names the draft's
    -- revision. Or it fails, and the content is unchanged or that of such a whole batch.
    pub write-Ends :
        IsAccounted serde name (s.entries db)
        → Ends Reported UnchangedOrCommitted (write s serde crc32 limits name r db)
    unfolding write
    write-Ends accounted = Ends-reads (validate_request name r) db _ (inl refl) λ u asked.
        let ask = Ensures-eq-ok (validate_request-Ensures name r) asked in
        Ends-reads (draft_at s serde crc32 limits name r db) db submit (inl refl) λ draft drawn.
          submit-Ends draft ask
            (Ensures-eq-ok (draft_at-Ensures s serde crc32 db limits name r ask accounted) drawn)
            (Ensures-eq-ok (draft_at-IsItemOp s serde crc32 limits name r db) drawn)
