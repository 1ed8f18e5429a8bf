-- ===== src/Engine/Build/Input.antt =====
-- What src/engine.rs reads for the index job: the documents of a snapshot in `build_index_inner`,
-- and which changes `cleanup_inner` still finds to be indexed.
use gengis_mimi.Shared.{
  ℕ, ◌+◌, ◌*◌, ◌/◌, Bool, false, Option, none, some, List, [], ◌∷◌, ◌++◌, length, ltb, leb,
  if◌then◌else◌,
}
use gengis_mimi.Shared.Bytes.{Bytes}
use gengis_mimi.Shared.Word.{sub64}
use gengis_mimi.Error.{Error, Result, ok, reject_if, ok_or, ◌>>=◌, ◌>>◌}
use gengis_mimi.Model.{NamespaceStats, Document}
use gengis_mimi.Config.{IndexConfig}
use gengis_mimi.Slate.{Slate}
use gengis_mimi.Slate.Entries.{Entry, Op, delete}
use gengis_mimi.Engine.Serde.{Serde}
use gengis_mimi.Engine.Keys.{document_prefix}
use gengis_mimi.Engine.Read.{revision, check_ready, namespace_at, stats_at, vector_at}
use gengis_mimi.Index.{IndexStatus}
use gengis_mimi.Index.Build.{Tools}
use gengis_mimi.Index.Build.Documents.{build}

-- `document.vector.as_ref().map_or(0, |v| v.len() * 4)`
abbrev pub vector_size : Option (List ℕ) → ℕ
vector_size none = 0
vector_size (some vector) = length vector * 4

module _ (s : Slate) {J : Type 0} (serde : Serde J) (crc32 : Bytes → ℕ) (config : IndexConfig) where
  -- The loop over the rows of the documents of a snapshot.
  unfoldable pub load_documents :
      s.Db → Bytes → List Entry → ℕ → List (Document J) → Result (List (Document J))
  load_documents snapshot name [] bytes documents = ok documents
  load_documents snapshot name ((key, value) ∷ rows) bytes documents = do
    document ← ok_or (serde.document_from_slice value) Error.encoding
    vector ← vector_at s crc32 snapshot name document.id
    let more = bytes + (length value + vector_size vector + 256)
    reject_if (ltb (config.max_build_bytes / 8) more) Error.limit
    load_documents snapshot name rows more (documents ++ record document { vector = vector } ∷ [])

-- What the job reads of its snapshot, and the index that it builds.
module _ (s : Slate) {J : Type 0} (serde : Serde J) (tools : Tools J) (config : IndexConfig) where
  unfoldable pub build_input : Bytes → Bytes → s.Db → Result (IndexStatus × List Entry)
  unfolding load_documents
  build_input name generation snapshot = do
    check_ready s snapshot
    namespace ← namespace_at s serde snapshot name
    stats ← stats_at s serde snapshot name
    rows ← s.scan_prefix snapshot (document_prefix name)
    documents ← load_documents s serde tools.crc32 config snapshot name rows 0 []
    build tools generation name namespace.config stats.revision documents config

-- The keys of changes that are not later than the watermark.
unfoldable pub indexed_keys : ℕ → List Entry → List Bytes → Result (List Bytes)
indexed_keys watermark [] keys = ok keys
indexed_keys watermark ((key, value) ∷ rows) keys = do
  changed ← revision value
  indexed_keys watermark rows (if leb changed watermark then keys ++ key ∷ [] else keys)

-- The condition on a change as it is now.
abbrev pub is_indexed : ℕ → Option Bytes → Result Bool
is_indexed watermark none = ok false
is_indexed watermark (some value) = do changed ← revision value; ok (leb changed watermark)

-- A batch of deletions, and the statistics that go with it.
pub record Retired : Type 0 where
  pub ops : List Op
  pub stats : NamespaceStats

abbrev pub retire_key : Bytes → Bool → Retired → Retired
retire_key key past r =
    if past
    then record {
      ops = r.ops ++ delete key ∷ [];
      stats = record (r.stats) { pending_documents = sub64 r.stats.pending_documents 1 };
    }
    else r

module _ (s : Slate) where
  -- The loop over the keys of a chunk.
  unfoldable pub retire_keys : s.Db → ℕ → List Bytes → Retired → Result Retired
  retire_keys current watermark [] r = ok r
  retire_keys current watermark (key ∷ keys) r = do
    found ← s.get current key
    past ← is_indexed watermark found
    retire_keys current watermark keys (retire_key key past r)
