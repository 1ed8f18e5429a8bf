-- ===== src/Engine/Read.antt =====
-- The reads of src/engine.rs: what the keys of a namespace hold.
use gengis_mimi.Shared.{ℕ, Bool, false, not, Option, none, some, List, length, ◌==◌}
use gengis_mimi.Shared.Bytes.{Bytes, bytes_eq}
use gengis_mimi.Shared.Word.{from_le_bytes}
use gengis_mimi.Error.{Error, Result, ok, ◌>>=◌, ◌>>◌, reject_if, ok_or}
use gengis_mimi.Model.{Namespace, NamespaceStats, Document, default_stats, validate_id}
use gengis_mimi.Binary.{decode_vector}
use gengis_mimi.Slate.{Slate}
use gengis_mimi.Engine.Serde.{Serde}
use gengis_mimi.Engine.Keys.{namespace_key, document_key, vector_key, stats_key, format_key, format}

unfoldable pub revision : Bytes → Result ℕ
revision bytes = do reject_if (not (length bytes == 8)) Error.corrupt; ok (from_le_bytes bytes)

-- `.map(f).transpose()` of a value that may be missing; what cannot be read is an encoding error.
abbrev pub read_as {ℓ} : {A : Type ℓ} → (Bytes → Option A) → Option Bytes → Result (Option A)
read_as f none = ok none
read_as f (some bytes) = do a ← ok_or (f bytes) Error.encoding; ok (some a)

abbrev pub unwrap_or {ℓ} : {A : Type ℓ} → A → Option A → A
unwrap_or d none = d
unwrap_or d (some a) = a

abbrev pub is_format : Option Bytes → Bool
is_format none = false
is_format (some value) = bytes_eq value format

module _ (s : Slate) where
  unfoldable pub check_ready : s.Db → Result (Unit {0})
  check_ready db = do
    reject_if (s.closed db) Error.unavailable
    value ← s.get db format_key
    reject_if (not (is_format value)) Error.unavailable

module _ (s : Slate) {J : Type 0} (serde : Serde J) where
  unfoldable pub namespace_at : s.Db → Bytes → Result Namespace
  namespace_at db name = do
    validate_id name
    found ← s.get db (namespace_key name)
    value ← ok_or found Error.not_found
    ok_or (serde.namespace_from_slice value) Error.encoding

  unfoldable pub stats_at : s.Db → Bytes → Result NamespaceStats
  stats_at db name = do
    found ← s.get db (stats_key name)
    stats ← read_as serde.stats_from_slice found
    ok (unwrap_or default_stats stats)

  unfoldable pub attributes_at : s.Db → Bytes → Bytes → Result (Option (Document J))
  attributes_at db name id = do
    found ← s.get db (document_key name id)
    read_as serde.document_from_slice found

module _ (s : Slate) (crc32 : Bytes → ℕ) where
  abbrev decode_stored : Option Bytes → Result (Option (List ℕ))
  decode_stored none = ok none
  decode_stored (some bytes) = do vector ← decode_vector crc32 bytes; ok (some vector)

  unfoldable pub vector_at : s.Db → Bytes → Bytes → Result (Option (List ℕ))
  vector_at db name id = do found ← s.get db (vector_key name id); decode_stored found

module _ (s : Slate) {J : Type 0} (serde : Serde J) (crc32 : Bytes → ℕ) where
  abbrev with_vector : s.Db → Bytes → Bytes → Option (Document J) → Result (Option (Document J))
  with_vector db name id none = ok none
  with_vector db name id (some document) = do
    vector ← vector_at s crc32 db name id
    ok (some (record document { vector = vector }))

  unfoldable pub document_at : s.Db → Bytes → Bytes → Result (Option (Document J))
  document_at db name id = do
    document ← attributes_at s serde db name id
    with_vector db name id document

  -- `get`, which takes its snapshot with `check_ready`.
  unfoldable pub get : s.Db → Bytes → Bytes → Result (Document J)
  get db name id = do
    validate_id id
    check_ready s db
    _ ← namespace_at s serde db name
    document ← document_at db name id
    ok_or document Error.not_found

  unfoldable pub stats : s.Db → Bytes → Result NamespaceStats
  stats db name = do check_ready s db; _ ← namespace_at s serde db name; stats_at s serde db name
