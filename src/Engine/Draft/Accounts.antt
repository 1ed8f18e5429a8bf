-- ===== src/Engine/Draft/Accounts.antt =====
-- The statistics that the loop of `Engine::write` keeps are those of the content that its batch
-- makes.
use gengis_mimi.Shared.{ℕ, ◌+◌, ◌%◌, ◌≡◌, Option, none, some, List, arith, length}
use gengis_mimi.Shared.Bytes.{Bytes}
use gengis_mimi.Shared.Word.{u64_mod, add64}
use gengis_mimi.Model.{NamespaceStats}
use gengis_mimi.Slate.Entries.{Entry, lookup}
use gengis_mimi.Engine.Keys.{document_key, vector_key, change_key}
use gengis_mimi.Engine.Keys.Separate.{bytes_eq-item_key}
use gengis_mimi.Engine.Sums.{has, size_of}
use gengis_mimi.Engine.Effect.{documents_in, document_bytes_in, vector_bytes_in, changes_in, Effect}
use gengis_mimi.Engine.Draft.{uncount, mark_pending}

-- The statistics of a namespace are those of the content, and no vector lies without its document.
pub record IsAccurate (stats : NamespaceStats) (name : Bytes) (es : List Entry) : Type 0 where
  pub documents : stats.documents ≡ documents_in name es % u64_mod
  pub bytes : stats.bytes ≡ (document_bytes_in name es + vector_bytes_in name es) % u64_mod
  pub pending : stats.pending_documents ≡ changes_in name es % u64_mod
  pub no_orphans :
      (id : Bytes) → lookup (document_key name id) es ≡ none → lookup (vector_key name id) es ≡ none

-- What the middle of a round makes of the statistics, by what it leaves under the keys.
unfoldable pub count_vector : Option Bytes → NamespaceStats → NamespaceStats
count_vector none stats = stats
count_vector (some vector) stats = record stats { bytes = add64 stats.bytes (length vector) }

unfoldable pub count_item : Option Bytes → Option Bytes → NamespaceStats → NamespaceStats
unfolding count_vector
count_item none vector stats = stats
count_item (some document) vector stats = record (count_vector vector stats) {
  documents = add64 (count_vector vector stats).documents 1;
  bytes = add64 (count_vector vector stats).bytes (length document);
}

module _ (od ov oc document vector : Option Bytes) (a : NamespaceStats) where
  abbrev pub after_round : NamespaceStats
  after_round = mark_pending oc (count_item document vector (uncount od ov a))

  documents_after :
      (x y : ℕ)
      → y + has od ≡ x + has document
      → a.documents ≡ x % u64_mod
      → after_round.documents ≡ y % u64_mod
  unfolding count_item uncount mark_pending
  documents_after x y e h = ground arith

  pending_after :
      (x y : ℕ)
      → y + has oc ≡ x + 1
      → a.pending_documents ≡ x % u64_mod
      → after_round.pending_documents ≡ y % u64_mod
  unfolding count_item uncount mark_pending
  pending_after x y e h = ground arith

  bytes_after :
      (x y u v : ℕ)
      → (od ≡ none → ov ≡ none)
      → (document ≡ none → vector ≡ none)
      → y + size_of od ≡ x + size_of document
      → v + size_of ov ≡ u + size_of vector
      → a.bytes ≡ (x + u) % u64_mod
      → after_round.bytes ≡ (y + v) % u64_mod
  unfolding count_item uncount mark_pending
  bytes_after x y u v no_orphan with_document e f h = ground arith

module _ {name id : Bytes} {document vector : Option Bytes} {change : Bytes}
    {es es' : List Entry} where
  -- A round keeps the statistics true to the content.
  pub after_round-IsAccurate :
      (a : NamespaceStats)
      → Effect name id document vector (some change) es es'
      → (document ≡ none → vector ≡ none)
      → IsAccurate a name es
      → IsAccurate
          (after_round
            (lookup (document_key name id) es)
            (lookup (vector_key name id) es)
            (lookup (change_key name id) es)
            document
            vector
            a)
          name
          es'
  after_round-IsAccurate a e with_document h =
      let od = lookup (document_key name id) es in
      let ov = lookup (vector_key name id) es in
      let oc = lookup (change_key name id) es in
      record {
        documents = documents_after od ov oc document vector a _ _ e.documents h.documents;
        bytes =
            bytes_after od ov oc document vector a _ _ _ _ (h.no_orphans id) with_document
              e.document_bytes e.vector_bytes h.bytes;
        pending = pending_after od ov oc document vector a _ _ e.changes h.pending;
        no_orphans = λ other gone. ground (
          arith,
          with_document,
          h.no_orphans other,
          e.lookups (vector_key name other),
          bytes_eq-item_key b'c' b'v' name id other,
          bytes_eq-item_key b'd' b'v' name id other,
          bytes_eq-item_key b'v' b'v' name id other,
          e.lookups (document_key name other),
          bytes_eq-item_key b'c' b'd' name id other,
          bytes_eq-item_key b'd' b'd' name id other,
          bytes_eq-item_key b'v' b'd' name id other,
        );
      }
