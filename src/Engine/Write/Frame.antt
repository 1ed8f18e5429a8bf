-- ===== src/Engine/Write/Frame.antt =====
-- `Engine::write` touches no other namespace: every operation of its batch is on an item key or the
-- statistics of its own.
use gengis_mimi.Shared.{
  ℕ, ◌≡◌, refl, ◌∙◌, false, ◌&&◌, ◌==◌, Option, none, some, List, [], ◌∷◌, arith, All, All-append,
}
use gengis_mimi.Shared.Bytes.{Bytes, bytes_eq, bytes_eq_swap}
use gengis_mimi.Shared.Word.{to_le_bytes}
use gengis_mimi.Error.Ensures.{Ensures, returns, Ensures-bind, Ensures-bind_eq}
use gengis_mimi.Model.{NamespaceStats, NamespaceConfig, WriteRequest}
use gengis_mimi.Slate.{Slate}
use gengis_mimi.Slate.Entries.{Entry, Op, put, lookup, apply_op, apply_batch}
use gengis_mimi.Slate.Sorted.{IsSorted}
use gengis_mimi.Engine.Serde.{Serde}
use gengis_mimi.Engine.Keys.{item_key, stats_key, change_key}
use gengis_mimi.Engine.Keys.Separate.{NoSlash, bytes_eq-item_key_names, bytes_eq-item_key_stats}
use gengis_mimi.Engine.Sums.{
  op_of, count_in, size_in, lookup-op_of, op_of-IsSorted, count_in_apart, size_in_apart,
}
use gengis_mimi.Config.{LimitsConfig}
use gengis_mimi.Engine.Draft.{
  Draft, Item, write_items, items, draft_at, start, next_revision, check_draft,
}
use gengis_mimi.Engine.Read.{check_ready, namespace_at, stats_at}
use gengis_mimi.Engine.Draft.Accounts.{IsAccurate}
use gengis_mimi.Engine.Draft.Rounds.{item_ops, Written, write_item-Ensures, encoded}

-- A write or removal of an item of the namespace.
abbrev pub IsItemOp : Bytes → Op → Type 0
IsItemOp name op =
    (letter : ℕ) × (id : Bytes) × (n : Option Bytes) × (op ≡ op_of (item_key letter name id) n)

module _ {J : Type 0} (serde : Serde J) (crc32 : Bytes → ℕ) (name : Bytes) where
  item_ops-IsItemOp : (item : Item J) → All (IsItemOp name) (item_ops serde crc32 name item)
  item_ops-IsItemOp (id, none) = ((b'd', id, none, refl), ((b'v', id, none, refl), tt))
  item_ops-IsItemOp (id, some document) =
      ((b'v', id, encoded serde crc32 name document.vector, refl), ((b'd', id, some _, refl), tt))

  module _ (s : Slate) (snapshot : s.Db) (schema : NamespaceConfig) where
    Written-IsItemOp :
        (item : Item J) (before : Draft) {after : Draft}
        → All (IsItemOp name) before.batch
        → Written serde crc32 name s snapshot schema item before after
        → All (IsItemOp name) after.batch
    Written-IsItemOp item before h w =
        let mark : IsItemOp name
            (put (change_key name item.0) (to_le_bytes 8 before.stats.revision)) =
          (b'c', item.0, some (to_le_bytes 8 before.stats.revision), refl) in
        rw w.batch (
          All-append (IsItemOp name) before.batch _ h (
            All-append (IsItemOp name) (item_ops serde crc32 name item) _ (item_ops-IsItemOp item)
              (mark, tt)))

    pub write_items-IsItemOp :
        (operations : List (Item J)) (draft : Draft)
        → All (IsItemOp name) draft.batch
        → Ensures
            (λ after. All (IsItemOp name) after.batch)
            (write_items serde crc32 name s snapshot schema operations draft)
    unfolding write_items
    write_items-IsItemOp [] draft h = returns h
    write_items-IsItemOp (item ∷ rest) draft h =
        Ensures-bind (write_item-Ensures serde crc32 name s snapshot schema item draft)
          λ next w. write_items-IsItemOp rest next (Written-IsItemOp item draft h w)

module _ (s : Slate) {J : Type 0} (serde : Serde J) (crc32 : Bytes → ℕ) where
  pub draft_at-IsItemOp :
      (limits : LimitsConfig) (name : Bytes) (r : WriteRequest J) (db : s.Db)
      → Ensures (λ draft. All (IsItemOp name) draft.batch) (draft_at s serde crc32 limits name r db)
  unfolding draft_at
  draft_at-IsItemOp limits name r db = Ensures-bind_eq (check_ready s db) λ _ _.
      Ensures-bind_eq (namespace_at s serde db name) λ namespace _.
        Ensures-bind_eq (stats_at s serde db name) λ old _.
          Ensures-bind_eq (next_revision old) λ stats _.
            Ensures-bind
              (write_items-IsItemOp serde crc32 name s db namespace.config (items r) (start stats)
                tt)
              λ draft own. Ensures-bind_eq (check_draft limits draft) λ _ _. returns own

-- What another namespace has of its items is the same in two contents.
pub record SameItemsOf (other : Bytes) (es es' : List Entry) : Type 0 where
  pub sorted : IsSorted es'
  pub counts : (l : ℕ) → count_in l other es' ≡ count_in l other es
  pub sizes : (l : ℕ) → size_in l other es' ≡ size_in l other es
  pub lookups :
      (l : ℕ) (id : Bytes) → lookup (item_key l other id) es' ≡ lookup (item_key l other id) es
  pub stats : lookup (stats_key other) es' ≡ lookup (stats_key other) es

module _ (name other : Bytes) (h : NoSlash name) (k : NoSlash other)
    (apart : bytes_eq other name ≡ false) where
  apart_names : (a b : ℕ) → (a == b && bytes_eq other name) ≡ false
  apart_names a b = rw apart (ground arith)

  IsItemOp-SameItemsOf :
      (op : Op) (es : List Entry)
      → IsItemOp name op
      → IsSorted es
      → SameItemsOf other es (apply_op op es)
  IsItemOp-SameItemsOf op es (letter, id, n, e) sorted = rw e (record {
    sorted = op_of-IsSorted (item_key letter name id) n es sorted;
    counts = λ l. count_in_apart l letter other name id k h n es sorted (apart_names l letter);
    sizes = λ l. size_in_apart l letter other name id k h n es sorted (apart_names l letter);
    lookups = λ l i. rw (
      lookup-op_of (item_key letter name id) (item_key l other i) n es,
      bytes_eq-item_key_names letter l name other id i h k (bytes_eq_swap other name apart),
    );
    stats = rw (
      lookup-op_of (item_key letter name id) (stats_key other) n es,
      bytes_eq-item_key_stats letter name id other k,
    );
  })

  -- A batch on the items of one namespace leaves those of another as they were.
  pub batch-SameItemsOf :
      (ops : List Op) (es : List Entry)
      → All (IsItemOp name) ops
      → IsSorted es
      → SameItemsOf other es (apply_batch ops es)
  unfolding apply_batch
  batch-SameItemsOf [] es own sorted = record {
    sorted = sorted;
    counts = λ l. refl;
    sizes = λ l. refl;
    lookups = λ l id. refl;
    stats = refl;
  }
  batch-SameItemsOf (op ∷ ops) es (p, own) sorted =
      let one = IsItemOp-SameItemsOf op es p sorted in
      let rest = batch-SameItemsOf ops (apply_op op es) own one.sorted in
      record {
        sorted = rest.sorted;
        counts = λ l. rest.counts l ∙ one.counts l;
        sizes = λ l. rest.sizes l ∙ one.sizes l;
        lookups = λ l id. rest.lookups l id ∙ one.lookups l id;
        stats = rest.stats ∙ one.stats;
      }

pub SameItemsOf-IsAccurate :
    (stats : NamespaceStats) (other : Bytes) {es es' : List Entry}
    → SameItemsOf other es es'
    → IsAccurate stats other es
    → IsAccurate stats other es'
SameItemsOf-IsAccurate stats other same h = record {
  documents = rw (same.counts b'd') h.documents;
  bytes = rw (same.sizes b'd', same.sizes b'v') h.bytes;
  pending = rw (same.counts b'c') h.pending;
  no_orphans = λ id. rw (same.lookups b'd' id, same.lookups b'v' id) (h.no_orphans id);
}
