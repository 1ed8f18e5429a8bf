-- ===== src/Engine/Draft/Loop.antt =====
-- The whole loop of `Engine::write` over the operations of a request with distinct IDs.
use gengis_mimi.Shared.{
  ℕ, ◌≡◌, refl, ap, ◌∙◌, false, Option, none, some, List, [], ◌∷◌, arith, if◌then◌else◌, All,
}
use gengis_mimi.Shared.Bytes.{Bytes, bytes_eq}
use gengis_mimi.Shared.Word.{to_le_bytes}
use gengis_mimi.Error.Ensures.{Ensures, returns, Ensures-bind, Ensures-mono}
use gengis_mimi.Model.{NamespaceStats, NamespaceConfig}
use gengis_mimi.Slate.{Slate}
use gengis_mimi.Slate.Entries.{Entry, lookup}
use gengis_mimi.Slate.Sorted.{IsSorted}
use gengis_mimi.Model.Ids.{AllDistinct}
use gengis_mimi.Engine.Serde.{Serde}
use gengis_mimi.Engine.Keys.{document_key, vector_key, change_key}
use gengis_mimi.Engine.Keys.Separate.{NoSlash, bytes_eq-item_key}
use gengis_mimi.Engine.Effect.{Effect}
use gengis_mimi.Engine.Draft.{Draft, Item, write_items}
use gengis_mimi.Engine.Draft.Accounts.{IsAccurate, after_round-IsAccurate}
use gengis_mimi.Engine.Draft.Rounds.{
  item_document, item_vector, Written, Written-Effect, write_item-Ensures, drafted,
  revision-after_round,
}

abbrev pub ids_of : {J : Type 0} → List (Item J) → List Bytes
ids_of [] = []
ids_of (item ∷ rest) = item.0 ∷ ids_of rest

-- The keys of an ID hold in one content what they hold in another.
pub record SameItem (name : Bytes) (a b : List Entry) (id : Bytes) : Type 0 where
  pub document : lookup (document_key name id) a ≡ lookup (document_key name id) b
  pub vector : lookup (vector_key name id) a ≡ lookup (vector_key name id) b
  pub change : lookup (change_key name id) a ≡ lookup (change_key name id) b

-- An operation leaves the keys of other IDs alone.
Effect-SameItem :
    {name id : Bytes} {document vector change : Option Bytes} {a es es' : List Entry}
    (other : Bytes)
    → Effect name id document vector change es es'
    → bytes_eq id other ≡ false
    → SameItem name es a other
    → SameItem name es' a other
Effect-SameItem {name} {id} other e apart same = record {
  document = ground (
    arith,
    e.lookups (document_key name other),
    same.document,
    bytes_eq-item_key b'c' b'd' name id other,
    bytes_eq-item_key b'd' b'd' name id other,
    bytes_eq-item_key b'v' b'd' name id other,
  );
  vector = ground (
    arith,
    e.lookups (vector_key name other),
    same.vector,
    bytes_eq-item_key b'c' b'v' name id other,
    bytes_eq-item_key b'd' b'v' name id other,
    bytes_eq-item_key b'v' b'v' name id other,
  );
  change = ground (
    arith,
    e.lookups (change_key name other),
    same.change,
    bytes_eq-item_key b'c' b'c' name id other,
    bytes_eq-item_key b'd' b'c' name id other,
    bytes_eq-item_key b'v' b'c' name id other,
  );
}

Effect-SameItems :
    {name id : Bytes} {document vector change : Option Bytes} {es es' : List Entry} (a : List Entry)
    (ids : List Bytes)
    → Effect name id document vector change es es'
    → All (λ (other : Bytes). bytes_eq id other ≡ false) ids
    → All (SameItem name es a) ids
    → All (SameItem name es' a) ids
Effect-SameItems a [] e apart same = tt
Effect-SameItems a (other ∷ ids) e (p, apart) (q, same) =
    (Effect-SameItem other e p q, Effect-SameItems a ids e apart same)

item_with_document :
    {J : Type 0} (serde : Serde J) (crc32 : Bytes → ℕ) (name : Bytes) (item : Item J)
    → item_document serde crc32 name item ≡ none
    → item_vector serde crc32 name item ≡ none
item_with_document serde crc32 name (id, none) h = refl
item_with_document serde crc32 name (id, some document) h = cc

module _ {J : Type 0} (serde : Serde J) (crc32 : Bytes → ℕ) (name : Bytes) where
  -- What a key holds after some operations, by what it held.
  unfoldable pub overlay : Bytes → List (Item J) → Bytes → Option Bytes → Option Bytes
  overlay mark [] k held = held
  overlay mark (item ∷ rest) k held = overlay mark rest k (
      if bytes_eq (change_key name item.0) k
      then some mark
      else if bytes_eq (document_key name item.0) k
      then item_document serde crc32 name item
      else if bytes_eq (vector_key name item.0) k
      then item_vector serde crc32 name item
      else held)

  -- What a stretch of the loop over the content `es` keeps and does.
  pub record Looped (es : List Entry) (operations : List (Item J)) (before after : Draft)
      : Type 0 where
    pub sorted : IsSorted (drafted es after)
    pub accurate : IsAccurate after.stats name (drafted es after)
    pub revision : after.stats.revision ≡ before.stats.revision
    pub lookups :
        (k : Bytes)
        → lookup k (drafted es after)
          ≡ overlay
              (to_le_bytes 8 before.stats.revision)
              operations
              k
              (lookup k (drafted es before))

  module _ (s : Slate) (snapshot : s.Db) (schema : NamespaceConfig) (h : NoSlash name) where
    abbrev content : Draft → List Entry
    content draft = drafted (s.entries snapshot) draft

    Written-IsAccurate :
        (item : Item J) {before after : Draft}
        → IsSorted (content before)
        → SameItem name (content before) (s.entries snapshot) item.0
        → IsAccurate before.stats name (content before)
        → Written serde crc32 name s snapshot schema item before after
        → IsAccurate after.stats name (content after)
    Written-IsAccurate item {before} {after} sorted same accurate w =
        rw (w.stats, ← same.document, ← same.vector, ← same.change)
          (after_round-IsAccurate before.stats
            (Written-Effect serde crc32 name s snapshot schema item h sorted w)
            (item_with_document serde crc32 name item) accurate)

    pub write_items-Ensures :
        (operations : List (Item J)) (draft : Draft)
        → AllDistinct (ids_of operations)
        → All (SameItem name (content draft) (s.entries snapshot)) (ids_of operations)
        → IsSorted (content draft)
        → IsAccurate draft.stats name (content draft)
        → Ensures
            (Looped (s.entries snapshot) operations draft)
            (write_items serde crc32 name s snapshot schema operations draft)
    unfolding write_items overlay
    write_items-Ensures [] draft distinct same sorted accurate =
        returns
          (record { sorted = sorted; accurate = accurate; revision = refl; lookups = λ k. refl })
    write_items-Ensures (item ∷ rest) draft (apart, distinct) (here, same) sorted accurate =
        Ensures-bind (write_item-Ensures serde crc32 name s snapshot schema item draft) λ next w.
          let e = Written-Effect serde crc32 name s snapshot schema item h sorted w in
          let kept : next.stats.revision ≡ draft.stats.revision =
            ap (λ (st : NamespaceStats). st.revision) w.stats
            ∙ revision-after_round _ _ _ _ _ draft.stats in
          Ensures-mono
            (write_items-Ensures rest next distinct
              (Effect-SameItems (s.entries snapshot) (ids_of rest) e apart same) e.sorted
              (Written-IsAccurate item sorted here accurate w))
            λ after l. record {
              sorted = l.sorted;
              accurate = l.accurate;
              revision = l.revision ∙ kept;
              lookups = λ k. rw (l.lookups k, e.lookups k, kept);
            }
