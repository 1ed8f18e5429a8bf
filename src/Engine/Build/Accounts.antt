-- ===== src/Engine/Build/Accounts.antt =====
-- A chunk of `cleanup_inner` of src/engine.rs keeps the accounts of its namespace.
use gengis_mimi.Shared.{
  ℕ, ◌+◌, ◌%◌, ◌≡◌, refl, sym, ap, ◌∙◌, Bool, true, false, inl, inr, Option, none, some, List, [],
  ◌∷◌, ◌++◌, All, arith,
}
use gengis_mimi.Shared.Bytes.{Bytes, bytes_eq}
use gengis_mimi.Shared.Word.{u64_mod, sub64}
use gengis_mimi.Error.{ok}
use gengis_mimi.Error.Ensures.{Ensures, returns, Ensures-bind_eq, Ensures-eq-ok}
use gengis_mimi.Model.{NamespaceStats}
use gengis_mimi.Model.Ids.{IsId, AllDistinct}
use gengis_mimi.Slate.{Slate}
use gengis_mimi.Slate.Action.{Ends, returned, Ends-continue, Ends-reads}
use gengis_mimi.Slate.Entries.{
  Entry, Op, put, delete, lookup, insert, apply_op, apply_batch, apply_batch-append, lookup-remove,
}
use gengis_mimi.Slate.Writes.{Ends-write}
use gengis_mimi.Slate.Sorted.{IsSorted, remove-IsSorted}
use gengis_mimi.Engine.Serde.{Serde}
use gengis_mimi.Engine.Keys.{change_key, document_key, vector_key, stats_key}
use gengis_mimi.Engine.Keys.Separate.{NoSlash, validate_id-NoSlash}
use gengis_mimi.Engine.Sums.{count_in, count_in_self, count_in_apart, size_in_apart}
use gengis_mimi.Engine.Read.{stats_at}
use gengis_mimi.Engine.Draft.Accounts.{IsAccurate}
use gengis_mimi.Engine.Accounted.{IsAccounted, insert_stats-IsAccounted}
use gengis_mimi.Engine.Erase.Effect.{no_batch}
use gengis_mimi.Engine.Write.Drafted.{stats_at-Ensures}
use gengis_mimi.Engine.Build.{retire_chunk}
use gengis_mimi.Engine.Build.Input.{is_indexed, Retired, retire_key, retire_keys}

one_less : (x y n : ℕ) → y + 1 ≡ x → n ≡ x % u64_mod → sub64 n 1 ≡ y % u64_mod
one_less x y n e h = ground arith

put_last :
    (ops : List Op) (k v : Bytes) (es : List Entry)
    → apply_batch (ops ++ put k v ∷ []) es ≡ insert k v (apply_batch ops es)
unfolding apply_batch apply_op
put_last ops k v es = apply_batch-append ops (put k v ∷ []) es

module _ (name : Bytes) (plain : NoSlash name) where
  lookup-delete_change :
      (id k : Bytes) (es : List Entry)
      → bytes_eq (change_key name id) k ≡ false
      → lookup k (apply_op (delete (change_key name id)) es) ≡ lookup k es
  unfolding apply_op
  lookup-delete_change id k es apart = lookup-remove (change_key name id) k es ∙ rw apart

  change_document :
      (id other : Bytes) → bytes_eq (change_key name id) (document_key name other) ≡ false
  unfolding bytes_eq
  change_document id other = refl

  change_vector : (id other : Bytes) → bytes_eq (change_key name id) (vector_key name other) ≡ false
  unfolding bytes_eq
  change_vector id other = refl

  -- One change less.
  delete_change-IsAccurate :
      (stats : NamespaceStats) (id value : Bytes) (es : List Entry)
      → IsSorted es
      → lookup (change_key name id) es ≡ some value
      → IsAccurate stats name es
      → IsAccurate
          (record stats { pending_documents = sub64 stats.pending_documents 1 })
          name
          (apply_op (delete (change_key name id)) es)
  delete_change-IsAccurate stats id value es sorted held h = record {
    documents =
        h.documents
        ∙ ap (λ n. n % u64_mod)
            (sym (count_in_apart b'd' b'c' name name id plain plain none es sorted refl));
    bytes =
        h.bytes
        ∙ ap (λ n. n % u64_mod)
            (sym (
              rw
                (
                  size_in_apart b'd' b'c' name name id plain plain none es sorted refl,
                  size_in_apart b'v' b'c' name name id plain plain none es sorted refl,
                )
                refl));
    pending =
        one_less (count_in b'c' name es) _ stats.pending_documents
          (let less = rw held at (count_in_self b'c' name id plain none es sorted) in omega arith)
          h.pending;
    no_orphans = λ other gone.
        lookup-delete_change id (vector_key name other) es (change_vector id other)
        ∙ h.no_orphans other (
            sym (lookup-delete_change id (document_key name other) es (change_document id other))
            ∙ gone);
  }

  -- Keys of changes of the namespace.
  abbrev pub AreChanges : List Bytes → Type 0
  AreChanges = All (λ key. (id : Bytes) × (key ≡ change_key name id))

  -- The statistics go with the batch, which has not reached the keys that are left.
  record Retiring (es : List Entry) (keys : List Bytes) (r : Retired) : Type 0 where
    sorted : IsSorted (apply_batch r.ops es)
    accurate : IsAccurate r.stats name (apply_batch r.ops es)
    left : All (λ key. lookup key (apply_batch r.ops es) ≡ lookup key es) keys

  still_left :
      (id : Bytes) (keys : List Bytes) (es before : List Entry)
      → All (λ other. bytes_eq (change_key name id) other ≡ false) keys
      → All (λ key. lookup key es ≡ lookup key before) keys
      → All (λ key. lookup key (apply_op (delete (change_key name id)) es) ≡ lookup key before) keys
  still_left id [] es before apart h = tt
  still_left id (key ∷ keys) es before (a, apart) (e, h) =
      (lookup-delete_change id key es a ∙ e, still_left id keys es before apart h)

  delete_one :
      (es : List Entry) (id value : Bytes) (keys : List Bytes) (r : Retired)
      → All (λ other. bytes_eq (change_key name id) other ≡ false) keys
      → lookup (change_key name id) es ≡ some value
      → Retiring es (change_key name id ∷ keys) r
      → Retiring es keys (retire_key (change_key name id) true r)
  unfolding apply_batch apply_op
  delete_one es id value keys r apart found h =
      let at_once = apply_batch-append r.ops (delete (change_key name id) ∷ []) es in
      let (own, rest) = h.left in
      record {
        sorted = rw at_once (remove-IsSorted (change_key name id) _ h.sorted);
        accurate = rw at_once (
            delete_change-IsAccurate r.stats id value (apply_batch r.ops es) h.sorted (own ∙ found)
              h.accurate);
        left = rw at_once (still_left id keys (apply_batch r.ops es) es apart rest);
      }

  module _ (s : Slate) (current : s.Db) (watermark : ℕ) where
    retire_one :
        (key : Bytes) (keys : List Bytes) (found : Option Bytes) (past : Bool) (r : Retired)
        → ((id : Bytes) × (key ≡ change_key name id))
        → All (λ other. bytes_eq key other ≡ false) keys
        → found ≡ lookup key (s.entries current)
        → is_indexed watermark found ≡ ok past
        → Retiring (s.entries current) (key ∷ keys) r
        → Retiring (s.entries current) keys (retire_key key past r)
    retire_one key keys found false r change apart same e h = record {
      sorted = h.sorted;
      accurate = h.accurate;
      left = h.left.1;
    }
    retire_one key keys none true r change apart same e h = absurd (cc)
    retire_one key keys (some value) true r (id, named) apart same e h = rw named (
        delete_one (s.entries current) id value keys r (rw named at apart) (rw named at (sym same))
          (rw named at h))

    retire_keys-Retiring :
        (keys : List Bytes) (r : Retired)
        → AreChanges keys
        → AllDistinct keys
        → Retiring (s.entries current) keys r
        → Ensures (Retiring (s.entries current) []) (retire_keys s current watermark keys r)
    unfolding retire_keys
    retire_keys-Retiring [] r changes distinct h = returns h
    retire_keys-Retiring (key ∷ keys) r (change, changes) (apart, distinct) h =
        Ensures-bind_eq (s.get current key) λ found e.
          Ensures-bind_eq (is_indexed watermark found) λ past e'.
            retire_keys-Retiring keys (retire_key key past r) changes distinct
              (retire_one key keys found past r change apart (s.get_lem current key e) e' h)

module _ (s : Slate) {J : Type 0} (serde : Serde J) (name : Bytes) where
  -- From a content in which a namespace of a valid name is accounted for, one chunk of a cleanup,
  -- given distinct keys of changes of the namespace and whatever has become of them since, leaves
  -- one in which it is, whether the chunk returns or fails: the content stays sorted, and the
  -- recorded document, byte and pending counts are those of its keys, modulo 2^64, with no vector
  -- without its document.
  pub retire_chunk-IsAccounted :
      (watermark : ℕ) (keys : List Bytes) (db : s.Db)
      → (valid : IsId name) → AreChanges name (validate_id-NoSlash name valid) keys
      → AllDistinct keys
      → IsAccounted serde name (s.entries db)
      → Ends
          (λ u db'. IsAccounted serde name (s.entries db'))
          (λ db'. IsAccounted serde name (s.entries db'))
          (retire_chunk s serde name watermark keys db)
  unfolding retire_chunk
  retire_chunk-IsAccounted watermark keys db valid changes distinct h =
      let plain = validate_id-NoSlash name valid in
      Ends-reads (stats_at s serde db name) db _ h λ stats e.
        Ends-reads (retire_keys s db watermark keys (record { ops = []; stats = stats })) db _ h
          λ r e'.
            let was = h.accurate stats (Ensures-eq-ok (stats_at-Ensures s serde db name) e) in
            let done =
              Ensures-eq-ok
                (retire_keys-Retiring name plain s db watermark keys
                  (record { ops = []; stats = stats }) changes distinct
                  (record {
                    sorted = rw (sym (no_batch (s.entries db))) h.sorted;
                    accurate = rw (sym (no_batch (s.entries db))) was;
                    left = untouched keys;
                  }))
                e' in
            let own = put (stats_key name) (serde.stats_to_vec r.stats) ∷ [] in
            let after = with_stats r done in
            Ends-continue
              (Ends-write s db (r.ops ++ own) (λ n db' f. rw f after)
                (λ db' f. elim f [ inl same ↦ rw same h | inr new ↦ rw new after ]))
              λ n db' k. returned k
    where
      untouched :
          (keys : List Bytes)
          → All (λ key. lookup key (apply_batch [] (s.entries db)) ≡ lookup key (s.entries db)) keys
      untouched [] = tt
      untouched (key ∷ keys) = (ap (lookup key) (sym (no_batch (s.entries db))), untouched keys)

      with_stats :
          (r : Retired)
          → Retiring name (validate_id-NoSlash name valid) (s.entries db) [] r
          → IsAccounted serde name (
              apply_batch
                (r.ops ++ put (stats_key name) (serde.stats_to_vec r.stats) ∷ [])
                (s.entries db))
      with_stats r done =
          rw (put_last r.ops (stats_key name) (serde.stats_to_vec r.stats) (s.entries db)) (
            insert_stats-IsAccounted serde r.stats name (apply_batch r.ops (s.entries db))
              done.sorted done.accurate)
