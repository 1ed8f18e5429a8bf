-- ===== src/Engine/Build/Cleanup.antt =====
-- What `cleanup_inner` of src/engine.rs can change: the blocks of other generations, the marks of
-- changes and the statistics.
use gengis_mimi.Shared.{
  ℕ, ◌≡◌, sym, Bool, true, false, not, ◌&&◌, ◌||◌, inl, inr, List, [], ◌∷◌, ◌++◌, All, All-append,
  append-All, arith, Bool-cases, leb, if◌then◌else◌,
}
use gengis_mimi.Shared.Bytes.{Bytes, bytes_eq, bytes_eq_refl, starts_with}
use gengis_mimi.Error.Ensures.{Ensures, returns, Ensures-bind_eq, Ensures-eq-ok}
use gengis_mimi.Slate.{Slate}
use gengis_mimi.Slate.Action.{Ends, returned, Ends-continue, Ends-reads}
use gengis_mimi.Slate.Entries.{Entry, delete, put, with_prefix}
use gengis_mimi.Engine.Serde.{Serde}
use gengis_mimi.Engine.Keys.{item_prefix, stats_key}
use gengis_mimi.Engine.Read.{revision, check_ready, stats_at}
use gengis_mimi.Index.{IndexStatus}
use gengis_mimi.Index.Keys.{root}
use gengis_mimi.Index.Chunks.{chunks, concat, concat-chunks}
use gengis_mimi.Engine.Build.{retire_chunk, retire_chunks, cleanup_inner}
use gengis_mimi.Engine.Build.Input.{indexed_keys, is_indexed, Retired, retire_key, retire_keys}
use gengis_mimi.Engine.Build.Frame.{op_key, OnlyOn, Frame, Frame-write, Frame-clear_rows}

-- The keys that a cleanup behind this generation can change.
abbrev pub is_retired : Bytes → Bytes → Bytes → Bool
is_retired name generation k =
    (starts_with (item_prefix b'g' name) k && not (starts_with (root name generation) k))
    || (starts_with (item_prefix b'c' name) k || bytes_eq (stats_key name) k)

with_prefix-All :
    (p : Bytes) (es : List Entry) → All (λ e. starts_with p e.0 ≡ true) (with_prefix p es)
unfolding with_prefix
with_prefix-All p [] = tt
with_prefix-All p ((k, v) ∷ es) = elim (Bool-cases (starts_with p k)) [
  | inl e ↦ rw e (e, with_prefix-All p es)
  | inr e ↦ rw e (with_prefix-All p es)
]

indexed_keys-All :
    (p : Bytes) (watermark : ℕ) (rows : List Entry) (keys : List Bytes)
    → All (λ e. starts_with p e.0 ≡ true) rows
    → All (λ k. starts_with p k ≡ true) keys
    → Ensures (All (λ k. starts_with p k ≡ true)) (indexed_keys watermark rows keys)
unfolding indexed_keys
indexed_keys-All p watermark [] keys h hs = returns hs
indexed_keys-All p watermark ((key, value) ∷ rows) keys (h, rest) hs =
    Ensures-bind_eq (revision value)
      λ changed e. indexed_keys-All p watermark rows _ rest (more (leb changed watermark))
  where
    more :
        (past : Bool) → All (λ k. starts_with p k ≡ true) (if past then keys ++ key ∷ [] else keys)
    more true = All-append (λ k. starts_with p k ≡ true) keys (key ∷ []) hs (h, tt)
    more false = hs

concat-All : (P : Bytes → Type 0) (cs : List (List Bytes)) → All P (concat cs) → All (All P) cs
concat-All P [] h = tt
concat-All P (c ∷ cs) h = let (a, b) = append-All P c (concat cs) h in (a, concat-All P cs b)

module _ (s : Slate) (p : Bytes) (may : Bytes → Bool)
    (inside : (k : Bytes) → starts_with p k ≡ true → may k ≡ true) where
  retire_keys-OnlyOn :
      (current : s.Db) (watermark : ℕ) (keys : List Bytes) (r : Retired)
      → All (λ k. starts_with p k ≡ true) keys
      → OnlyOn may r.ops
      → Ensures (λ (r : Retired). OnlyOn may r.ops) (retire_keys s current watermark keys r)
  unfolding retire_keys
  retire_keys-OnlyOn current watermark [] r h hs = returns hs
  retire_keys-OnlyOn current watermark (key ∷ keys) r (h, rest) hs =
      Ensures-bind_eq (s.get current key) λ found e.
        Ensures-bind_eq (is_indexed watermark found) λ past e'.
          retire_keys-OnlyOn current watermark keys (retire_key key past r) rest (more past)
    where
      more : (past : Bool) → OnlyOn may (retire_key key past r).ops
      more true =
          All-append (λ op. may (op_key op) ≡ true) r.ops (delete key ∷ []) hs (inside key h, tt)
      more false = hs

module _ (s : Slate) {J : Type 0} (serde : Serde J) (name generation : Bytes)
    (before : List Entry) where
  abbrev Untouched : s.Db → Type 0
  Untouched db = Frame (is_retired name generation) before (s.entries db)

  retire_chunk-Untouched :
      (watermark : ℕ) (keys : List Bytes) (db : s.Db)
      → All (λ k. starts_with (item_prefix b'c' name) k ≡ true) keys
      → Untouched db
      → Ends (λ u db'. Untouched db') Untouched (retire_chunk s serde name watermark keys db)
  unfolding retire_chunk
  retire_chunk-Untouched watermark keys db h f =
      Ends-reads (stats_at s serde db name) db _ f λ stats e.
        Ends-reads (retire_keys s db watermark keys (record { ops = []; stats = stats })) db _ f
          λ r e'.
            let only =
              Ensures-eq-ok
                (retire_keys-OnlyOn s (item_prefix b'c' name) (is_retired name generation)
                  (λ k e. ground arith) db watermark keys (record { ops = []; stats = stats }) h tt)
                e' in
            Ends-continue
              (Frame-write s (is_retired name generation) before db _
                (All-append (λ op. is_retired name generation (op_key op) ≡ true) r.ops
                  (put (stats_key name) (serde.stats_to_vec r.stats) ∷ []) only (own_stats, tt))
                f)
              λ n db' f'. returned f'
    where
      own_stats : is_retired name generation (stats_key name) ≡ true
      own_stats = let e = bytes_eq_refl (stats_key name) in ground arith

  retire_chunks-Untouched :
      (watermark : ℕ) (rest : List (List Bytes)) (db : s.Db)
      → All (All (λ k. starts_with (item_prefix b'c' name) k ≡ true)) rest
      → Untouched db
      → Ends (λ u db'. Untouched db') Untouched (retire_chunks s serde name watermark rest db)
  unfolding retire_chunks
  retire_chunks-Untouched watermark [] db h f = returned f
  retire_chunks-Untouched watermark (keys ∷ rest) db (h, hs) f =
      Ends-continue (retire_chunk-Untouched watermark keys db h f)
        λ u db' f'. retire_chunks-Untouched watermark rest db' hs f'

  pub cleanup_inner-Untouched :
      (status : IndexStatus) (db : s.Db)
      → status.generation ≡ generation
      → Untouched db
      → Ends (λ u db'. Untouched db') Untouched (cleanup_inner s serde name status db)
  unfolding cleanup_inner
  cleanup_inner-Untouched status db own f = Ends-reads (check_ready s db) db _ f λ u e.
      Ends-reads (s.scan_prefix db (item_prefix b'g' name)) db _ f λ rows e'.
        Ends-continue
          (Frame-clear_rows s (is_retired name generation) before
            (starts_with (root name status.generation)) rows db
            (rw (s.scan_prefix_lem db (item_prefix b'g' name) e', own)
              (blocks (with_prefix (item_prefix b'g' name) (s.entries db))
                (with_prefix-All (item_prefix b'g' name) (s.entries db))))
            f)
          λ u db' f'. Ends-reads (s.scan_prefix db (item_prefix b'c' name)) db' _ f' λ changes e''.
            let marks =
              rw (sym (s.scan_prefix_lem db (item_prefix b'c' name) e'')) at
                (with_prefix-All (item_prefix b'c' name) (s.entries db)) in
            Ends-reads (indexed_keys status.revision changes []) db' _ f' λ keys e'''.
              let all_marks =
                Ensures-eq-ok
                  (indexed_keys-All (item_prefix b'c' name) status.revision changes [] marks tt)
                  e''' in
              retire_chunks-Untouched status.revision (chunks 1000 keys) db'
                (concat-All (λ k. starts_with (item_prefix b'c' name) k ≡ true) (chunks 1000 keys)
                  (rw (concat-chunks 1000 keys) all_marks))
                f'
    where
      blocks :
          (rows : List Entry)
          → All (λ e. starts_with (item_prefix b'g' name) e.0 ≡ true) rows
          → All
              (λ e.
                starts_with (root name generation) e.0 ≡ false
                → is_retired name generation e.0 ≡ true)
              rows
      blocks [] h = tt
      blocks ((k, v) ∷ rows) (h, hs) = ((λ e. ground arith), blocks rows hs)
