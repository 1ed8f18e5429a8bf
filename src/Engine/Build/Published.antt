-- ===== src/Engine/Build/Published.antt =====
-- The order in which `build_index_inner` of src/engine.rs makes an index durable: the pointer to a
-- generation is never there without all of its blocks.
use gengis_mimi.Shared.{
  ◌≡◌, refl, sym, ap, append-nil, ◌∙◌, Bool, true, false, ◌||◌, some, List, [], ◌∷◌, All, arith,
}
use gengis_mimi.Shared.Bytes.{Bytes, bytes_eq, bytes_eq_refl, starts_with}
use gengis_mimi.Config.{IndexConfig}
use gengis_mimi.Slate.{Slate}
use gengis_mimi.Slate.Action.{Ends, Ends-mono}
use gengis_mimi.Slate.Entries.{
  Entry, Op, put, delete, lookup, apply_op, apply_batch, lookup-insert, lookup-remove,
}
use gengis_mimi.Engine.Serde.{Serde}
use gengis_mimi.Engine.Keys.{name_key, item_prefix}
use gengis_mimi.Engine.Erase.Effect.{no_batch}
use gengis_mimi.Index.{IndexStatus}
use gengis_mimi.Index.Keys.{root}
use gengis_mimi.Index.Build.{Tools}
use gengis_mimi.Index.Build.Under.{Under}
use gengis_mimi.Engine.Build.{write_entries, no_entries}
use gengis_mimi.Engine.Build.Frame.{OnlyOn, Frame, Frame-written}
use gengis_mimi.Engine.Build.Stored.{puts, HasKey, write_entries-Ends}
use gengis_mimi.Engine.Build.Cleanup.{is_retired}

-- The keys that a build can change before it is published, and all that it can change.
abbrev pub is_building : Bytes → Bytes → Bytes → Bool
is_building name generation k =
    starts_with (root name generation) k || bytes_eq (name_key b'j' name) k

abbrev pub is_own : Bytes → Bytes → Bytes → Bool
is_own name generation k =
    is_building name generation k
    || (is_retired name generation k || bytes_eq (name_key b'i' name) k)

lookup_same :
    (k : Bytes) (op : Op) (es fs : List Entry)
    → lookup k es ≡ lookup k fs
    → lookup k (apply_op op es) ≡ lookup k (apply_op op fs)
unfolding apply_op
lookup_same k (put j v) es fs h = lookup-insert j k v es ∙ rw h (sym (lookup-insert j k v fs))
lookup_same k (delete j) es fs h = lookup-remove j k es ∙ rw h (sym (lookup-remove j k fs))

lookup-batch_same :
    (k : Bytes) (ops : List Op) (es fs : List Entry)
    → lookup k es ≡ lookup k fs
    → lookup k (apply_batch ops es) ≡ lookup k (apply_batch ops fs)
unfolding apply_batch
lookup-batch_same k [] es fs h = h
lookup-batch_same k (op ∷ ops) es fs h =
    lookup-batch_same k ops (apply_op op es) (apply_op op fs) (lookup_same k op es fs h)

module _ (name generation : Bytes) where
  -- A key of the generation is no mark, no pointer, and outlives the cleanup.
  pub mark_apart :
      (k : Bytes)
      → starts_with (root name generation) k ≡ true
      → bytes_eq (name_key b'j' name) k ≡ false
  unfolding root starts_with bytes_eq
  mark_apart [] h = refl
  mark_apart (b ∷ k) h = ground arith

  pointer_apart :
      (k : Bytes)
      → starts_with (root name generation) k ≡ true
      → bytes_eq (name_key b'i' name) k ≡ false
  unfolding root starts_with bytes_eq
  pointer_apart [] h = refl
  pointer_apart (b ∷ k) h = ground arith

  changes_apart :
      (k : Bytes)
      → starts_with (root name generation) k ≡ true
      → (starts_with (item_prefix b'c' name) k || bytes_eq (name_key b's' name) k) ≡ false
  unfolding root starts_with bytes_eq
  changes_apart [] h = refl
  changes_apart (b ∷ k) h = ground arith

  pub blocks_kept :
      (k : Bytes)
      → starts_with (root name generation) k ≡ true
      → is_retired name generation k ≡ false
  blocks_kept k h = let e = changes_apart k h in ground arith

  pub pointer_kept : is_retired name generation (name_key b'i' name) ≡ false
  unfolding root starts_with bytes_eq
  pointer_kept = refl

  pointer_not_built : is_building name generation (name_key b'i' name) ≡ false
  unfolding root starts_with bytes_eq
  pointer_not_built = refl

  puts-building :
      (entries : List Entry)
      → Under (root name generation) entries
      → OnlyOn (is_building name generation) (puts entries)
  puts-building [] h = tt
  puts-building ((key, value) ∷ entries) (h, hs) = (rw h refl, puts-building entries hs)

  Under-HasKey : (entries : List Entry) → Under (root name generation) entries → All HasKey entries
  unfolding root starts_with
  Under-HasKey [] h = tt
  Under-HasKey (([], value) ∷ entries) (h, hs) = absurd (cc)
  Under-HasKey ((b ∷ key, value) ∷ entries) (h, hs) = (omega arith, Under-HasKey entries hs)

module _ (s : Slate) {J : Type 0} (serde : Serde J) (tools : Tools J) (config : IndexConfig)
    (name generation : Bytes) where
  -- The blocks are all there.
  abbrev pub Stored : List Entry → List Entry → List Entry → Type 0
  Stored entries before es =
      (k : Bytes)
      → starts_with (root name generation) k ≡ true
      → lookup k es ≡ lookup k (apply_batch (puts entries) before)

  -- The pointer leads to an index whose blocks are all there, and no other key has changed but those
  -- that a cleanup may change.
  pub record Published (status : IndexStatus) (entries before es : List Entry) : Type 0 where
    pub pointer : lookup (name_key b'i' name) es ≡ some (tools.serde.status_to_vec status)
    pub blocks : Stored entries before es
    pub others : Frame (is_own name generation) before es

  -- Nothing but blocks of the new generation and the mark of a cleanup has changed.
  abbrev pub Unpublished : List Entry → List Entry → Type 0
  Unpublished = Frame (is_building name generation)

  building_own :
      (before es : List Entry) → Unpublished before es → Frame (is_own name generation) before es
  building_own before es f k e = f k (ground arith)

  pub Published-Frame :
      (may : Bytes → Bool) (status : IndexStatus) (entries before es es' : List Entry)
      → may (name_key b'i' name) ≡ false
      → ((k : Bytes) → starts_with (root name generation) k ≡ true → may k ≡ false)
      → ((k : Bytes) → is_own name generation k ≡ false → may k ≡ false)
      → Frame may es es'
      → Published status entries before es
      → Published status entries before es'
  Published-Frame may status entries before es es' one two three f h = record {
    pointer = f (name_key b'i' name) one ∙ h.pointer;
    blocks = λ k e. f k (two k e) ∙ h.blocks k e;
    others = λ k e. f k (three k e) ∙ h.others k e;
  }

  -- Marked and stored: what is there before the pointer.
  pub record Ready (entries before es : List Entry) : Type 0 where
    pub nothing_else : Unpublished before es
    pub blocks : Stored entries before es

  pub publish :
      (status : IndexStatus) (entries before es : List Entry)
      → Ready entries before es
      → Published status entries before
          (apply_batch (put (name_key b'i' name) (tools.serde.status_to_vec status) ∷ []) es)
  unfolding apply_batch apply_op
  publish status entries before es h = record {
    pointer =
        lookup-insert (name_key b'i' name) (name_key b'i' name) _ es
        ∙ rw (bytes_eq_refl (name_key b'i' name));
    blocks = λ k e.
        lookup-insert (name_key b'i' name) k _ es
        ∙ rw (pointer_apart name generation k e) (h.blocks k e);
    others = λ k e.
        lookup-insert (name_key b'i' name) k _ es
        ∙ (let not_it : bytes_eq (name_key b'i' name) k ≡ false = ground arith in
            rw not_it (h.nothing_else k (ground arith)));
  }

  -- The mark alone.
  abbrev pub is_mark : Bytes → Bool
  is_mark k = bytes_eq (name_key b'j' name) k

  pub store-Ends :
      (entries before : List Entry) (db : s.Db)
      → Under (root name generation) entries
      → Unpublished before (s.entries db)
      → Frame is_mark before (s.entries db)
      → Ends
          (λ u db'. Ready entries before (s.entries db'))
          (λ db'. Unpublished before (s.entries db'))
          (write_entries s entries no_entries db)
  store-Ends entries before db under f mark =
      let start = s.entries db in
      let only = puts-building name generation entries under in
      let may = is_building name generation in
      Ends-mono
        (write_entries-Ends s start entries [] no_entries db
          (record {
            waiting = record { written = []; content = no_batch start; together = refl };
            no_bytes = λ e. refl;
          })
          (Under-HasKey name generation entries under))
        (λ u db' w. record {
          nothing_else =
              Frame-written s may before db' start w.written [] _ w.content w.together only f;
          blocks = λ k e.
              ap (lookup k) (
                w.content
                ∙ ap (λ ops. apply_batch ops start) (sym (append-nil w.written) ∙ w.together))
              ∙ lookup-batch_same k (puts entries) start before
                  (mark k (mark_apart name generation k e));
        })
        (λ db' p.
          Frame-written s may before db' start p.written p.lost _ p.content p.together only f)
