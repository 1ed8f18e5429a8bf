-- ===== src/Engine/Build/Stored.antt =====
-- The loop of src/engine.rs that stores the entries of a build: all of them, or the first.
use gengis_mimi.Shared.{
  ◌*◌, ◌<◌, ◌≡◌, refl, sym, inl, inr, List, [], ◌∷◌, ◌++◌, append_assoc, append-nil, length, All,
  arith, Bool-cases, ltb, leb,
}
use gengis_mimi.Slate.{Slate}
use gengis_mimi.Slate.Action.{Ends, returned, Ends-continue, Ends-weaken}
use gengis_mimi.Slate.Entries.{Entry, Op, put}
use gengis_mimi.Slate.Batches.{Waiting, Partly, Waiting-push, Partly-append, Ends-Waiting}
use gengis_mimi.Engine.Build.{EntryBatch, add_entry, store_full, store_rest, write_entries}

abbrev pub puts : List Entry → List Op
puts [] = []
puts ((key, value) ∷ entries) = put key value ∷ puts entries

abbrev pub HasKey : Entry → Type 0
HasKey e = 0 < length e.0

module _ (s : Slate) (start : List Entry) where
  -- Of the operations so far the last are in the batch, which has no bytes only where it is empty.
  pub record Fills (ready : List Op) (b : EntryBatch) (db : s.Db) : Type 0 where
    pub waiting : Waiting s start ready b.ops db
    pub no_bytes : b.bytes ≡ 0 → b.ops ≡ []

  store_full-Ends :
      (ready : List Op) (b : EntryBatch) (db : s.Db)
      → Fills ready b db
      → Ends (Fills ready) (Partly s start ready) (store_full s b db)
  unfolding store_full
  store_full-Ends ready b db h = elim (Bool-cases (leb (1024 * 1024) b.bytes)) [
    | inl full ↦ rw full (
        Ends-continue (Ends-Waiting s start ready b.ops db h.waiting)
          λ n db' w. returned (record { waiting = w; no_bytes = λ e. refl }))
    | inr room ↦ rw room (returned h)
  ]

  store_rest-Ends :
      (ready : List Op) (b : EntryBatch) (db : s.Db)
      → Fills ready b db
      → Ends (λ u db'. Waiting s start ready [] db') (Partly s start ready) (store_rest s b db)
  unfolding store_rest
  store_rest-Ends ready b db h = elim (Bool-cases (ltb 0 b.bytes)) [
    | inl some_left ↦
        rw some_left
          (Ends-continue (Ends-Waiting s start ready b.ops db h.waiting) λ n db' w. returned w)
    | inr nothing ↦ rw nothing (returned (rw (h.no_bytes (ground arith)) at h.waiting))
  ]

  pub write_entries-Ends :
      (entries : List Entry) (ready : List Op) (b : EntryBatch) (db : s.Db)
      → Fills ready b db
      → All HasKey entries
      → Ends
          (λ u db'. Waiting s start (ready ++ puts entries) [] db')
          (Partly s start (ready ++ puts entries))
          (write_entries s entries b db)
  unfolding write_entries
  write_entries-Ends [] ready b db h keys = rw (append-nil ready) (store_rest-Ends ready b db h)
  write_entries-Ends ((key, value) ∷ entries) ready b db h (named, keys) =
      let next = ready ++ put key value ∷ [] in
      rw (sym (append_assoc ready (put key value ∷ []) (puts entries))) (
        Ends-continue
          (Ends-weaken
            (store_full-Ends next (add_entry key value b) db (record {
              waiting = Waiting-push s start ready b.ops (put key value ∷ []) db h.waiting;
              no_bytes = λ e. absurd (omega arith);
            }))
            (λ db' p. Partly-append s start next (puts entries) db' p))
          (λ b' db' h'. write_entries-Ends entries next b' db' h' keys))
