-- ===== src/Engine/Build/Frame.antt =====
-- Which keys the steps of the index job of src/engine.rs can change.
use gengis_mimi.Shared.{
  ◌≡◌, ◌⊎◌, refl, sym, ◌∙◌, Bool, true, false, inl, inr, List, [], ◌∷◌, ◌++◌, All, append-All,
  Bool-cases,
}
use gengis_mimi.Shared.Bytes.{Bytes, bytes_eq, bytes_eq_iff}
use gengis_mimi.Slate.{Slate}
use gengis_mimi.Slate.Action.{Ends, Ends-mono}
use gengis_mimi.Slate.Entries.{
  Entry, Op, put, delete, lookup, apply_op, apply_batch, lookup-insert, lookup-remove,
}
use gengis_mimi.Slate.Writes.{Ends-write}
use gengis_mimi.Slate.Deletes.{deletes}
use gengis_mimi.Engine.Erase.{no_ops, clear_rows}
use gengis_mimi.Engine.Erase.Effect.{no_batch}
use gengis_mimi.Engine.Erase.Rows.{dropped, clear_rows-Ends}

abbrev pub op_key : Op → Bytes
op_key (put k v) = k
op_key (delete k) = k

-- Every operation is on a key that passes the test.
abbrev pub OnlyOn : (Bytes → Bool) → List Op → Type 0
OnlyOn may = All (λ op. may (op_key op) ≡ true)

-- The keys that do not pass it hold what they held.
abbrev pub Frame : (Bytes → Bool) → List Entry → List Entry → Type 0
Frame may before es = (k : Bytes) → may k ≡ false → lookup k es ≡ lookup k before

other_key : (may : Bytes → Bool) (j k : Bytes) → may j ≡ true → may k ≡ false → bytes_eq j k ≡ false
other_key may j k h e = elim (Bool-cases (bytes_eq j k)) [
  | inl same ↦ let h' = rw ((bytes_eq_iff j k).0 same) at h in cc
  | inr other ↦ other
]

Frame-op :
    (may : Bytes → Bool) (before es : List Entry) (op : Op)
    → may (op_key op) ≡ true
    → Frame may before es
    → Frame may before (apply_op op es)
unfolding apply_op
Frame-op may before es (put j v) h f k e =
    lookup-insert j k v es ∙ rw (other_key may j k h e) (f k e)
Frame-op may before es (delete j) h f k e =
    lookup-remove j k es ∙ rw (other_key may j k h e) (f k e)

pub Frame-batch :
    (may : Bytes → Bool) (before es : List Entry) (ops : List Op)
    → OnlyOn may ops
    → Frame may before es
    → Frame may before (apply_batch ops es)
unfolding apply_batch
Frame-batch may before es [] h f = f
Frame-batch may before es (op ∷ ops) (h, hs) f =
    Frame-batch may before (apply_op op es) ops hs (Frame-op may before es op h f)

module _ (s : Slate) (may : Bytes → Bool) (before : List Entry) where
  pub Frame-write :
      (db : s.Db) (ops : List Op)
      → OnlyOn may ops
      → Frame may before (s.entries db)
      → Ends
          (λ n db'. Frame may before (s.entries db'))
          (λ db'. Frame may before (s.entries db'))
          (s.write db ops)
  Frame-write db ops h f =
      Ends-write s db ops (λ n db' e. rw e (Frame-batch may before (s.entries db) ops h f)) lost
    where
      lost :
          (db' : s.Db)
          → (s.entries db' ≡ s.entries db) ⊎ (s.entries db' ≡ apply_batch ops (s.entries db))
          → Frame may before (s.entries db')
      lost db' (inl e) = rw e f
      lost db' (inr e) = rw e (Frame-batch may before (s.entries db) ops h f)

  -- Of operations on those keys, the first.
  pub Frame-written :
      (db : s.Db) (start : List Entry) (written lost ops : List Op)
      → s.entries db ≡ apply_batch written start
      → written ++ lost ≡ ops
      → OnlyOn may ops
      → Frame may before start
      → Frame may before (s.entries db)
  Frame-written db start written lost ops e together h f =
      let h' = append-All (λ op. may (op_key op) ≡ true) written lost (rw (sym together) at h) in
      rw e (Frame-batch may before start written h'.0 f)

  OnlyOn-dropped :
      (keep : Bytes → Bool) (rows : List Entry)
      → All (λ e. keep e.0 ≡ false → may e.0 ≡ true) rows
      → OnlyOn may (deletes (dropped keep rows))
  OnlyOn-dropped keep [] h = tt
  OnlyOn-dropped keep ((key, value) ∷ rows) (h, hs) = elim (Bool-cases (keep key)) [
    | inl kept ↦ rw kept (OnlyOn-dropped keep rows hs)
    | inr other ↦ rw other (h other, OnlyOn-dropped keep rows hs)
  ]

  pub Frame-clear_rows :
      (keep : Bytes → Bool) (rows : List Entry) (db : s.Db)
      → All (λ e. keep e.0 ≡ false → may e.0 ≡ true) rows
      → Frame may before (s.entries db)
      → Ends
          (λ u db'. Frame may before (s.entries db'))
          (λ db'. Frame may before (s.entries db'))
          (clear_rows s keep rows no_ops db)
  Frame-clear_rows keep rows db h f =
      let only = OnlyOn-dropped keep rows h in
      Ends-mono
        (clear_rows-Ends s (s.entries db) keep rows [] no_ops db (record {
          waiting = record { written = []; content = no_batch (s.entries db); together = refl };
          counted = refl;
        }))
        (λ u db' w. Frame-written db' (s.entries db) w.written [] _ w.content w.together only f)
        (λ db' p. Frame-written db' (s.entries db) p.written p.lost _ p.content p.together only f)
