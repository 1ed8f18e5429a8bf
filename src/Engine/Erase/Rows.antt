-- ===== src/Engine/Erase/Rows.antt =====
-- The deletion of rows in batches.
use gengis_mimi.Shared.{
  ℕ, ◌+◌, ◌≡◌, refl, sym, ap, Bool, false, inl, inr, List, [], ◌∷◌, ◌++◌, append_assoc, append-nil,
  length, length-append, ltb, ◌==◌, arith, Bool-cases, if◌then◌else◌,
}
use gengis_mimi.Shared.Bytes.{Bytes}
use gengis_mimi.Slate.{Slate}
use gengis_mimi.Slate.Action.{Ends, returned, Ends-continue, Ends-weaken}
use gengis_mimi.Slate.Entries.{Entry, Op, delete}
use gengis_mimi.Slate.Batches.{Waiting, Partly, Waiting-push, Partly-append, Ends-Waiting}
use gengis_mimi.Slate.Deletes.{deletes, keys_of}
use gengis_mimi.Engine.Erase.{Batch, drop_row, flush_full, flush_rest, clear_rows}

-- The keys of the rows that are not kept.
abbrev pub dropped : (Bytes → Bool) → List Entry → List Bytes
dropped keep [] = []
dropped keep ((key, value) ∷ rows) =
    let rest = dropped keep rows in if keep key then rest else key ∷ rest

pub dropped-all : (rows : List Entry) → dropped (λ key. false) rows ≡ keys_of rows
dropped-all [] = refl
dropped-all ((key, value) ∷ rows) = ap (λ l. key ∷ l) (dropped-all rows)

no_ops_left : (ops : List Op) (n : ℕ) → n ≡ length ops → ltb 0 n ≡ false → ops ≡ []
no_ops_left [] n e h = refl
no_ops_left (op ∷ ops) n e h = absurd (ground arith)

counted_more : (n : ℕ) (ops : List Op) (op : Op) → n ≡ length ops → n + 1 ≡ length (ops ++ op ∷ [])
counted_more n ops op e = omega (arith, e, length-append ops (op ∷ []))

module _ (s : Slate) (start : List Entry) where
  -- The batch holds what waits, and counts it.
  pub record Holds (ops : List Op) (b : Batch) (db : s.Db) : Type 0 where
    pub waiting : Waiting s start ops b.ops db
    pub counted : b.count ≡ length b.ops

  flush_full-Ends :
      (ops : List Op) (b : Batch) (db : s.Db)
      → Holds ops b db
      → Ends (Holds ops) (Partly s start ops) (flush_full s b db)
  unfolding flush_full
  flush_full-Ends ops b db h = elim (Bool-cases (b.count == 1000)) [
    | inl full ↦ rw full (
        Ends-continue (Ends-Waiting s start ops b.ops db h.waiting)
          λ n db' w. returned (record { waiting = w; counted = refl }))
    | inr room ↦ rw room (returned h)
  ]

  flush_rest-Ends :
      (ops : List Op) (b : Batch) (db : s.Db)
      → Holds ops b db
      → Ends (λ u db'. Waiting s start ops [] db') (Partly s start ops) (flush_rest s b db)
  unfolding flush_rest
  flush_rest-Ends ops b db h = elim (Bool-cases (ltb 0 b.count)) [
    | inl some_left ↦
        rw some_left
          (Ends-continue (Ends-Waiting s start ops b.ops db h.waiting) λ n db' w. returned w)
    | inr none_left ↦
        rw none_left (returned (rw (no_ops_left b.ops b.count h.counted none_left) at h.waiting))
  ]

  drop_row-Holds :
      (keep : Bytes → Bool) (ops : List Op) (b : Batch) (db : s.Db) (key value : Bytes)
      → Holds ops b db
      → Holds (ops ++ deletes (dropped keep ((key, value) ∷ []))) (drop_row keep key b) db
  drop_row-Holds keep ops b db key value h = elim (Bool-cases (keep key)) [
    | inl kept ↦ rw (kept, append-nil ops) h
    | inr other ↦ rw other (record {
      waiting = Waiting-push s start ops b.ops (delete key ∷ []) db h.waiting;
      counted = counted_more b.count b.ops (delete key) h.counted;
    })
  ]

  dropped-cons :
      (keep : Bytes → Bool) (ops : List Op) (key value : Bytes) (rows : List Entry)
      → (ops ++ deletes (dropped keep ((key, value) ∷ []))) ++ deletes (dropped keep rows)
        ≡ ops ++ deletes (dropped keep ((key, value) ∷ rows))
  dropped-cons keep ops key value rows = elim (Bool-cases (keep key)) [
    | inl kept ↦ rw (kept, append-nil ops)
    | inr other ↦ rw other (append_assoc ops (delete key ∷ []) (deletes (dropped keep rows)))
  ]

  -- All that is dropped is deleted, or the first of it.
  pub clear_rows-Ends :
      (keep : Bytes → Bool) (rows : List Entry) (ops : List Op) (b : Batch) (db : s.Db)
      → Holds ops b db
      → Ends
          (λ u db'. Waiting s start (ops ++ deletes (dropped keep rows)) [] db')
          (Partly s start (ops ++ deletes (dropped keep rows)))
          (clear_rows s keep rows b db)
  unfolding clear_rows
  clear_rows-Ends keep [] ops b db h = rw (append-nil ops) (flush_rest-Ends ops b db h)
  clear_rows-Ends keep ((key, value) ∷ rows) ops b db h =
      let more = ops ++ deletes (dropped keep ((key, value) ∷ [])) in
      rw (sym (dropped-cons keep ops key value rows)) (
        Ends-continue
          (Ends-weaken
            (flush_full-Ends more (drop_row keep key b) db
              (drop_row-Holds keep ops b db key value h))
            (λ db' p. Partly-append s start more (deletes (dropped keep rows)) db' p))
          (λ b' db' h'. clear_rows-Ends keep rows more b' db' h'))
