-- ===== src/Backup/Restore/Whole/Loop.antt =====
-- The loop of `restore`: what it has written and what waits.
use gengis_mimi.Shared.{
  ℕ, zero, suc, ◌+◌, ◌<◌, ◌≡◌, refl, sym, ap, ◌∙◌, Bool, true, false, inl, inr, some, List, [], ◌∷◌,
  ◌++◌, append_assoc, append-nil, arith, All, All-append, append-All, length, leb, ◌*◌, Bool-cases,
}
use gengis_mimi.Shared.Bytes.{Bytes, bytes_eq}
use gengis_mimi.Shared.Word.{to_le_bytes}
use gengis_mimi.Error.{Error, ok, reject_if}
use gengis_mimi.Slate.{Slate}
use gengis_mimi.Slate.Action.{Ends, returned, Ends-continue}
use gengis_mimi.Slate.Writes.{Ends-write}
use gengis_mimi.Slate.Entries.{Entry, Op, put, lookup, apply_batch, apply_batch-append}
use gengis_mimi.Engine.Keys.{format_key}
use gengis_mimi.Backup.{u32_max, record_bytes, records, restoring, Filling, add_row}
use gengis_mimi.Backup.Records.{IsRecord, read_record-append, read_record-footer}
use gengis_mimi.Backup.Restore.{flush, restore_records}
use gengis_mimi.Backup.Restore.Puts.{puts, NotFormat, lookup-NotFormat}

pub add_one : (a b : ℕ) → a + 1 + b ≡ a + suc b
add_one a b = omega arith

pub reject_if_sound : (b : Bool) (e : Error) {u : Unit {0}} → reject_if b e ≡ ok u → b ≡ false
reject_if_sound true e h = cc
reject_if_sound false e h = refl

module _ (s : Slate) (marked : List Entry) (mark : lookup format_key marked ≡ some restoring) where
  -- The database says that a restoration did not end.
  abbrev pub IsMarked : s.Db → Type 0
  IsMarked db = lookup format_key (s.entries db) ≡ some restoring

  -- What is written and what waits in the batch are some operations, none of them on the format.
  pub record Carries (ops : List Op) (r : Filling) (db : s.Db) : Type 0 where
    pub written : List Op
    pub content : s.entries db ≡ apply_batch written marked
    pub together : written ++ r.batch ≡ ops
    pub apart : All NotFormat ops

  pub IsMarked-content :
      (ops : List Op) (db : s.Db)
      → All NotFormat ops
      → s.entries db ≡ apply_batch ops marked
      → IsMarked db
  IsMarked-content ops db h e = rw e (lookup-NotFormat ops marked h ∙ mark)

  pub Carries-IsMarked : (ops : List Op) (r : Filling) (db : s.Db) → Carries ops r db → IsMarked db
  Carries-IsMarked ops r db c =
      let (h, k) = append-All NotFormat c.written r.batch (rw (sym c.together) at c.apart) in
      IsMarked-content c.written db h c.content

  pub flush-Ends :
      (ops : List Op) (r : Filling) (db : s.Db)
      → Carries ops r db
      → Ends (λ r' db'. Carries ops r' db' × (r'.count ≡ r.count)) IsMarked (flush s r db)
  unfolding flush apply_batch
  flush-Ends ops r db c = elim (Bool-cases (leb (1024 * 1024) r.size)) [
    | inl full ↦
        let all_written = λ (db' : s.Db) (e : s.entries db' ≡ apply_batch r.batch (s.entries db)).
          let q : s.entries db' ≡ apply_batch ops marked =
            e
            ∙ ap (apply_batch r.batch) c.content
            ∙ sym (apply_batch-append c.written r.batch marked)
            ∙ ap (λ o. apply_batch o marked) c.together in
          q in
        rw full (
          Ends-continue
            (Ends-write s db r.batch (λ n db' e. all_written db' e)
              (λ db' e. elim e [
                | inl same ↦ rw same (Carries-IsMarked ops r db c)
                | inr applied ↦ IsMarked-content ops db' c.apart (all_written db' applied)
              ]))
            (λ n db' q. returned (
              record { written = ops; content = q; together = append-nil ops; apart = c.apart },
              refl,
            )))
    | inr room ↦ rw room (returned (c, refl))
  ]

  pub add_row-Carries :
      (ops : List Op) (r : Filling) (db : s.Db) (key value : Bytes)
      → bytes_eq key format_key ≡ false
      → Carries ops r db
      → Carries (ops ++ put key value ∷ []) (add_row key value r) db
  add_row-Carries ops r db key value other c = record {
    written = c.written;
    content = c.content;
    together =
        sym (append_assoc c.written r.batch (put key value ∷ []))
        ∙ ap (λ o. o ++ put key value ∷ []) c.together;
    apart = All-append NotFormat ops (put key value ∷ []) c.apart (other, tt);
  }

  -- What the loop has when it ends.
  unfoldable pub Filled : List Op → ℕ → Filling → s.Db → Type 0
  Filled ops count r db = Carries ops r db × (r.count ≡ count)

  pub restore_records-Ends :
      (fuel : ℕ) (ops : List Op) (rows : List Entry) (r : Filling) (rest : Bytes) (db : s.Db)
      → length rows < fuel
      → All IsRecord rows
      → Carries ops r db
      → Ends
          (Filled (ops ++ puts rows) (r.count + length (puts rows)))
          IsMarked
          (restore_records s fuel r (records rows ++ (to_le_bytes 4 u32_max ++ rest)) db)
  unfolding restore_records records Filled
  restore_records-Ends zero ops rows r rest db less fits c = absurd (omega arith)
  restore_records-Ends (suc fuel) ops [] r rest db less fits c =
      rw (read_record-footer rest, append-nil ops) (returned (c, omega arith))
  restore_records-Ends (suc fuel) ops ((key, value) ∷ rows) r rest db less (fit, fits) c =
      let tail = to_le_bytes 4 u32_max ++ rest in
      rw
        (
          append_assoc (record_bytes key value) (records rows) tail,
          read_record-append key value (records rows ++ tail) fit,
        )
        (elim (Bool-cases (bytes_eq key format_key)) [
          | inl same ↦ rw same (restore_records-Ends fuel ops rows r rest db (omega arith) fits c)
          | inr other ↦
              let ops' = ops ++ put key value ∷ [] in
              rw other (
                Ends-continue
                  (flush-Ends ops' (add_row key value r) db
                    (add_row-Carries ops r db key value other c))
                  λ r' db' (c', e).
                    (rw
                      (
                        append_assoc ops (put key value ∷ []) (puts rows),
                        ap (λ n. n + length (puts rows)) e ∙ add_one r.count (length (puts rows)),
                      )
                      at (restore_records-Ends fuel ops' rows r' rest db' (omega arith) fits c')))
        ])
