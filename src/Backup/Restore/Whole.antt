-- ===== src/Backup/Restore/Whole.antt =====
-- A restoration is whole, or leaves a database that says so.
mod Loop
use gengis_mimi.Shared.{
  ℕ, zero, suc, ◌+◌, ◌<◌, ◌≡◌, ◌⊎◌, refl, sym, ap, ◌∙◌, Bool, true, false, inl, inr, some, List, [],
  ◌∷◌, ◌++◌, append_assoc, append-nil, arith, All, All-append, append-All, length, leb, ◌*◌,
  Bool-cases, take_exact, take_exact-append, subst,
}
use gengis_mimi.Shared.Bytes.{Bytes, IsByte, bytes_eq, bytes_eq_refl}
use gengis_mimi.Shared.Word.{to_le_bytes}
use gengis_mimi.Error.{Error, ok, reject_if}
use gengis_mimi.Slate.{Slate}
use gengis_mimi.Slate.Action.{continue, Ends, returned, Ends-continue, Ends-reads, Ends-weaken}
use gengis_mimi.Slate.Writes.{Ends-write}
use gengis_mimi.Slate.Entries.{
  Entry, Op, put, lookup, insert, apply_op, apply_batch, apply_batch-append, lookup-insert,
}
use gengis_mimi.Slate.Sorted.{IsSorted}
use gengis_mimi.Engine.Keys.{format_key, format}
use gengis_mimi.Backup.{
  header, u32_max, record_bytes, records, export_bytes, read_exact, verify, restoring,
  any_other_key, Filling, empty, add_row,
}
use gengis_mimi.Backup.Records.{IsRecord, read_record-append, read_record-footer}
use gengis_mimi.Backup.Sound.{IsExport, export_bytes-verify}
use gengis_mimi.Backup.Accepts.{length-lt-body}
use gengis_mimi.Backup.Restore.{flush, restore_records, restore}
use gengis_mimi.Backup.Restore.Puts.{puts, NotFormat, lookup-NotFormat, restored_rows, length-puts}
use Loop.{reject_if_sound, Carries-IsMarked, Filled, restore_records-Ends}

module _ (s : Slate) (sha256 : Bytes → Bytes) (file : Bytes) where
  -- The rows of the verified file are the content, and the count that of those behind the format.
  pub record IsRestored (count : ℕ) (db' : s.Db) : Type 0 where
    pub export : IsExport sha256 file
    pub content : s.entries db' ≡ export.rows
    pub all_counted : count + 1 ≡ length export.rows

  -- How a restoration may fail: nothing was written, the mark says that it is incomplete, or all was.
  abbrev pub FailedSafely : s.Db → s.Db → Type 0
  FailedSafely db db' =
      (s.entries db' ≡ s.entries db)
      ⊎ ((lookup format_key (s.entries db') ≡ some restoring) ⊎ (count : ℕ) × IsRestored count db')

  module _ (db : s.Db) (sorted : IsSorted (s.entries db))
      (only : any_other_key (s.entries db) ≡ false) where
    abbrev marked_entries : List Entry
    marked_entries = insert format_key restoring (s.entries db)

    marked-mark : lookup format_key marked_entries ≡ some restoring
    marked-mark =
        rw (lookup-insert format_key format_key restoring (s.entries db), bytes_eq_refl format_key)

    last_write :
        (x : IsExport sha256 file) (r : Filling) (db₁ db₂ : s.Db)
        → Filled s marked_entries marked-mark (puts x.rows) (length (puts x.rows)) r db₁
        → s.entries db₂ ≡ apply_batch (r.batch ++ put format_key format ∷ []) (s.entries db₁)
        → IsRestored r.count db₂
    unfolding Filled apply_batch apply_op
    last_write x r db₁ db₂ (c, e) q = record {
      export = x;
      content =
          q
          ∙ ap (apply_batch (r.batch ++ put format_key format ∷ [])) c.content
          ∙ sym
              (apply_batch-append c.written (r.batch ++ put format_key format ∷ []) marked_entries)
          ∙ ap (λ o. apply_batch o marked_entries)
              (sym (append_assoc c.written r.batch (put format_key format ∷ [])))
          ∙ ap (λ o. apply_batch (o ++ put format_key format ∷ []) marked_entries) c.together
          ∙ apply_batch-append (puts x.rows) (put format_key format ∷ []) marked_entries
          ∙ restored_rows x.rows (s.entries db) x.is_backup.sorted sorted only
              x.is_backup.has_format;
      all_counted = omega (arith, e, length-puts x.rows x.is_backup.sorted x.is_backup.has_format);
    }

    finish-Ends :
        (x : IsExport sha256 file) (r : Filling) (db₁ : s.Db)
        → Filled s marked_entries marked-mark (puts x.rows) (length (puts x.rows)) r db₁
        → Ends IsRestored (FailedSafely db) (
            continue
              (λ n db'. (ok r.count, db'))
              (s.write db₁ (r.batch ++ put format_key format ∷ [])))
    unfolding Filled
    finish-Ends x r db₁ (c, e) =
        Ends-continue
          (Ends-write s db₁ (r.batch ++ put format_key format ∷ [])
            (λ n db' q. last_write x r db₁ db' (c, e) q)
            (λ db' q. elim q [
              | inl same ↦ inr (
                  inl
                    (rw same (Carries-IsMarked s marked_entries marked-mark (puts x.rows) r db₁ c)))
              | inr applied ↦ inr (inr (r.count, last_write x r db₁ db' (c, e) applied))
            ]))
          (λ n db' done. returned done)

    -- The database after the mark, and the rest of the call.
    filling-Ends :
        (x : IsExport sha256 file) (db₁ : s.Db)
        → s.entries db₁ ≡ marked_entries
        → Ends IsRestored (FailedSafely db) (
            continue
              (λ (start, rest). (λ db₂.
                continue
                  (λ r db₃.
                    continue
                      (λ n db₄. (ok r.count, db₄))
                      (s.write db₃ (r.batch ++ put format_key format ∷ [])))
                  (restore_records s (length rest) empty rest db₂)))
              (read_exact 8 file, db₁))
    unfolding export_bytes Filled apply_batch
    filling-Ends x db₁ e =
        let foot = to_le_bytes 8 (length x.rows) ++ sha256 (header ++ records x.rows) in
        let body = records x.rows ++ (to_le_bytes 4 u32_max ++ foot) in
        let front : take_exact 8 file ≡ some (header, body) =
          subst (λ bs. take_exact 8 bs ≡ some (header, body)) x.written
            (take_exact-append 8 header body refl) in
        rw front (
          Ends-continue
            (Ends-weaken
              (restore_records-Ends s marked_entries marked-mark (length body) [] x.rows empty foot
                db₁ (length-lt-body x.rows foot) x.is_backup.all_records
                (record { written = []; content = e; together = refl; apart = tt }))
              (λ db' m. inr (inl m)))
            (λ r db' f. finish-Ends x r db' (f.0, omega (arith, f.1))))

  -- Of a file of bytes and a database in key order, `restore` ends in one of two ways. It returns,
  -- and the content is exactly the rows of which the file is the export, a complete database of
  -- this version, and the count is that of the rows without the format's. Or it fails, and the
  -- content is unchanged, or its format row is the mark of an incomplete restoration, or it is all
  -- the rows.
  pub restore-Ends :
      (db : s.Db)
      → All IsByte file
      → IsSorted (s.entries db)
      → Ends IsRestored (FailedSafely db) (restore s sha256 file db)
  unfolding restore apply_batch apply_op
  restore-Ends db all_bytes sorted = Ends-reads (verify sha256 file) db _ (inl refl) λ u accepted.
      let x = export_bytes-verify sha256 file all_bytes accepted in
      Ends-reads (s.scan db) db _ (inl refl) λ existing scanned.
        Ends-reads (reject_if (any_other_key existing) Error.conflict) db _ (inl refl) λ v passed.
          let only : any_other_key (s.entries db) ≡ false =
            rw (← s.scan_lem db scanned) (reject_if_sound (any_other_key existing) _ passed) in
          Ends-continue
            (Ends-write s db (put format_key restoring ∷ []) (λ n db₁ e. e)
              (λ db₁ e. elim e [
                | inl same ↦ inl same
                | inr applied ↦ inr (inl (rw applied (marked-mark db sorted only)))
              ]))
            (λ n db₁ e. filling-Ends db sorted only x db₁ e)
