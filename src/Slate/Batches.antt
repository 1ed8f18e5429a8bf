-- ===== src/Slate/Batches.antt =====
-- A stretch of operations written in batches: what is written, and what waits.
use gengis_mimi.Shared.{◌≡◌, inl, inr, sym, ap, ◌∙◌, List, [], ◌++◌, append_assoc, append-nil}
use gengis_mimi.Slate.{Slate}
use gengis_mimi.Slate.Action.{Ends}
use gengis_mimi.Slate.Writes.{Ends-write}
use gengis_mimi.Slate.Entries.{Entry, Op, apply_batch, apply_batch-append}

module _ (s : Slate) (start : List Entry) where
  -- Of some operations the first are written, and the others wait.
  pub record Waiting (ops waiting : List Op) (db : s.Db) : Type 0 where
    pub written : List Op
    pub content : s.entries db ≡ apply_batch written start
    pub together : written ++ waiting ≡ ops

  -- Some of the operations took effect, in order.
  pub record Partly (ops : List Op) (db : s.Db) : Type 0 where
    pub written : List Op
    pub lost : List Op
    pub content : s.entries db ≡ apply_batch written start
    pub together : written ++ lost ≡ ops

  pub Waiting-Partly : (ops waiting : List Op) (db : s.Db) → Waiting ops waiting db → Partly ops db
  Waiting-Partly ops waiting db w = record {
    written = w.written;
    lost = waiting;
    content = w.content;
    together = w.together;
  }

  pub Waiting-push :
      (ops waiting more : List Op) (db : s.Db)
      → Waiting ops waiting db
      → Waiting (ops ++ more) (waiting ++ more) db
  Waiting-push ops waiting more db w = record {
    written = w.written;
    content = w.content;
    together = sym (append_assoc w.written waiting more) ∙ ap (λ o. o ++ more) w.together;
  }

  pub Partly-append : (ops more : List Op) (db : s.Db) → Partly ops db → Partly (ops ++ more) db
  Partly-append ops more db p = record {
    written = p.written;
    lost = p.lost ++ more;
    content = p.content;
    together = sym (append_assoc p.written p.lost more) ∙ ap (λ o. o ++ more) p.together;
  }

  all_written :
      (ops waiting : List Op) (db db' : s.Db)
      → Waiting ops waiting db
      → s.entries db' ≡ apply_batch waiting (s.entries db)
      → s.entries db' ≡ apply_batch ops start
  all_written ops waiting db db' w e =
      e
      ∙ ap (apply_batch waiting) w.content
      ∙ sym (apply_batch-append w.written waiting start)
      ∙ ap (λ o. apply_batch o start) w.together

  -- The write of what waits.
  pub Ends-Waiting :
      (ops waiting : List Op) (db : s.Db)
      → Waiting ops waiting db
      → Ends (λ n db'. Waiting ops [] db') (Partly ops) (s.write db waiting)
  Ends-Waiting ops waiting db w =
      Ends-write s db waiting
        (λ n db' e. record {
          written = ops;
          content = all_written ops waiting db db' w e;
          together = append-nil ops;
        })
        (λ db' e. elim e [
          | inl same ↦ record {
            written = w.written;
            lost = waiting;
            content = same ∙ w.content;
            together = w.together;
          }
          | inr applied ↦ record {
            written = ops;
            lost = [];
            content = all_written ops waiting db db' w applied;
            together = append-nil ops;
          }
        ])
