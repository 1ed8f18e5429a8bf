-- ===== src/Slate/Writes.antt =====
-- How a batch ends, from the laws of the database.
use gengis_mimi.Shared.{ℕ, ◌≡◌, ◌⊎◌, refl, List}
use gengis_mimi.Error.{Error, Result, ok, err}
use gengis_mimi.Slate.{Slate}
use gengis_mimi.Slate.Entries.{Op, apply_batch}
use gengis_mimi.Slate.Action.{Ends, returned, failed}

split_outcome :
    {Db A : Type 0} {Q : A → Db → Type 0} {R : Db → Type 0} (p : Result A × Db)
    → ((a : A) → p.0 ≡ ok a → Q a p.1)
    → ((e : Error) → p.0 ≡ err e → R p.1)
    → Ends Q R p
split_outcome (ok a, db) yes_case no_case = returned (yes_case a refl)
split_outcome (err e, db) yes_case no_case = failed (no_case e refl)

module _ (s : Slate) (db : s.Db) (b : List Op) {Q : ℕ → s.Db → Type 0} {R : s.Db → Type 0} where
  pub Ends-write :
      ((n : ℕ) (db' : s.Db) → s.entries db' ≡ apply_batch b (s.entries db) → Q n db')
      → ((db' : s.Db)
          → (s.entries db' ≡ s.entries db) ⊎ (s.entries db' ≡ apply_batch b (s.entries db))
          → R db')
      → Ends Q R (s.write db b)
  Ends-write done lost =
      split_outcome (s.write db b) (λ n e. done n (s.write db b).1 (s.write_lem db b e))
        (λ x e. lost (s.write db b).1 (s.write_failed db b e))
