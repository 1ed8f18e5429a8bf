-- ===== src/Slate/Succeeds.antt =====
-- Actions that return on a database that never fails.
use gengis_mimi.Shared.{◌≡◌, refl, List}
use gengis_mimi.Error.{Result, ok, err}
use gengis_mimi.Slate.{Slate, IsHealthy}
use gengis_mimi.Slate.Action.{Action, continue}
use gengis_mimi.Slate.Entries.{Op}

pub data Succeeds {Db A : Type 0} : Result A × Db → Type 0 where
  succeeds : {a : A} {db : Db} → Succeeds (ok a, db)

pub Succeeds-eq : {Db A : Type 0} {p : Result A × Db} → Succeeds p → (a : A) × (p.0 ≡ ok a)
Succeeds-eq (succeeds {a} {db}) = (a, refl)

pub Succeeds-continue :
    {Db A B : Type 0} {m : Result A × Db} {f : A → Action Db B}
    → Succeeds m
    → ((a : A) (db : Db) → Succeeds (f a db))
    → Succeeds (continue f m)
Succeeds-continue (succeeds {a} {db}) k = k a db

eq-Succeeds : {Db A : Type 0} (p : Result A × Db) (a : A) → p.0 ≡ ok a → Succeeds p
eq-Succeeds (ok b, db) a e = succeeds
eq-Succeeds (err x, db) a e = cc

pub Succeeds-reads :
    {Db A B : Type 0} (r : Result A) (a : A) (db : Db) (f : A → Action Db B)
    → r ≡ ok a
    → Succeeds (f a db)
    → Succeeds (continue f (r, db))
Succeeds-reads r a db f e h = rw e h

module _ (s : Slate) (healthy : IsHealthy s) where
  pub Succeeds-write : (db : s.Db) (b : List Op) → Succeeds (s.write db b)
  Succeeds-write db b = let (n, e) = healthy.write_ok db b in eq-Succeeds (s.write db b) n e
