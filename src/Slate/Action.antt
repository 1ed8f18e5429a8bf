-- ===== src/Slate/Action.antt =====
-- Actions on a database that may fail, and what holds where they end.
use gengis_mimi.Shared.{◌≡◌, refl, subst}
use gengis_mimi.Error.{Error, Result, ok, err, ok-injective}

-- The state is kept where an action fails: `?` returns early, and undoes nothing.
abbrev pub Action : Type 0 → Type 0 → Type 0
Action Db A = Db → Result A × Db

abbrev pub continue : {Db A B : Type 0} → (A → Action Db B) → Result A × Db → Result B × Db
continue f (ok a, db) = f a db
continue f (err e, db) = (err e, db)

module _ {Db A B : Type 0} where
  infixl 5 ◌>>=◌ ◌>>◌
  abbrev pub ◌>>=◌ : Action Db A → (A → Action Db B) → Action Db B
  ◌>>=◌ m f db = continue f (m db)

  abbrev pub ◌>>◌ : Action Db A → Action Db B → Action Db B
  m >> k = m >>= λ _. k

module _ {Db A : Type 0} where
  abbrev pub pure : A → Action Db A
  pure a db = (ok a, db)

  -- What changes nothing.
  abbrev pub lift : Result A → Action Db A
  lift r db = (r, db)

  -- What only reads.
  abbrev pub reads : (Db → Result A) → Action Db A
  reads f db = (f db, db)

-- `Q` holds of a value that was returned and of the database, and `R` of the database after an error.
pub data Ends {Db A : Type 0} (Q : A → Db → Type 0) (R : Db → Type 0) : Result A × Db → Type 0 where
  returned : {a : A} {db : Db} → Q a db → Ends Q R (ok a, db)
  failed : {e : Error} {db : Db} → R db → Ends Q R (err e, db)

module _ {Db A B : Type 0} {P : A → Db → Type 0} {Q : B → Db → Type 0} {R : Db → Type 0} where
  pub Ends-continue :
      {m : Result A × Db} {f : A → Action Db B}
      → Ends P R m
      → ((a : A) (db : Db) → P a db → Ends Q R (f a db))
      → Ends Q R (continue f m)
  Ends-continue (returned {a} {db} h) k = k a db h
  Ends-continue (failed h) k = failed h

module _ {Db A B : Type 0} {Q : B → Db → Type 0} {R : Db → Type 0} where
  pub Ends-reads :
      (r : Result A) (db : Db) (f : A → Action Db B)
      → R db
      → ((a : A) → r ≡ ok a → Ends Q R (f a db))
      → Ends Q R (continue f (r, db))
  Ends-reads (ok a) db f h k = k a refl
  Ends-reads (err e) db f h k = failed h

module _ {Db A : Type 0} {Q : A → Db → Type 0} {R : Db → Type 0} where
  pub Ends-ok : {p : Result A × Db} {a : A} → Ends Q R p → p.0 ≡ ok a → Q a p.1
  Ends-ok (returned {a} {db} h) e = subst (λ x. Q x db) (ok-injective e) h
  Ends-ok (failed h) e = cc

  -- What holds of the database either way.
  pub Ends-state :
      {S : Db → Type 0} {p : Result A × Db}
      → Ends Q R p
      → ((a : A) (db : Db) → Q a db → S db)
      → ((db : Db) → R db → S db)
      → S p.1
  Ends-state (returned {a} {db} h) yes_case no_case = yes_case a db h
  Ends-state (failed {e} {db} h) yes_case no_case = no_case db h

module _ {Db A : Type 0} {Q : A → Db → Type 0} {R R' : Db → Type 0} where
  pub Ends-weaken : {p : Result A × Db} → Ends Q R p → ((db : Db) → R db → R' db) → Ends Q R' p
  Ends-weaken (returned {a} {db} h) k = returned h
  Ends-weaken (failed {e} {db} h) k = failed (k db h)

module _ {Db A : Type 0} {P Q : A → Db → Type 0} {R R' : Db → Type 0} where
  pub Ends-mono :
      {p : Result A × Db}
      → Ends P R p
      → ((a : A) (db : Db) → P a db → Q a db)
      → ((db : Db) → R db → R' db)
      → Ends Q R' p
  Ends-mono (returned {a} {db} h) f g = returned (f a db h)
  Ends-mono (failed {e} {db} h) f g = failed (g db h)
