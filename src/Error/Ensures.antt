-- ===== src/Error/Ensures.antt =====
-- Postconditions of code that may fail: what holds of its value when it returns one.
use gengis_mimi.Shared.{◌≡◌, refl, Bool, true, false, Option, none, some, subst, ◌⊎◌, inl, inr}
use gengis_mimi.Error.{Error, Result, ok, err, ◌>>=◌, ◌>>◌, reject_if, ok_or}

pub data Ensures {ℓ κ} {A : Type ℓ} (P : A → Type κ) : Result A → Type (ℓ ⊔ κ) where
  returns : {a : A} → P a → Ensures P (ok a)
  fails : {e : Error} → Ensures P (err e)

module _ {ℓ κ} {A : Type ℓ} {P : A → Type κ} where
  pub Ensures-eq-ok : {r : Result A} {a : A} → Ensures P r → r ≡ ok a → P a
  Ensures-eq-ok (returns h) e = subst P (cc) h
  Ensures-eq-ok fails e = cc

module _ {ℓ κ λ' κ'} {A : Type ℓ} {P : A → Type κ} {B : Type λ'} {Q : B → Type κ'} where
  pub Ensures-bind :
      {r : Result A} {f : A → Result B}
      → Ensures P r
      → ((a : A) → P a → Ensures Q (f a))
      → Ensures Q (r >>= f)
  Ensures-bind (returns {a} h) k = k a h
  Ensures-bind fails k = fails

module _ {ℓ κ} {A : Type ℓ} {P : A → Type κ} where
  -- What is known of a value from how it was returned.
  pub Ensures-eq : (r : Result A) → ((a : A) → r ≡ ok a → P a) → Ensures P r
  Ensures-eq (ok a) k = returns (k a refl)
  Ensures-eq (err e) k = fails

module _ {ℓ λ' κ'} {A : Type ℓ} {B : Type λ'} {Q : B → Type κ'} where
  -- The rest may use that `r` returned the value.
  pub Ensures-bind_eq :
      (r : Result A) {f : A → Result B}
      → ((a : A) → r ≡ ok a → Ensures Q (f a))
      → Ensures Q (r >>= f)
  Ensures-bind_eq (ok a) k = k a refl
  Ensures-bind_eq (err e) k = fails

  pub Ensures-ok_or :
      (o : Option A) (e : Error) {f : A → Result B}
      → ((a : A) → o ≡ some a → Ensures Q (f a))
      → Ensures Q (ok_or o e >>= f)
  Ensures-ok_or none e k = fails
  Ensures-ok_or (some a) e k = k a refl

module _ {λ' κ'} {B : Type λ'} {Q : B → Type κ'} where
  pub Ensures-reject_if :
      (b : Bool) (e : Error) {r : Result B}
      → (b ≡ false → Ensures Q r)
      → Ensures Q (reject_if b e >> r)
  Ensures-reject_if true e k = fails
  Ensures-reject_if false e k = k refl

module _ {ℓ κ κ'} {A : Type ℓ} {P : A → Type κ} {Q : A → Type κ'} where
  pub Ensures-mono : {r : Result A} → Ensures P r → ((a : A) → P a → Q a) → Ensures Q r
  Ensures-mono (returns {a} h) k = returns (k a h)
  Ensures-mono fails k = fails

pub Ensures-test {κ} :
    {P : Unit {0} → Type κ} (b : Bool) (e : Error) → (b ≡ false → P tt) → Ensures P (reject_if b e)
Ensures-test true e k = fails
Ensures-test false e k = returns (k refl)

pub Ensures-and {ℓ κ} :
    {A : Type ℓ} {P Q : A → Type κ} {r : Result A}
    → Ensures P r
    → Ensures Q r
    → Ensures (λ a. P a × Q a) r
Ensures-and {A} {P} {Q} {r} h k = elim (cases r) [
  | inl (a, e) ↦ rw e (returns (Ensures-eq-ok h e, Ensures-eq-ok k e))
  | inr (e, q) ↦ rw q fails
]
  where
    cases : (m : Result A) → ((a : A) × (m ≡ ok a)) ⊎ ((e : Error) × (m ≡ err e))
    cases (ok a) = inl (a, refl)
    cases (err e) = inr (e, refl)
