-- ===== src/Error.antt =====
-- src/error.rs: the errors that the program returns, and the `?` operator.
-- The messages are not modelled: what an error shows a client is its status and its code.
pub mod Ensures
pub mod Response
use gengis_mimi.Shared.{ℕ, ◌≡◌, refl, Bool, true, false, Option, none, some}

pub data Error : Type 0 where
  invalid not_found conflict limit corrupt unavailable timeout network busy : Error
  config storage object_store io encoding worker : Error
  request : ℕ → Error

-- `std::result::Result` with this error.
pub data Result {ℓ} (T : Type ℓ) : Type ℓ where
  err : Error → Result T
  ok : T → Result T

-- `if bad { return Err(e); }`
abbrev pub reject_if : Bool → Error → Result (Unit {0})
reject_if true e = err e
reject_if false e = ok tt

-- `ok_or_else`
abbrev pub ok_or {ℓ} : {T : Type ℓ} → Option T → Error → Result T
ok_or none e = err e
ok_or (some t) e = ok t

-- `?`: an error returns early.
module _ {ℓ κ} {T : Type ℓ} {S : Type κ} where
  infixl 5 ◌>>=◌
  abbrev pub ◌>>=◌ : Result T → (T → Result S) → Result S
  err e >>= k = err e
  ok t >>= k = k t

module _ {ℓ} {S : Type ℓ} where
  infixl 5 ◌>>◌
  abbrev pub ◌>>◌ : Result (Unit {0}) → Result S → Result S
  check >> rest = check >>= λ done. rest

pub ok-injective {ℓ} : {T : Type ℓ} {x y : T} → ok x ≡ ok y → x ≡ y
ok-injective h = cc
