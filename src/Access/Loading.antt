-- ===== src/Access/Loading.antt =====
-- `Access::load` of src/api.rs.
use gengis_mimi.Shared.{
  ◌≡◌, ◌<◌, refl, true, false, not, ◌&&◌, ◌||◌, Option, none, some, List, [], ◌∷◌, length, any, all,
  arith, ◌==◌,
}
use gengis_mimi.Shared.Bytes.{Bytes}
use gengis_mimi.Error.{Error, ok}
use gengis_mimi.Error.Ensures.{
  Ensures, returns, Ensures-bind, Ensures-ok_or, Ensures-reject_if, Ensures-test, Ensures-eq-ok,
}
use gengis_mimi.Config.{GrantConfig}
use gengis_mimi.Access.{
  Grant, Access, bearer, is_graphic, check_token, is_missing, is_empty, load_grants, load,
}

-- A nonempty token of printable characters.
pub record IsPrintable (token : Bytes) : Type 0 where
  pub positive : 0 < length token
  pub all_graphic : all is_graphic token ≡ true

-- The grant that a line of the configuration asks for.
pub record IsGrantOf (env : Bytes → Option Bytes) (config : GrantConfig) (grant : Grant)
    : Type 0 where
  pub secret : Bytes
  pub found : env config.token_env ≡ some secret
  pub printable : IsPrintable secret
  pub token : grant.token ≡ bearer secret
  pub namespace : grant.namespace ≡ config.namespace
  pub write : grant.write ≡ config.write

-- One grant for each line, in order.
pub data GrantsOf (env : Bytes → Option Bytes) : List GrantConfig → List Grant → Type 0 where
  no_grants : GrantsOf env [] []
  next_grant :
      {config : GrantConfig} {rest : List GrantConfig} {grant : Grant} {grants : List Grant}
      → IsGrantOf env config grant
      → GrantsOf env rest grants
      → GrantsOf env (config ∷ rest) (grant ∷ grants)

no_blanks :
    (token : Bytes) → any (λ c. not (is_graphic c)) token ≡ false → all is_graphic token ≡ true
no_blanks [] h = refl
no_blanks (c ∷ token) h = ground (arith, no_blanks token)

check_token-Ensures : (token : Bytes) → Ensures (λ _. IsPrintable token) (check_token token)
unfolding check_token
check_token-Ensures token =
    Ensures-test (length token == 0 || any (λ c. not (is_graphic c)) token) Error.config
      λ h. record { positive = ground arith; all_graphic = no_blanks token (ground arith) }

module _ (env : Bytes → Option Bytes) where
  load_grants-Ensures :
      (config : List GrantConfig) → Ensures (GrantsOf env config) (load_grants env config)
  unfolding load_grants
  load_grants-Ensures [] = returns no_grants
  load_grants-Ensures (grant ∷ rest) =
      Ensures-ok_or (env grant.token_env) Error.config λ secret found.
        Ensures-bind (check_token-Ensures secret) λ u printable.
          Ensures-bind (load_grants-Ensures rest) λ grants more. returns (
            next_grant
              (record {
                secret = secret;
                found = found;
                printable = printable;
                token = refl;
                namespace = refl;
                write = refl;
              })
              more)

  abbrev bearer_or_none : Option Bytes → Option Bytes
  bearer_or_none none = none
  bearer_or_none (some token) = some (bearer token)

  -- What was loaded.
  pub record IsLoaded (token : Option Bytes) (config : List GrantConfig) (access : Access)
      : Type 0 where
    pub admin : access.admin ≡ bearer_or_none token
    pub grants : GrantsOf env config access.grants
    pub guarded : (not (is_empty access.grants) && is_missing access.admin) ≡ false

  load-Ensures :
      (token : Option Bytes) (config : List GrantConfig)
      → Ensures (IsLoaded token config) (load env token config)
  unfolding load
  load-Ensures none config = Ensures-bind (load_grants-Ensures config) λ grants h.
      Ensures-reject_if (not (is_empty grants) && true) Error.config
        λ guarded. returns (record { admin = refl; grants = h; guarded = guarded })
  load-Ensures (some token) config = Ensures-bind (load_grants-Ensures config) λ grants h.
      Ensures-reject_if (not (is_empty grants) && false) Error.config
        λ guarded. returns (record { admin = refl; grants = h; guarded = guarded })

  -- An access table that `load` returns has the admin token of the environment as a bearer header,
  -- one grant for each configured one, in order, with its namespace, its right to write and a
  -- nonempty token of printable characters from the variable that it names, and no grant where
  -- there is no admin token.
  pub load-IsLoaded :
      (token : Option Bytes) (config : List GrantConfig) {access : Access}
      → load env token config ≡ ok access
      → IsLoaded token config access
  load-IsLoaded token config e = Ensures-eq-ok (load-Ensures token config) e
