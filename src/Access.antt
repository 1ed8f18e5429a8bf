-- ===== src/Access.antt =====
-- Tokens and grants: `Access` of src/api.rs.
-- Tokens are bytes. Of a request the model has its method, its path and what `to_str` makes of its
-- authorization header. The environment is a parameter.
pub mod Tokens
pub mod Allowed
pub mod Loading
use gengis_mimi.Shared.{
  ℕ, zero, suc, ◌+◌, ◌*◌, ◌/◌, ◌%◌, Bool, true, false, not, ◌&&◌, ◌||◌, Option, none, some, List,
  [], ◌∷◌, ◌++◌, length, drop, any, in_range, ◌==◌, if◌then◌else◌,
}
use gengis_mimi.Shared.Bytes.{Bytes, bytes_eq, starts_with}
use gengis_mimi.Config.{GrantConfig}
use gengis_mimi.Error.{Error, Result, ok, err, ◌>>=◌, ◌>>◌, reject_if, ok_or}

-- `^` and `|` of words of `w` bits.
unfoldable pub xor : ℕ → ℕ → ℕ → ℕ
xor zero a b = 0
xor (suc w) a b = (a % 2 + b % 2) % 2 + 2 * xor w (a / 2) (b / 2)

unfoldable pub lor : ℕ → ℕ → ℕ → ℕ
lor zero a b = 0
lor (suc w) a b = (a % 2 + b % 2 + 1) / 2 + 2 * lor w (a / 2) (b / 2)

-- The byte at the cursor, `.get(i).copied().unwrap_or(0)`, and the bytes behind it.
abbrev pub byte_or_zero : Bytes → ℕ
byte_or_zero [] = 0
byte_or_zero (b ∷ bs) = b

abbrev pub behind : Bytes → Bytes
behind [] = []
behind (b ∷ bs) = bs

unfoldable pub differences : ℕ → Bytes → Bytes → ℕ
differences difference [] b = difference
differences difference (byte ∷ a) b =
    differences (lor 64 difference (xor 8 byte (byte_or_zero b))) a (behind b)

unfoldable pub equal_token : Bytes → Bytes → Bool
equal_token a b = differences (xor 64 (length a) (length b)) a b == 0

-- A token's header, the namespace that it opens, and whether for writing.
pub record Grant : Type 0 where
  pub token : Bytes
  pub namespace : Bytes
  pub write : Bool

pub record Access : Type 0 where
  pub admin : Option Bytes
  pub grants : List Grant

pub data Method : Type 0 where
  get post other : Method

pub record Request : Type 0 where
  pub method : Method
  pub path : Bytes
  pub authorization : Option Bytes

abbrev slash : ℕ
slash = b'/'

-- `split('/')`, less the empty parts.
abbrev pub keep_part : Bytes → List Bytes → List Bytes
keep_part [] parts = parts
keep_part (c ∷ part) parts = (c ∷ part) ∷ parts

unfoldable pub split_from : Bytes → Bytes → List Bytes
split_from part [] = keep_part part []
split_from part (c ∷ path) =
    if c == slash then keep_part part (split_from [] path) else split_from (part ++ c ∷ []) path

abbrev v1 : Bytes
v1 = slash ∷ b'v' ∷ b'1' ∷ []

unfoldable pub parts_of : Bytes → List Bytes
parts_of path = split_from [] (if starts_with v1 path then drop 3 path else path)

abbrev namespaces : Bytes
namespaces = b'n' ∷ b'a' ∷ b'm' ∷ b'e' ∷ b's' ∷ b'p' ∷ b'a' ∷ b'c' ∷ b'e' ∷ b's' ∷ []

abbrev query : Bytes
query = b'q' ∷ b'u' ∷ b'e' ∷ b'r' ∷ b'y' ∷ []

abbrev search_part : Bytes
search_part = b's' ∷ b'e' ∷ b'a' ∷ b'r' ∷ b'c' ∷ b'h' ∷ []

unfoldable pub namespace_of : List Bytes → Option Bytes
namespace_of (first ∷ second ∷ rest) = if bytes_eq first namespaces then some second else none
namespace_of _ = none

abbrev is_query : List Bytes → Bool
is_query (a ∷ b ∷ c ∷ []) = bytes_eq c query || bytes_eq c search_part
is_query _ = false

unfoldable pub is_read : Method → List Bytes → Bool
is_read Method.get parts = true
is_read Method.post parts = is_query parts
is_read Method.other parts = false

abbrev pub is_name : Option Bytes → Bytes → Bool
is_name none name = false
is_name (some part) name = bytes_eq part name

-- The test of one grant.
unfoldable pub permits : Bytes → Request → Grant → Bool
permits supplied request grant =
    equal_token grant.token supplied
    && is_name (namespace_of (parts_of request.path)) grant.namespace
    && (is_read request.method (parts_of request.path) || grant.write)

abbrev text_of : Option Bytes → Bytes
text_of none = []
text_of (some text) = text

abbrev pub supplied_of : Request → Bytes
supplied_of request = text_of request.authorization

-- The checks behind the one for the admin token.
unfoldable pub authorize_grants : List Grant → Request → Result (Unit {0})
authorize_grants grants request = do
  reject_if (not (any (λ grant. equal_token grant.token (supplied_of request)) grants))
      (Error.request 401)
  reject_if (not (any (permits (supplied_of request) request) grants)) (Error.request 403)

abbrev pub authorize_as : Option Bytes → List Grant → Request → Result (Unit {0})
authorize_as none grants request = ok tt
authorize_as (some admin) grants request =
    if equal_token admin (supplied_of request) then ok tt else authorize_grants grants request

unfoldable pub authorize : Access → Request → Result (Unit {0})
authorize access request = authorize_as access.admin access.grants request

-- "Bearer {token}"
abbrev pub bearer : Bytes → Bytes
bearer token = b'B' ∷ b'e' ∷ b'a' ∷ b'r' ∷ b'e' ∷ b'r' ∷ b' ' ∷ token

abbrev pub is_graphic : ℕ → Bool
is_graphic = in_range 33 126

unfoldable pub check_token : Bytes → Result (Unit {0})
check_token token =
    reject_if (length token == 0 || any (λ c. not (is_graphic c)) token) Error.config

abbrev pub is_missing : Option Bytes → Bool
is_missing none = true
is_missing (some admin) = false

abbrev pub is_empty : List Grant → Bool
is_empty [] = true
is_empty (grant ∷ grants) = false

module _ (env : Bytes → Option Bytes) where
  unfoldable pub load_grants : List GrantConfig → Result (List Grant)
  load_grants [] = ok []
  load_grants (grant ∷ rest) = do
    token ← ok_or (env grant.token_env) Error.config
    check_token token
    grants ← load_grants rest
    ok (record { token = bearer token; namespace = grant.namespace; write = grant.write } ∷ grants)

  abbrev bearer_of : Option Bytes → Option Bytes
  bearer_of none = none
  bearer_of (some token) = some (bearer token)

  unfoldable pub load : Option Bytes → List GrantConfig → Result Access
  load token config = do
    grants ← load_grants config
    reject_if (not (is_empty grants) && is_missing (bearer_of token)) Error.config
    ok (record { admin = bearer_of token; grants = grants })
