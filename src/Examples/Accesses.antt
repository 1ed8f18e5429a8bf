-- ===== src/Examples/Accesses.antt =====
-- The theorems on access at concrete inputs.
use gengis_mimi.Shared.{
  ◌≡◌, ◌↔◌, refl, [], ◌∷◌, arith, length, true, false, Option, some, all, ltb, ltb→lt,
}
use gengis_mimi.Shared.Bytes.{Bytes}
use gengis_mimi.Error.{ok}
use gengis_mimi.Config.{GrantConfig}
use gengis_mimi.Access.{
  Access, Request, Method, equal_token, bearer, authorize, load, load_grants, check_token,
}
use gengis_mimi.Access.Tokens.{equal_token_iff}
use gengis_mimi.Access.Allowed.{IsToken, Allowed, authorize_iff}
use gengis_mimi.Access.Loading.{IsLoaded, load-IsLoaded}
use gengis_mimi.Examples.{all-IsByte}

abbrev key_a : Bytes
key_a = b'a' ∷ b'1' ∷ []

abbrev key_b : Bytes
key_b = b'b' ∷ b'2' ∷ []

abbrev books_name : Bytes
books_name = b'b' ∷ b'o' ∷ b'o' ∷ b'k' ∷ b's' ∷ []

is_token :
    (token : Bytes)
    → all (λ b. ltb b 256) token ≡ true
    → ltb (length token) 100 ≡ true
    → IsToken token
is_token token h k = record {
  all_bytes = all-IsByte token h;
  short = omega (arith, ltb→lt (length token) 100 k);
}

abbrev config_example : GrantConfig
config_example = record { namespace = books_name; token_env = b'K' ∷ []; write = false }

abbrev access_example : Access
access_example = record {
  admin = some (bearer key_a);
  grants = record { token = bearer key_b; namespace = books_name; write = false } ∷ [];
}

-- GET /v1/namespaces/books with the grant's token.
abbrev request_of : Request
request_of = record {
  method = Method.get;
  path =
      b'/' ∷ b'v' ∷ b'1' ∷ b'/' ∷ b'n' ∷ b'a' ∷ b'm' ∷ b'e' ∷ b's' ∷ b'p' ∷ b'a' ∷ b'c' ∷ b'e'
      ∷ b's' ∷ b'/' ∷ books_name;
  authorization = some (bearer key_b);
}

abbrev env_example : Bytes → Option Bytes
env_example name = some key_b

equal_token_example : (equal_token key_a key_b ≡ true) ↔ (key_a ≡ key_b)
equal_token_example =
    equal_token_iff key_a key_b (all-IsByte key_a refl) (all-IsByte key_b refl) (omega arith)
      (omega arith)

authorize_example :
    (authorize access_example request_of ≡ ok tt)
    ↔ Allowed request_of access_example.admin access_example.grants
authorize_example =
    authorize_iff request_of (is_token (bearer key_b) refl refl) access_example
      (is_token (bearer key_a) refl refl) (is_token (bearer key_b) refl refl, tt)

load_run : load env_example (some key_a) (config_example ∷ []) ≡ ok access_example
unfolding load load_grants check_token
load_run = refl

load-IsLoaded_example : IsLoaded env_example (some key_a) (config_example ∷ []) access_example
load-IsLoaded_example = load-IsLoaded env_example (some key_a) (config_example ∷ []) load_run
