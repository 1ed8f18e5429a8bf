-- ===== src/Config/Parts.antt =====
-- The parts of a configuration that src/config.rs accepts: its path of IDs, grants and addresses.
use gengis_mimi.Shared.{
  ◌<◌, ◌≡◌, ◌⊎◌, refl, sym, ap, ◌∙◌, inl, inr, true, false, Option, none, some, List, [], ◌∷◌, ◌++◌,
  append_assoc, append-nil, arith, All, length, any, ◌==◌, ==_iff, Bool-cases, ◌||◌,
}
use gengis_mimi.Shared.Bytes.{Bytes, bytes_eq, bytes_eq_iff}
use gengis_mimi.Error.{Error, Result, ok, err}
use gengis_mimi.Error.Ensures.{Ensures, returns, Ensures-bind_eq, Ensures-reject_if, Ensures-mono}
use gengis_mimi.Model.{validate_id}
use gengis_mimi.Model.Ids.{IsId}
use gengis_mimi.Config.{GrantConfig}
use gengis_mimi.Config.Validate.{
  Url, is_some, is_empty, is_err, http, https, slash, split, bad_url, validate_grants,
}

-- The texts with a slash between each two: what `split('/')` undoes.
abbrev pub join : Bytes → List Bytes → Bytes
join part [] = part
join part (next ∷ rest) = part ++ slash ∷ join next rest

-- IDs with a slash between each two, and at least one.
pub record IsPath (path : Bytes) : Type 0 where
  pub first : Bytes
  pub rest : List Bytes
  pub joined : path ≡ join first rest
  pub first_valid : IsId first
  pub rest_valid : All IsId rest

record Joined (path : Bytes) (parts : List Bytes) : Type 0 where
  first : Bytes
  rest : List Bytes
  parts_eq : parts ≡ first ∷ rest
  joined : path ≡ join first rest

split-Joined : (part path : Bytes) → Joined (part ++ path) (split part path)
unfolding split
split-Joined part [] = record { first = part; rest = []; parts_eq = refl; joined = append-nil part }
split-Joined part (c ∷ path) = elim (Bool-cases (c == slash)) [
  | inl cut ↦
      let more = split-Joined [] path in
      rw cut (record {
        first = part;
        rest = more.first ∷ more.rest;
        parts_eq = ap (λ l. part ∷ l) more.parts_eq;
        joined = rw ((==_iff c slash).0 cut, more.joined) refl;
      })
  | inr other ↦
      let more = split-Joined (part ++ c ∷ []) path in
      rw other (record {
        first = more.first;
        rest = more.rest;
        parts_eq = more.parts_eq;
        joined = sym (append_assoc part (c ∷ []) path) ∙ more.joined;
      })
]

not_err : (r : Result (Unit {0})) → is_err r ≡ false → r ≡ ok tt
not_err (ok done) h = refl
not_err (err e) h = cc

any_err-All :
    (parts : List Bytes) → any (λ part. is_err (validate_id part)) parts ≡ false → All IsId parts
any_err-All [] h = tt
any_err-All (part ∷ parts) h = elim (Bool-cases (is_err (validate_id part))) [
  | inl bad ↦ absurd (ground arith)
  | inr good ↦ (not_err (validate_id part) good, any_err-All parts (rw good at h))
]

pub prefix-IsPath :
    (path : Bytes) → any (λ part. is_err (validate_id part)) (split [] path) ≡ false → IsPath path
prefix-IsPath path h =
    let parts = split-Joined [] path in
    let (valid, more) : All IsId (parts.first ∷ parts.rest) =
      rw parts.parts_eq at (any_err-All (split [] path) h) in
    record {
      first = parts.first;
      rest = parts.rest;
      joined = parts.joined;
      first_valid = valid;
      rest_valid = more;
    }

-- A grant has a valid namespace and a variable's name.
pub record IsGrant (grant : GrantConfig) : Type 0 where
  pub namespace : IsId grant.namespace
  pub token_env : 0 < length grant.token_env

pub nonempty : (text : Bytes) → is_empty text ≡ false → 0 < length text
nonempty text h = ground arith

pub grants-Ensures :
    (grants : List GrantConfig) → Ensures (λ _. All IsGrant grants) (validate_grants grants)
unfolding validate_grants
grants-Ensures [] = returns tt
grants-Ensures (grant ∷ grants) = Ensures-bind_eq (validate_id grant.namespace) λ _ valid.
    Ensures-reject_if (is_empty grant.token_env) Error.config λ named.
      Ensures-mono (grants-Ensures grants)
        λ _ more. (record { namespace = valid; token_env = nonempty grant.token_env named }, more)

-- An address that is nothing but a scheme, a host and a port.
pub record IsOrigin (url : Url) : Type 0 where
  pub scheme : (url.scheme ≡ http) ⊎ (url.scheme ≡ https)
  pub path : url.path ≡ slash ∷ []
  pub query : url.query ≡ none
  pub fragment : url.fragment ≡ none
  pub username : url.username ≡ []
  pub password : url.password ≡ none

is_none : (text : Option Bytes) → is_some text ≡ false → text ≡ none
is_none none h = refl
is_none (some text) h = cc

is_nil : (text : Bytes) → is_empty text ≡ true → text ≡ []
is_nil [] h = refl
is_nil (c ∷ text) h = absurd (ground arith)

either_scheme :
    (scheme : Bytes)
    → (bytes_eq scheme http || bytes_eq scheme https) ≡ true
    → (scheme ≡ http) ⊎ (scheme ≡ https)
either_scheme scheme h = elim (Bool-cases (bytes_eq scheme http)) [
  | inl e ↦ inl ((bytes_eq_iff scheme http).0 e)
  | inr e ↦ inr ((bytes_eq_iff scheme https).0 (rw e at h))
]

pub good-IsOrigin : (url : Url) → bad_url url ≡ false → IsOrigin url
unfolding bad_url
good-IsOrigin url h = record {
  scheme = either_scheme url.scheme (ground arith);
  path = (bytes_eq_iff url.path (slash ∷ [])).0 (ground arith);
  query = is_none url.query (ground arith);
  fragment = is_none url.fragment (ground arith);
  username = is_nil url.username (ground arith);
  password = is_none url.password (ground arith);
}
