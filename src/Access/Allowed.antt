-- ===== src/Access/Allowed.antt =====
-- Who is let through: `authorize`, against a description of what a token permits.
use gengis_mimi.Shared.{
  ◌^◌, ◌<◌, ◌≡◌, ◌↔◌, ◌⊎◌, inl, inr, refl, sym, ap, ◌∙◌, Bool, true, false, ◌&&◌, ◌||◌, Option,
  none, some, List, [], ◌∷◌, length, any, All, arith, Bool-cases,
}
use gengis_mimi.Shared.Bytes.{Bytes, IsByte, bytes_eq→eq, bytes_eq_refl}
use gengis_mimi.Error.{ok}
use gengis_mimi.Access.{
  Grant, Access, Request, equal_token, parts_of, namespace_of, is_read, is_name, permits,
  supplied_of, authorize_grants, authorize_as, authorize,
}
use gengis_mimi.Access.Tokens.{equal_token_iff}

-- What a token may be: bytes, of a length that fits a usize.
pub record IsToken (token : Bytes) : Type 0 where
  pub all_bytes : All IsByte token
  pub short : length token < 2 ^ 64

abbrev pub HasTokens : Option Bytes → Type 0
HasTokens none = Unit
HasTokens (some admin) = IsToken admin

-- What a grant permits a request.
pub record Permits (request : Request) (grant : Grant) : Type 0 where
  pub token : grant.token ≡ supplied_of request
  pub namespace : namespace_of (parts_of request.path) ≡ some grant.namespace
  pub operation : (is_read request.method (parts_of request.path) ≡ true) ⊎ (grant.write ≡ true)

pub data SomeGrant (request : Request) : List Grant → Type 0 where
  here :
      {grant : Grant} {grants : List Grant}
      → Permits request grant
      → SomeGrant request (grant ∷ grants)
  there :
      {grant : Grant} {grants : List Grant}
      → SomeGrant request grants
      → SomeGrant request (grant ∷ grants)

-- There is no admin token, or the request has it or a grant's.
pub data Allowed (request : Request) : Option Bytes → List Grant → Type 0 where
  unguarded : {grants : List Grant} → Allowed request none grants
  as_admin : {grants : List Grant} → Allowed request (some (supplied_of request)) grants
  granted :
      {admin : Bytes} {grants : List Grant}
      → SomeGrant request grants
      → Allowed request (some admin) grants

equal_tokens : (a b : Bytes) → IsToken a → IsToken b → (equal_token a b ≡ true) ↔ (a ≡ b)
equal_tokens a b h k = equal_token_iff a b h.all_bytes k.all_bytes h.short k.short

is_name_sound :
    (found : Option Bytes) (name : Bytes) → is_name found name ≡ true → found ≡ some name
is_name_sound none name h = cc
is_name_sound (some part) name h = ap some (bytes_eq→eq part name h)

or_cases : (a b : Bool) → (a || b) ≡ true → (a ≡ true) ⊎ (b ≡ true)
or_cases true b h = inl refl
or_cases false b h = inr h

cases_or : (a b : Bool) → (a ≡ true) ⊎ (b ≡ true) → (a || b) ≡ true
cases_or a b (inl h) = rw h
cases_or a b (inr h) = ground arith

all_three : (a b c : Bool) → (a && b && c) ≡ true → (a ≡ true) × (b ≡ true) × (c ≡ true)
all_three a b c h = (ground arith, ground arith, ground arith)

absurd_false : {X : Type 0} → false ≡ true → X
absurd_false h = cc

module _ (request : Request) (supplied : IsToken (supplied_of request)) where
  permits_sound :
      (grant : Grant)
      → IsToken grant.token
      → permits (supplied_of request) request grant ≡ true
      → Permits request grant
  unfolding permits
  permits_sound grant h e =
      let (p, q, r) =
        all_three (equal_token grant.token (supplied_of request))
          (is_name (namespace_of (parts_of request.path)) grant.namespace)
          (is_read request.method (parts_of request.path) || grant.write) e in
      record {
        token = (equal_tokens grant.token (supplied_of request) h supplied).0 p;
        namespace = is_name_sound _ grant.namespace q;
        operation = or_cases _ grant.write r;
      }

  permits_complete :
      (grant : Grant)
      → IsToken grant.token
      → Permits request grant
      → permits (supplied_of request) request grant ≡ true
  unfolding permits
  permits_complete grant h p =
      rw
        (
          (equal_tokens grant.token (supplied_of request) h supplied).1 p.token,
          p.namespace,
          bytes_eq_refl grant.namespace,
        )
        (cases_or _ grant.write p.operation)

  any_sound :
      (grants : List Grant)
      → All (λ (grant : Grant). IsToken grant.token) grants
      → any (permits (supplied_of request) request) grants ≡ true
      → SomeGrant request grants
  any_sound [] h e = cc
  any_sound (grant ∷ grants) (p, h) e =
      elim (or_cases (permits (supplied_of request) request grant) _ e) [
        | inl q ↦ here (permits_sound grant p q)
        | inr q ↦ there (any_sound grants h q)
      ]

  any_complete :
      (grants : List Grant)
      → All (λ (grant : Grant). IsToken grant.token) grants
      → SomeGrant request grants
      → any (permits (supplied_of request) request) grants ≡ true
  any_complete [] h q = elim q [ ]
  any_complete (grant ∷ grants) (p, h) (here q) = rw (permits_complete grant p q)
  any_complete (grant ∷ grants) (p, h) (there q) = cases_or _ _ (inr (any_complete grants h q))

  -- A grant that permits the request has its token.
  any_token :
      (grants : List Grant)
      → any (permits (supplied_of request) request) grants ≡ true
      → any (λ grant. equal_token grant.token (supplied_of request)) grants ≡ true
  unfolding permits
  any_token [] e = e
  any_token (grant ∷ grants) e = ground (arith, any_token grants)

  grants_sound :
      (grants : List Grant)
      → authorize_grants grants request ≡ ok tt
      → any (permits (supplied_of request) request) grants ≡ true
  unfolding authorize_grants
  grants_sound grants e = ground arith

  grants_complete :
      (grants : List Grant)
      → any (permits (supplied_of request) request) grants ≡ true
      → authorize_grants grants request ≡ ok tt
  unfolding authorize_grants
  grants_complete grants e = rw (any_token grants e, e)

  -- Without the admin token it takes a grant.
  by_grant :
      (admin : Bytes) (grants : List Grant)
      → IsToken admin
      → All (λ (grant : Grant). IsToken grant.token) grants
      → equal_token admin (supplied_of request) ≡ false
      → Allowed request (some admin) grants
      → authorize_grants grants request ≡ ok tt
  by_grant admin grants h k e (granted g) = grants_complete grants (any_complete grants k g)
  by_grant admin grants h k e as_admin = absurd_false (sym e ∙ (equal_tokens _ _ h supplied).1 refl)

  authorize_as_iff :
      (admin : Option Bytes) (grants : List Grant)
      → HasTokens admin
      → All (λ (grant : Grant). IsToken grant.token) grants
      → (authorize_as admin grants request ≡ ok tt) ↔ Allowed request admin grants
  authorize_as_iff none grants h k = (λ e. unguarded, λ a. refl)
  authorize_as_iff (some admin) grants h k =
      elim (Bool-cases (equal_token admin (supplied_of request))) [
        | inl e ↦
            let same = (equal_tokens admin (supplied_of request) h supplied).0 e in
            (λ u. rw same as_admin, λ a. rw e)
        | inr e ↦ (
          λ u. granted (any_sound grants k (grants_sound grants (rw e at u))),
          λ a. rw e (by_grant admin grants h k e a),
        )
      ]

  -- Where the tokens and the supplied header are bytes whose length fits a usize, `authorize` lets
  -- a request through exactly if there is no admin token, or the request supplies it, or it
  -- supplies the token of a grant for the namespace that its path names, and it is a read or the
  -- grant is for writing.
  pub authorize_iff :
      (access : Access)
      → HasTokens access.admin
      → All (λ (grant : Grant). IsToken grant.token) access.grants
      → (authorize access request ≡ ok tt) ↔ Allowed request access.admin access.grants
  unfolding authorize
  authorize_iff access h k = authorize_as_iff access.admin access.grants h k
