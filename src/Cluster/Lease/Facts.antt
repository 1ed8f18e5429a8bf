-- ===== src/Cluster/Lease/Facts.antt =====
-- What a lease's store and a worker of src/cluster.rs know of each other at every time.
use gengis_mimi.Shared.{
  ℕ, ◌+◌, ◌≤◌, ◌≡◌, sym, ◌∙◌, ◌⊎◌, inl, inr, Bool, true, false, Option, none, some, List, [], ◌∷◌,
  arith,
}
use gengis_mimi.Cluster.Lease.{Mode, Put, Fetched, Phase, Worker}
use gengis_mimi.Cluster.Lease.Steps.{Version, Store, OneOf, IsFresh}

-- A version with this ETag of which `P` holds.
abbrev pub Wrote : Store → ℕ → (Version → Type 0) → Type 0
Wrote store etag P = (v : Version) × OneOf v store.versions × (v.etag ≡ etag) × P v

abbrev pub AllFresh : List Version → Type 0
AllFresh [] = Unit
AllFresh (v ∷ versions) = IsFresh v.etag versions × AllFresh versions

-- A fresh ETag is no version's.
fresh_other :
    (v : Version) (etag : ℕ) (versions : List Version)
    → IsFresh etag versions
    → OneOf v versions
    → v.etag ≡ etag
    → ⊥
fresh_other v etag [] fs one e = absurd one
fresh_other v etag (y ∷ versions) (f, fs) (inl same) e = f (rw (← same) e)
fresh_other v etag (y ∷ versions) (f, fs) (inr one) e = fresh_other v etag versions fs one e

-- An ETag is one version's.
pub one_version :
    (v w : Version) (versions : List Version)
    → AllFresh versions
    → OneOf v versions
    → OneOf w versions
    → v.etag ≡ w.etag
    → v ≡ w
one_version v w [] fs one two e = absurd one
one_version v w (y ∷ versions) (f, fs) (inl a) (inl b) e = a ∙ sym b
one_version v w (y ∷ versions) (f, fs) (inl a) (inr b) e =
    absurd (fresh_other w y.etag versions f b (rw (← a) (sym e)))
one_version v w (y ∷ versions) (f, fs) (inr a) (inl b) e =
    absurd (fresh_other v y.etag versions f a (rw (← b) e))
one_version v w (y ∷ versions) (f, fs) (inr a) (inr b) e = one_version v w versions fs a b e

module _ (lease_ms : ℕ → ℕ) where
  abbrev pub end : Version → ℕ
  end v = v.at + lease_ms v.put.node

  -- The newest lease is the worker's, and does not end before `u`.
  abbrev pub Newest : ℕ → ℕ → List Version → Type 0
  Newest node u [] = ⊥
  Newest node u (v ∷ versions) = (v.put.node ≡ node) × (u ≤ end v)

  -- Until `u`, the lease is the worker's.
  abbrev pub Claim : Store → ℕ → ℕ → Type 0
  Claim store node u = (u ≤ store.now) ⊎ Newest node u store.versions

  -- Why a put of this mode takes nothing from another worker.
  abbrev pub Justified : Store → ℕ → Mode → Type 0
  Justified store node Mode.create = Unit
  Justified store node (Mode.update etag) =
      Wrote store etag (λ v. (v.put.node ≡ node) ⊎ (end v ≤ store.now))

  abbrev pub PutFact : Store → Put → Type 0
  PutFact store put = (put.started ≤ store.now) × Justified store put.node put.mode

  abbrev pub VersionFact : Store → Version → Type 0
  VersionFact store v =
      (v.at ≤ store.now) × Claim store v.put.node (v.put.started + lease_ms v.put.node)

  pub record StoreFacts (store : Store) : Type 0 where
    pub fresh : AllFresh store.versions
    pub versions_ok : (v : Version) → OneOf v store.versions → VersionFact store v
    pub sent_ok : (put : Put) → OneOf put store.sent → PutFact store put

  -- `observed`: this version was there at that time.
  abbrev pub Noted : Store → Option (ℕ × ℕ) → Type 0
  Noted store none = Unit
  Noted store (some (etag, since)) = Wrote store etag (λ v. v.at ≤ since)

  abbrev pub Within : Option ℕ → ℕ → Type 0
  Within none deadline = Unit
  Within (some until) deadline = until ≤ deadline

  -- A worker whose database is still opening serves nothing.
  abbrev pub Opens : Bool → Option ℕ → Type 0
  Opens true until = until ≡ none
  Opens false until = Unit

  -- `owned`, `deadline`, `opening` and `until`. Who owns no lease serves nothing.
  abbrev pub Holds : Store → ℕ → Option ℕ → ℕ → Bool → Option ℕ → Type 0
  Holds store node none deadline opening until = until ≡ none
  Holds store node (some etag) deadline opening until =
      Wrote store etag (λ v. v.put.node ≡ node)
      × Claim store node deadline
      × Within until deadline
      × Opens opening until

  abbrev pub Read : Store → Fetched → Type 0
  Read store (Fetched.found etag ttl) =
      Wrote store etag (λ v. (ttl ≡ lease_ms v.put.node) × (v.at ≤ store.now))
  Read store Fetched.missing = Unit
  Read store Fetched.unreadable = Unit

  abbrev pub At : Store → ℕ → Phase → Type 0
  At store node (Phase.reading started) = started ≤ store.now
  At store node (Phase.fetched started f) = (started ≤ store.now) × Read store f
  At store node (Phase.putting put) = put.node ≡ node
  At store node _ = Unit

  pub record WorkerFacts (store : Store) (node : ℕ) (w : Worker) : Type 0 where
    pub noted : Noted store w.observed
    pub holds : Holds store node w.owned w.deadline w.opening w.until
    pub at_phase : At store node w.phase

  -- What is known stays known where the store changes so.
  pub record Later (old new : Store) : Type 0 where
    pub time : old.now ≤ new.now
    pub kept : (v : Version) → OneOf v old.versions → OneOf v new.versions
    pub claims : (node u : ℕ) → Claim old node u → Claim new node u

  pub Wrote-Later :
      {old new : Store} {etag : ℕ} {P Q : Version → Type 0}
      → Later old new
      → ((v : Version) → P v → Q v)
      → Wrote old etag P
      → Wrote new etag Q
  Wrote-Later l f (v, one, e, p) = (v, l.kept v one, e, f v p)

  Noted-Later : {old new : Store} (o : Option (ℕ × ℕ)) → Later old new → Noted old o → Noted new o
  Noted-Later none l h = h
  Noted-Later (some (etag, since)) l h = Wrote-Later l (λ v p. p) h

  Holds-Later :
      {old new : Store} (node : ℕ) (o : Option ℕ) (deadline : ℕ) (opening : Bool) (until : Option ℕ)
      → Later old new
      → Holds old node o deadline opening until
      → Holds new node o deadline opening until
  Holds-Later node none deadline opening until l h = h
  Holds-Later node (some etag) deadline opening until l (wrote, claim, within, opens) =
      (Wrote-Later l (λ v p. p) wrote, l.claims node deadline claim, within, opens)

  Read-Later : {old new : Store} (f : Fetched) → Later old new → Read old f → Read new f
  Read-Later (Fetched.found etag ttl) l h =
      Wrote-Later l (λ v (e, p). (e, omega (arith, p, l.time))) h
  Read-Later Fetched.missing l h = h
  Read-Later Fetched.unreadable l h = h

  At-Later :
      {old new : Store} (node : ℕ) (p : Phase) → Later old new → At old node p → At new node p
  At-Later node (Phase.reading started) l h = omega (arith, l.time)
  At-Later node (Phase.fetched started f) l (h, r) = (omega (arith, l.time), Read-Later f l r)
  At-Later node (Phase.putting put) l h = h
  At-Later node Phase.waiting l h = h
  At-Later node Phase.starting l h = h
  At-Later node Phase.finishing l h = h
  At-Later node Phase.done l h = h

  pub WorkerFacts-Later :
      {old new : Store} {node : ℕ} {w : Worker}
      → Later old new
      → WorkerFacts old node w
      → WorkerFacts new node w
  WorkerFacts-Later {node = node} {w = w} l h = record {
    noted = Noted-Later w.observed l h.noted;
    holds = Holds-Later node w.owned w.deadline w.opening w.until l h.holds;
    at_phase = At-Later node w.phase l h.at_phase;
  }

  Justified-Later :
      {old new : Store} (node : ℕ) (m : Mode)
      → Later old new
      → Justified old node m
      → Justified new node m
  Justified-Later node Mode.create l h = h
  Justified-Later node (Mode.update etag) l h = Wrote-Later l (λ v p. ground (arith, p, l.time)) h

  pub PutFact-Later :
      {old new : Store} (put : Put) → Later old new → PutFact old put → PutFact new put
  PutFact-Later put l (h, j) = (omega (arith, l.time), Justified-Later put.node put.mode l j)

  pub VersionFact-Later :
      {old new : Store} (v : Version) → Later old new → VersionFact old v → VersionFact new v
  VersionFact-Later v l (h, c) = (omega (arith, l.time), l.claims _ _ c)

  pub record Facts (store : Store) (workers : ℕ → Worker) : Type 0 where
    pub of_store : StoreFacts store
    pub of_worker : (node : ℕ) → WorkerFacts store node (workers node)
