-- ===== src/Cluster/Lease/Lands.antt =====
-- A put that the object store applies keeps what is known of src/cluster.rs's leases.
use gengis_mimi.Shared.{ℕ, ◌+◌, ◌≤◌, ◌≡◌, refl, sym, ap, ◌∙◌, inl, inr, List, [], ◌∷◌, arith}
use gengis_mimi.Cluster.Lease.{Mode, Put}
use gengis_mimi.Cluster.Lease.Steps.{Version, Store, OneOf, IsFresh, Applies}
use gengis_mimi.Cluster.Lease.Facts.{
  one_version, AllFresh, end, Newest, Claim, Justified, PutFact, VersionFact, StoreFacts, Later,
  PutFact-Later, VersionFact-Later,
}

abbrev version : Store → Put → ℕ → Version
version store put etag = record { etag = etag; put = put; at = store.now }

abbrev written : Store → Put → ℕ → Store
written store put etag = record store { versions = version store put etag ∷ store.versions }

module _ (lease_ms : ℕ → ℕ) where
  -- A claim outlives a put that takes nothing from another.
  Newest-written :
      (store : Store) (put : Put) (etag node u : ℕ)
      → StoreFacts lease_ms store
      → Applies put.mode store.versions
      → Justified lease_ms store put.node put.mode
      → Newest lease_ms node u store.versions
      → Claim lease_ms (written store put etag) node u
  Newest-written store put etag node u facts applies justified h =
      of put.mode store.versions facts.fresh (λ v one. facts.versions_ok v one) applies justified h
    where
      of :
          (mode : Mode) (versions : List Version)
          → AllFresh versions
          → ((v : Version) → OneOf v versions → VersionFact lease_ms store v)
          → Applies mode versions
          → Justified lease_ms (record store { versions = versions }) put.node mode
          → Newest lease_ms node u versions
          → Claim lease_ms (written store put etag) node u
      of Mode.create [] fresh ok applies justified h = absurd h
      of Mode.create (v ∷ versions) fresh ok applies justified h = absurd applies
      of (Mode.update old) [] fresh ok applies justified h = absurd h
      of (Mode.update old) (v ∷ versions) fresh ok applies (w, one, e, why) (mine, before) =
          let same = one_version w v (v ∷ versions) fresh one (inl refl) (e ∙ sym applies) in
          let past = (ok v (inl refl)).0 in
          elim why [
            | inl its ↦
                let its' : put.node ≡ node =
                  sym its ∙ ap (λ (x : Version). x.put.node) same ∙ mine in
                let before' : u ≤ v.at + lease_ms node = rw mine at before in
                inr (its', rw its' (omega (arith, before', past)))
            | inr over ↦
                let over' : end lease_ms v ≤ store.now = rw same at over in
                inl (omega (arith, before, over'))
          ]

  Later-written :
      (store : Store) (put : Put) (etag : ℕ)
      → StoreFacts lease_ms store
      → Applies put.mode store.versions
      → PutFact lease_ms store put
      → Later lease_ms store (written store put etag)
  Later-written store put etag facts applies (started, justified) = record {
    time = omega arith;
    kept = λ v one. inr one;
    claims = each;
  }
    where
      each :
          (node u : ℕ)
          → Claim lease_ms store node u
          → Claim lease_ms (written store put etag) node u
      each node u (inl past) = inl past
      each node u (inr h) = Newest-written store put etag node u facts applies justified h

  pub StoreFacts-written :
      (store : Store) (put : Put) (etag : ℕ)
      → StoreFacts lease_ms store
      → OneOf put store.sent
      → Applies put.mode store.versions
      → IsFresh etag store.versions
      → StoreFacts lease_ms (written store put etag) × Later lease_ms store (written store put etag)
  StoreFacts-written store put etag facts one applies fresh =
      let fact = facts.sent_ok put one in
      let l = Later-written store put etag facts applies fact in
      (
        record {
          fresh = (fresh, facts.fresh);
          versions_ok = each l fact;
          sent_ok = λ p was. PutFact-Later lease_ms p l (facts.sent_ok p was);
        },
        l,
      )
    where
      each :
          Later lease_ms store (written store put etag)
          → PutFact lease_ms store put
          → (v : Version) → OneOf v (version store put etag ∷ store.versions)
          → VersionFact lease_ms (written store put etag) v
      each l fact v (inl e) = rw e (omega arith, inr (refl, omega (arith, fact.0)))
      each l fact v (inr was) = VersionFact-Later lease_ms v l (facts.versions_ok v was)

  pub StoreFacts-elapses :
      (store : Store) (ms : ℕ)
      → StoreFacts lease_ms store
      → StoreFacts lease_ms (record store { now = store.now + ms })
        × Later lease_ms store (record store { now = store.now + ms })
  StoreFacts-elapses store ms facts = (
    record {
      fresh = facts.fresh;
      versions_ok = λ v one. VersionFact-Later lease_ms v l (facts.versions_ok v one);
      sent_ok = λ p one. PutFact-Later lease_ms p l (facts.sent_ok p one);
    },
    l,
  )
    where
      l : Later lease_ms store (record store { now = store.now + ms })
      l = record { time = omega arith; kept = λ v one. one; claims = λ node u c. ground arith }
