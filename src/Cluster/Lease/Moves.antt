-- ===== src/Cluster/Lease/Moves.antt =====
-- A worker's moves in src/cluster.rs keep what it and the lease's store know of each other.
use gengis_mimi.Shared.{ℕ, ◌+◌, ◌≡◌, ◌⊎◌, refl, subst, inl, inr, some, List, [], ◌∷◌, arith}
use gengis_mimi.Cluster.Lease.{Mode, Put, Fetched, Worker, answer}
use gengis_mimi.Cluster.Lease.Steps.{
  Version, Store, OneOf, newest, send, Move, ticks, stops, renews, gets, reads, breaks, gives_up,
  passes, tries, is_answered, is_lost, finishes, panics,
}
use gengis_mimi.Cluster.Lease.Facts.{
  Claim, Justified, PutFact, StoreFacts, Holds, Read, At, WorkerFacts, Later, WorkerFacts-Later,
}
use gengis_mimi.Cluster.Lease.Choosing.{choose-Chosen}
use gengis_mimi.Cluster.Lease.Keeps.{Keeps, check-Keeps, answer-Keeps, finish-Keeps}

module _ (lease_ms : ℕ → ℕ) where
  -- Sending a put changes nothing that is known.
  Later-send : (store : Store) (put : Put) → Later lease_ms store (send lease_ms store put)
  Later-send store put = record { time = omega arith; kept = λ v one. one; claims = λ node u c. c }

  Later-same : (store : Store) → Later lease_ms store store
  Later-same store = record { time = omega arith; kept = λ v one. one; claims = λ node u c. c }

  pub StoreFacts-send :
      (store : Store) (put : Put)
      → StoreFacts lease_ms store
      → PutFact lease_ms store put
      → StoreFacts lease_ms (send lease_ms store put)
  StoreFacts-send store put facts this = record {
    fresh = facts.fresh;
    versions_ok = λ v one. facts.versions_ok v one;
    sent_ok = each;
  }
    where
      each : (p : Put) → OneOf p (put ∷ store.sent) → PutFact lease_ms (send lease_ms store put) p
      each p (inl e) = rw e this
      each p (inr one) = facts.sent_ok p one

  -- A move that leaves the store as it is.
  here :
      {node : ℕ} {store : Store} {w : Worker}
      → StoreFacts lease_ms store
      → Keeps lease_ms store node w
      → At lease_ms store node w.phase
      → StoreFacts lease_ms store × Later lease_ms store store × WorkerFacts lease_ms store node w
  here {store = store} facts (noted, holds) here_now =
      (facts, Later-same store, record { noted = noted; holds = holds; at_phase = here_now })

  -- A put that is sent, in what the worker is then.
  there :
      {node : ℕ} {store : Store} {w : Worker} (put : Put)
      → StoreFacts lease_ms store
      → WorkerFacts lease_ms store node w
      → PutFact lease_ms store put
      → StoreFacts lease_ms (send lease_ms store put)
        × Later lease_ms store (send lease_ms store put)
        × WorkerFacts lease_ms (send lease_ms store put) node w
  there {store = store} put facts h fact = (
    StoreFacts-send store put facts fact,
    Later-send store put,
    WorkerFacts-Later lease_ms (Later-send store put) h,
  )

  own_mode :
      (store : Store) (node etag : ℕ) (w : Worker)
      → w.owned ≡ some etag
      → Holds lease_ms store node w.owned w.deadline w.opening w.until
      → Justified lease_ms store node (Mode.update etag)
  own_mode store node etag w e holds =
      let (wrote, claim, within, opens) =
        subst (λ o. Holds lease_ms store node o w.deadline w.opening w.until) e holds in
      let (v, one, same, mine) = wrote in (v, one, same, inl mine)

  newest-Read :
      (store : Store) (f : Fetched)
      → StoreFacts lease_ms store
      → (f ≡ newest lease_ms store.versions) ⊎ (f ≡ Fetched.unreadable)
      → Read lease_ms store f
  newest-Read store f facts (inr e) = rw e tt
  newest-Read store f facts (inl e) = rw e (of store.versions (λ v one. one))
    where
      of :
          (versions : List Version)
          → ((v : Version) → OneOf v versions → OneOf v store.versions)
          → Read lease_ms store (newest lease_ms versions)
      of [] h = tt
      of (v ∷ versions) h =
          (v, h v (inl refl), refl, (refl, (facts.versions_ok v (h v (inl refl))).0))

  pub Move-Facts :
      {node : ℕ} {old new : Store} {before after : Worker}
      → Move lease_ms node old before new after
      → StoreFacts lease_ms old
      → WorkerFacts lease_ms old node before
      → StoreFacts lease_ms new × Later lease_ms old new × WorkerFacts lease_ms new node after
  unfolding answer
  Move-Facts {node} {old} {before = w} (ticks failed p) facts h =
      here facts (check-Keeps lease_ms old node failed w (h.noted, h.holds)) tt
  Move-Facts (stops p) facts h = here facts (tt, refl) tt
  Move-Facts {node} {old} {before = w} (renews etag put p owned e) facts h =
      there put facts (record { noted = h.noted; holds = h.holds; at_phase = rw e refl })
        (rw e (omega arith, own_mode old node etag w owned h.holds))
  Move-Facts (gets p owned) facts h = here facts (h.noted, h.holds) (omega arith)
  Move-Facts {node} {old} (reads started f p e) facts h =
      here facts (h.noted, h.holds)
        (subst (At lease_ms old node) p h.at_phase, newest-Read old f facts e)
  Move-Facts (breaks started p) facts h = here facts (h.noted, h.holds) tt
  Move-Facts (gives_up started f e p c) facts h = here facts (h.noted, h.holds) tt
  Move-Facts {node} {old} {before = w} (passes started f observed p c) facts h =
      let (since, read) = subst (At lease_ms old node) p h.at_phase in
      here facts (choose-Chosen lease_ms old node f w.observed facts read h.noted c, h.holds) tt
  Move-Facts {node} {old} {before = w} (tries started f mode observed put p c e) facts h =
      let (since, read) = subst (At lease_ms old node) p h.at_phase in
      let (justified, noted) = choose-Chosen lease_ms old node f w.observed facts read h.noted c in
      there put facts (record { noted = noted; holds = h.holds; at_phase = rw e refl })
        (rw e (since, justified))
  Move-Facts {node} {old} {before = w} (is_answered put v p one same) facts h =
      let mine = subst (At lease_ms old node) p h.at_phase in
      let claim = facts.versions_ok v one in
      here facts
        (answer-Keeps lease_ms old node put.started w v one (rw same mine)
          (subst (λ q. Claim lease_ms old q (put.started + lease_ms q)) mine
            (subst (λ (q : Put). Claim lease_ms old q.node (q.started + lease_ms q.node)) same
              claim.1))
          (h.noted, h.holds))
        tt
  Move-Facts (is_lost put p) facts h = here facts (tt, refl) tt
  Move-Facts {node} {old} {before = w} (finishes o p) facts h =
      here facts (finish-Keeps lease_ms old node o w (h.noted, h.holds)) tt
  Move-Facts (panics p) facts h = here facts (h.noted, h.holds) tt
