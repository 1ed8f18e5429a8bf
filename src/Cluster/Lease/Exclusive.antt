-- ===== src/Cluster/Lease/Exclusive.antt =====
-- At no time do two workers of a shard serve, in src/cluster.rs.
use gengis_mimi.Shared.{
  ℕ, ◌+◌, ◌≤◌, ◌<◌, ◌≡◌, ◌⊎◌, refl, sym, ◌∙◌, inl, inr, Bool, true, Bool-cases, Option, none, some,
  List, [], ◌∷◌, arith, ◌==◌, ltb, ltb→lt, &&-eq-true, not, Bool, ==_iff,
}
use gengis_mimi.Cluster.Lease.{Worker, serves}
use gengis_mimi.Cluster.Lease.Steps.{
  Version, Store, Shard, Step, moves, elapses, lands, Reach, start, later, init, with_worker,
}
use gengis_mimi.Cluster.Lease.Facts.{Newest, Holds, WorkerFacts, WorkerFacts-Later, Facts, Later}
use gengis_mimi.Cluster.Lease.Moves.{Move-Facts}
use gengis_mimi.Cluster.Lease.Lands.{StoreFacts-written, StoreFacts-elapses}

module _ (lease_ms : ℕ → ℕ) where
  idle-Facts : Facts lease_ms (init lease_ms).store (init lease_ms).workers
  idle-Facts = record {
    of_store = record {
      fresh = tt;
      versions_ok = λ v one. absurd one;
      sent_ok = λ p one. absurd one;
    };
    of_worker = λ node. record { noted = tt; holds = refl; at_phase = tt };
  }

  -- One worker has moved, the others see the new store.
  others :
      {old new : Store} (workers : ℕ → Worker) (node : ℕ) (w : Worker)
      → Later lease_ms old new
      → WorkerFacts lease_ms new node w
      → ((i : ℕ) → WorkerFacts lease_ms old i (workers i))
      → (i : ℕ) → WorkerFacts lease_ms new i (with_worker workers node w i)
  others {new = new} workers node w l h each i = elim (Bool-cases (i == node)) [
    | inl same ↦ rw same (rw ((==_iff i node).0 same) h)
    | inr other ↦ rw other (WorkerFacts-Later lease_ms l (each i))
  ]

  Step-Facts :
      {s t : Shard}
      → Step lease_ms s t
      → Facts lease_ms s.store s.workers
      → Facts lease_ms t.store t.workers
  Step-Facts {s} (moves node {store} {w} move) facts =
      let (of_store, l, h) = Move-Facts lease_ms move facts.of_store (facts.of_worker node) in
      record { of_store = of_store; of_worker = others s.workers node w l h facts.of_worker }
  Step-Facts {s} (elapses ms) facts =
      let (of_store, l) = StoreFacts-elapses lease_ms s.store ms facts.of_store in
      record {
        of_store = of_store;
        of_worker = λ i. WorkerFacts-Later lease_ms l (facts.of_worker i);
      }
  Step-Facts {s} (lands put etag one applies fresh) facts =
      let (of_store, l) =
        StoreFacts-written lease_ms s.store put etag facts.of_store one applies fresh in
      record {
        of_store = of_store;
        of_worker = λ i. WorkerFacts-Later lease_ms l (facts.of_worker i);
      }

  pub Reach-Facts : {s : Shard} → Reach lease_ms s → Facts lease_ms s.store s.workers
  Reach-Facts start = idle-Facts
  Reach-Facts (later r st) = Step-Facts st (Reach-Facts r)

  -- Who serves has the newest lease, for as long as it serves.
  serves-Newest :
      (store : Store) (node : ℕ) (o : Option ℕ) (deadline : ℕ) (opening closed : Bool)
      (u : Option ℕ)
      → Holds lease_ms store node o deadline opening u
      → serves store.now closed u ≡ true
      → Newest lease_ms node (store.now + 1) store.versions
  unfolding serves
  serves-Newest store node none deadline opening closed none h e = absurd (cc)
  serves-Newest store node none deadline opening closed (some u) h e = absurd (cc)
  serves-Newest store node (some etag) deadline opening closed none h e = absurd (cc)
  serves-Newest store node (some etag) deadline opening closed (some u)
        (wrote, claim, within, opens) e =
      of store.versions claim
    where
      soon : store.now < u
      soon = ltb→lt store.now u (&&-eq-true (ltb store.now u) (not closed) e).0

      of :
          (versions : List Version)
          → (deadline ≤ store.now) ⊎ Newest lease_ms node deadline versions
          → Newest lease_ms node (store.now + 1) versions
      of [] (inl past) = absurd (omega (arith, soon, within))
      of [] (inr h) = absurd h
      of (v ∷ versions) (inl past) = absurd (omega (arith, soon, within))
      of (v ∷ versions) (inr (mine, before)) = (mine, omega (arith, soon, within, before))

  serving :
      {s : Shard} (node : ℕ) (closed : Bool)
      → Reach lease_ms s
      → serves s.store.now closed (s.workers node).until ≡ true
      → Newest lease_ms node (s.store.now + 1) s.store.versions
  serving {s} node closed r e =
      let w = s.workers node in
      serves-Newest s.store node w.owned w.deadline w.opening closed w.until
        ((Reach-Facts r).of_worker node).holds e

  one-Newest :
      (a b u : ℕ) (versions : List Version)
      → Newest lease_ms a u versions
      → Newest lease_ms b u versions
      → a ≡ b
  one-Newest a b u [] h k = absurd h
  one-Newest a b u (v ∷ versions) (h, p) (k, q) = sym h ∙ k

  -- In every state that the workers of a shard reach together, from before their loops and under
  -- any interleaving of their steps, of the passing of time and of the puts that the object store
  -- applies, each once or more, early, late or never, with an ETag that the lease never had, two
  -- workers that both serve are one.
  pub serves_alone :
      {s : Shard} (a b : ℕ) (a_closed b_closed : Bool)
      → Reach lease_ms s
      → serves s.store.now a_closed (s.workers a).until ≡ true
      → serves s.store.now b_closed (s.workers b).until ≡ true
      → a ≡ b
  serves_alone {s} a b a_closed b_closed r h k =
      one-Newest a b (s.store.now + 1) s.store.versions (serving a a_closed r h)
        (serving b b_closed r k)
