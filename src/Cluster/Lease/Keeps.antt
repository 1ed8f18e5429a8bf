-- ===== src/Cluster/Lease/Keeps.antt =====
-- What src/cluster.rs does between two waits keeps what a worker's variables say of its lease.
use gengis_mimi.Shared.{
  ℕ, ◌+◌, ◌-◌, ◌≡◌, refl, Bool, true, false, ◌&&◌, ◌||◌, Option, none, some, arith, ltb, leb,
  if◌then◌else◌,
}
use gengis_mimi.Cluster.Lease.{
  Worker, Opening, is_some, retire, check, renewed, own, answer, finish,
}
use gengis_mimi.Cluster.Lease.Steps.{Version, Store, OneOf}
use gengis_mimi.Cluster.Lease.Facts.{Claim, Noted, Within, Opens, Holds}

module _ (lease_ms : ℕ → ℕ) where
  -- What holds of `owned`, `deadline` and `until`, of a worker.
  abbrev pub Keeps : Store → ℕ → Worker → Type 0
  Keeps store node w =
      Noted lease_ms store w.observed
      × Holds lease_ms store node w.owned w.deadline w.opening w.until

  Keeps-if :
      (store : Store) (node : ℕ) (b : Bool) (x y : Worker)
      → (b ≡ true → Keeps store node x)
      → (b ≡ false → Keeps store node y)
      → Keeps store node (if b then x else y)
  Keeps-if store node true x y h k = h refl
  Keeps-if store node false x y h k = k refl

  pub check-Keeps :
      (store : Store) (node : ℕ) (active_failed : Bool) (w : Worker)
      → Keeps store node w
      → Keeps store node (check store.now active_failed w)
  unfolding check
  check-Keeps store node active_failed w h =
      Keeps-if store node (is_some w.owned && (leb w.deadline store.now || active_failed))
        (retire w) w (λ lost. (tt, refl)) (λ kept. h)

  renewed-Within : (u : Option ℕ) (deadline : ℕ) → Within lease_ms (renewed deadline u) deadline
  renewed-Within none deadline = tt
  renewed-Within (some u) deadline = omega arith

  renewed-Opens :
      (b : Bool) (u : Option ℕ) (deadline : ℕ)
      → Opens lease_ms b u
      → Opens lease_ms b (renewed deadline u)
  renewed-Opens true u deadline h = rw h refl
  renewed-Opens false u deadline h = tt

  -- `opening` and `until` of one that has got its lease, or renewed it.
  own-Opens :
      (store : Store) (node deadline : ℕ) (o : Option ℕ) (old : ℕ) (opening : Bool) (u : Option ℕ)
      → Holds lease_ms store node o old opening u
      → Within lease_ms (if is_some o then renewed deadline u else u) deadline
        × Opens lease_ms
            (if is_some o then opening else true)
            (if is_some o then renewed deadline u else u)
  own-Opens store node deadline none old opening u e = (rw e tt, e)
  own-Opens store node deadline (some etag) old opening u (wrote, claim, within, opens) =
      (renewed-Within u deadline, renewed-Opens opening u deadline opens)

  own-Keeps :
      (store : Store) (node started : ℕ) (w : Worker) (v : Version)
      → OneOf v store.versions
      → v.put.node ≡ node
      → Claim lease_ms store node (started + lease_ms node)
      → Keeps store node w
      → Keeps store node (own v.etag started (lease_ms node) w)
  unfolding own
  own-Keeps store node started w v one same claim (noted, holds) =
      let (within, opens) =
        own-Opens store node (started + lease_ms node) w.owned w.deadline w.opening w.until holds in
      (noted, ((v, one, refl, same), claim, within, opens))

  pub answer-Keeps :
      (store : Store) (node started : ℕ) (w : Worker) (v : Version)
      → OneOf v store.versions
      → v.put.node ≡ node
      → Claim lease_ms store node (started + lease_ms node)
      → Keeps store node w
      → Keeps store node (answer store.now (lease_ms node) started (some v.etag) w)
  unfolding answer
  answer-Keeps store node started w v one same claim h =
      Keeps-if store node (ltb (store.now - started) (lease_ms node))
        (own v.etag started (lease_ms node) w) (retire w)
        (λ soon. own-Keeps store node started w v one same claim h) (λ late. (tt, refl))

  -- One that opens its database serves nothing when it lets its lease go.
  let_go :
      (store : Store) (node : ℕ) (o : Option ℕ) (deadline : ℕ) (opening : Bool) (u : Option ℕ)
      → (is_some o && opening) ≡ true
      → Holds lease_ms store node o deadline opening u
      → u ≡ none
  let_go store node (some etag) deadline true u h (wrote, claim, within, opens) = opens
  let_go store node (some etag) deadline false u h holds = absurd (cc)
  let_go store node none deadline opening u h holds = holds

  served :
      (store : Store) (node : ℕ) (o : Option ℕ) (deadline : ℕ) (opening : Bool) (u : Option ℕ)
      → (is_some o && opening) ≡ true
      → Holds lease_ms store node o deadline opening u
      → Holds lease_ms store node o deadline false (some deadline)
  served store node (some etag) deadline opening u h (wrote, claim, within, opens) =
      (wrote, claim, omega arith, tt)
  served store node none deadline opening u h holds = absurd (cc)

  abbrev up : Worker → Worker
  up w = record w { opening = false; until = some w.deadline }

  abbrev down : Worker → Worker
  down w = record w { opening = false; owned = none; observed = none }

  pub finish-Keeps :
      (store : Store) (node : ℕ) (o : Opening) (w : Worker)
      → Keeps store node w
      → Keeps store node (finish store.now o w)
  unfolding finish
  finish-Keeps store node Opening.running w h = h
  finish-Keeps store node Opening.opened w (noted, holds) =
      Keeps-if store node (is_some w.owned && w.opening)
        (if ltb store.now w.deadline then up w else down w) w
        (λ opens.
          Keeps-if store node (ltb store.now w.deadline) (up w) (down w)
            (λ soon. (noted, served store node w.owned w.deadline w.opening w.until opens holds))
            (λ late. (tt, let_go store node w.owned w.deadline w.opening w.until opens holds)))
        (λ shut. (noted, holds))
  finish-Keeps store node Opening.refused w (noted, holds) =
      Keeps-if store node (is_some w.owned && w.opening) (down w) w
        (λ opens. (tt, let_go store node w.owned w.deadline w.opening w.until opens holds))
        (λ shut. (noted, holds))
