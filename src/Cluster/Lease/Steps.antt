-- ===== src/Cluster/Lease/Steps.antt =====
-- The workers of a shard and the lease's object between them, as src/cluster.rs has them interleave.
-- The object store is not code of the repository. What is taken of it: a conditional put is applied
-- at some time or never, if its condition holds then, and each gives the object an ETag that it
-- never had; a read is of the newest version; a put is answered by an ETag only where it was applied.
use gengis_mimi.Shared.{
  ℕ, ◌+◌, ◌≡◌, ◌≢◌, ◌⊎◌, Bool, false, Option, none, some, List, [], ◌∷◌, ◌==◌, if◌then◌else◌,
}
use gengis_mimi.Error.{ok, err, Error}
use gengis_mimi.Cluster.Lease.{
  Mode, Put, Fetched, Phase, Worker, Opening, retire, check, choose, answer, finish,
}

-- One version of the object: its ETag, the put that wrote it, and when.
pub record Version : Type 0 where
  pub etag : ℕ
  pub put : Put
  pub at : ℕ

-- The versions are newest first. A put that was sent may be applied at any later time.
pub record Store : Type 0 where
  pub now : ℕ
  pub versions : List Version
  pub sent : List Put

pub record Shard : Type 0 where
  pub store : Store
  pub workers : ℕ → Worker

abbrev pub OneOf : {A : Type 0} → A → List A → Type 0
OneOf x [] = ⊥
OneOf x (y ∷ l) = (x ≡ y) ⊎ OneOf x l

-- A conditional put's condition.
abbrev pub Applies : Mode → List Version → Type 0
Applies Mode.create [] = Unit
Applies Mode.create (v ∷ versions) = ⊥
Applies (Mode.update etag) [] = ⊥
Applies (Mode.update etag) (v ∷ versions) = v.etag ≡ etag

abbrev pub IsFresh : ℕ → List Version → Type 0
IsFresh etag [] = Unit
IsFresh etag (v ∷ versions) = (v.etag ≢ etag) × IsFresh etag versions

abbrev pub with_worker : (ℕ → Worker) → ℕ → Worker → ℕ → Worker
with_worker workers node w i = if i == node then w else workers i

module _ (lease_ms : ℕ → ℕ) where
  abbrev pub newest : List Version → Fetched
  newest [] = Fetched.missing
  newest (v ∷ versions) = Fetched.found v.etag (lease_ms v.put.node)

  abbrev pub waits : Phase → Worker → Worker
  waits phase w = record w { phase = phase }

  abbrev pub send : Store → Put → Store
  send store put = record store { sent = put ∷ store.sent }

  -- What a worker does at once, between two waits. A tick may come at any time, where the code has
  -- one at least `ttl / 3` after another, so not every run of these is one of the program.
  pub data Move (node : ℕ) (store : Store) (w : Worker) : Store → Worker → Type 0 where
    ticks :
        (active_failed : Bool)
        → w.phase ≡ Phase.waiting
        → Move node store w store (waits Phase.starting (check store.now active_failed w))
    stops : w.phase ≡ Phase.waiting → Move node store w store (waits Phase.done (retire w))
    renews :
        (etag : ℕ) (put : Put)
        → w.phase ≡ Phase.starting
        → w.owned ≡ some etag
        → put ≡ record { node = node; started = store.now; mode = Mode.update etag }
        → Move node store w (send store put) (waits (Phase.putting put) w)
    gets :
        w.phase ≡ Phase.starting
        → w.owned ≡ none
        → Move node store w store (waits (Phase.reading store.now) w)
    reads :
        (started : ℕ) (f : Fetched)
        → w.phase ≡ Phase.reading started
        → (f ≡ newest store.versions) ⊎ (f ≡ Fetched.unreadable)
        → Move node store w store (waits (Phase.fetched started f) w)
    -- An object without an ETag, or that is no lease, ends the loop.
    breaks :
        (started : ℕ)
        → w.phase ≡ Phase.reading started
        → Move node store w store (waits Phase.done w)
    gives_up :
        (started : ℕ) (f : Fetched) (e : Error)
        → w.phase ≡ Phase.fetched started f
        → choose store.now f w.observed ≡ err e
        → Move node store w store (waits Phase.done w)
    passes :
        (started : ℕ) (f : Fetched) (observed : Option (ℕ × ℕ))
        → w.phase ≡ Phase.fetched started f
        → choose store.now f w.observed ≡ ok (none, observed)
        → Move node store w store (record w { observed = observed; phase = Phase.waiting })
    tries :
        (started : ℕ) (f : Fetched) (mode : Mode) (observed : Option (ℕ × ℕ)) (put : Put)
        → w.phase ≡ Phase.fetched started f
        → choose store.now f w.observed ≡ ok (some mode, observed)
        → put ≡ record { node = node; started = started; mode = mode }
        → Move node store w
            (send store put)
            (record w { observed = observed; phase = Phase.putting put })
    -- The put was applied, and the answer says so.
    is_answered :
        (put : Put) (v : Version)
        → w.phase ≡ Phase.putting put
        → OneOf v store.versions
        → v.put ≡ put
        → Move node store w store
            (waits Phase.finishing (answer store.now (lease_ms node) put.started (some v.etag) w))
    -- The put failed or timed out, whether or not it was applied or will be.
    is_lost :
        (put : Put)
        → w.phase ≡ Phase.putting put
        → Move node store w store
            (waits Phase.finishing (answer store.now (lease_ms node) put.started none w))
    finishes :
        (o : Opening)
        → w.phase ≡ Phase.finishing
        → Move node store w store (waits Phase.waiting (finish store.now o w))
    -- The opening task panicked, or no router could be made of the configuration.
    panics : w.phase ≡ Phase.finishing → Move node store w store (waits Phase.done w)

  pub data Step (s : Shard) : Shard → Type 0 where
    moves :
        (node : ℕ) {store : Store} {w : Worker}
        → Move node s.store (s.workers node) store w
        → Step s (record { store = store; workers = with_worker s.workers node w })
    elapses : (ms : ℕ) → Step s (record s { store = record (s.store) { now = s.store.now + ms } })
    lands :
        (put : Put) (etag : ℕ)
        → OneOf put s.store.sent
        → Applies put.mode s.store.versions
        → IsFresh etag s.store.versions
        → Step s (record s {
          store = record (s.store) {
            versions = record { etag = etag; put = put; at = s.store.now } ∷ s.store.versions;
          };
        })

  -- `run_worker` before its loop; `active` is that of `WorkerState::default`.
  abbrev pub idle : ℕ → Worker
  idle now = record {
    observed = none;
    owned = none;
    deadline = now;
    opening = false;
    until = none;
    phase = Phase.waiting;
  }

  -- No lease yet, and every worker before its loop.
  abbrev pub init : Shard
  init = record { store = record { now = 0; versions = []; sent = [] }; workers = λ _. idle 0 }

  pub data Reach : Shard → Type 0 where
    start : Reach init
    later : {s t : Shard} → Reach s → Step s t → Reach t
