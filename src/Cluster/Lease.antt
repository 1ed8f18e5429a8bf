-- ===== src/Cluster/Lease.antt =====
-- src/cluster.rs: `run_worker`, `retire`, `worker_ready` and `worker_forward`, the worker's side of a
-- shard's lease. A worker is a number, which stands for its process. `Instant` is one time for all,
-- in milliseconds, which no worker compares with another's. Each place where the code awaits is a
-- phase, and a function for what the code does between two of them.
-- Of an `UpdateVersion` the model has the ETag, as a number, and of a lease its worker and its ttl.
pub mod Steps
pub mod Facts
pub mod Choosing
pub mod Keeps
pub mod Moves
pub mod Lands
pub mod Exclusive
use gengis_mimi.Shared.{
  ℕ, ◌+◌, ◌-◌, Bool, true, false, not, ◌&&◌, ◌||◌, Option, none, some, List, [], ◌∷◌, ltb, leb,
  ◌==◌, in_range, if◌then◌else◌,
}
use gengis_mimi.Error.{Error, Result, ok, err}

-- `PutMode`
pub data Mode : Type 0 where
  create : Mode
  update : ℕ → Mode

-- A `put_opts` of a lease, and `started`.
pub record Put : Type 0 where
  pub node : ℕ
  pub started : ℕ
  pub mode : Mode

-- What `store.get` returns: an ETag and a `ttl_ms`, `NotFound`, or another error.
pub data Fetched : Type 0 where
  found : ℕ → ℕ → Fetched
  missing unreadable : Fetched

-- Where in `run_worker` a worker waits.
pub data Phase : Type 0 where
  waiting starting finishing done : Phase
  reading : ℕ → Phase
  fetched : ℕ → Fetched → Phase
  putting : Put → Phase

-- The loop's variables. `until` is that of `state.active`, `opening` that there is a task.
pub record Worker : Type 0 where
  pub observed : Option (ℕ × ℕ)
  pub owned : Option ℕ
  pub deadline : ℕ
  pub opening : Bool
  pub until : Option ℕ
  pub phase : Phase

abbrev pub is_some {ℓ} : {A : Type ℓ} → Option A → Bool
is_some none = false
is_some (some a) = true

-- `retire`, and what the loop does behind it.
abbrev pub retire : Worker → Worker
retire w = record w { observed = none; owned = none; opening = false; until = none }

-- The head of the loop. `active_failed` is that the active engine's database is closed.
unfoldable pub check : ℕ → Bool → Worker → Worker
check now active_failed w =
    if is_some w.owned && (leb w.deadline now || active_failed) then retire w else w

-- The `match &observed`: the mode, and what is observed then.
unfoldable pub compare : ℕ → ℕ → ℕ → Option (ℕ × ℕ) → Option Mode × Option (ℕ × ℕ)
compare now etag ttl none = (none, some (etag, now))
compare now etag ttl (some (old, since)) =
    if old == etag
    then (if leb ttl (now - since)
        then (some (Mode.update etag), some (old, since))
        else (none, some (old, since)))
    else (none, some (etag, now))

-- The `match store.get(&path).await`.
unfoldable pub choose : ℕ → Fetched → Option (ℕ × ℕ) → Result (Option Mode × Option (ℕ × ℕ))
unfolding compare
choose now (Fetched.found etag ttl) observed =
    if in_range 3000 300000 ttl then ok (compare now etag ttl observed) else err Error.corrupt
choose now Fetched.missing observed = ok (some Mode.create, observed)
choose now Fetched.unreadable observed = ok (none, observed)

-- The `until` of an owner that has renewed its lease.
abbrev pub renewed : ℕ → Option ℕ → Option ℕ
renewed deadline none = none
renewed deadline (some until) = some deadline

-- `Ok(Ok(version)) if started.elapsed() < ttl`, for a first lease and for a renewal.
unfoldable pub own : ℕ → ℕ → ℕ → Worker → Worker
own etag started ttl w = record w {
  owned = some etag;
  deadline = started + ttl;
  opening = if is_some w.owned then w.opening else true;
  until = if is_some w.owned then renewed (started + ttl) w.until else w.until;
}

-- The `match result`: an ETag, or that the put failed or timed out.
unfoldable pub answer : ℕ → ℕ → ℕ → Option ℕ → Worker → Worker
unfolding own
answer now ttl started none w = retire w
answer now ttl started (some etag) w =
    if ltb (now - started) ttl then own etag started ttl w else retire w

-- What has become of the opening task when the loop comes to it.
pub data Opening : Type 0 where
  running opened refused : Opening

-- `opening.take()`: the engine is served until the deadline, or the lease is let go.
unfoldable pub finish : ℕ → Opening → Worker → Worker
finish now Opening.running w = w
finish now Opening.opened w =
    if is_some w.owned && w.opening
    then (if ltb now w.deadline
        then record w { opening = false; until = some w.deadline }
        else record w { opening = false; owned = none; observed = none })
    else w
finish now Opening.refused w =
    if is_some w.owned && w.opening
    then record w { opening = false; owned = none; observed = none }
    else w

-- The tests of `worker_ready` and `worker_forward`: whether a request is served. `closed` is that the
-- engine's database is, which the one asks `check_ready` and the other tests itself.
unfoldable pub serves : ℕ → Bool → Option ℕ → Bool
serves now closed none = false
serves now closed (some until) = ltb now until && not closed
