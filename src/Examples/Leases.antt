-- ===== src/Examples/Leases.antt =====
-- A run of two workers of a shard, for src/cluster.rs.
use gengis_mimi.Shared.{ℕ, ◌≡◌, refl, inl, true, false, none}
use gengis_mimi.Cluster.Lease.{
  Mode, Put, Fetched, Opening, serves, check, choose, compare, own, answer, finish,
}
use gengis_mimi.Cluster.Lease.Steps.{
  Shard, Reach, start, later, ticks, gets, reads, tries, is_answered, finishes, moves, lands,
  elapses,
}
use gengis_mimi.Cluster.Lease.Exclusive.{serves_alone}

abbrev lease_ms : ℕ → ℕ
lease_ms node = 3000

abbrev first_put : Put
first_put = record { node = 0; started = 0; mode = Mode.create }

abbrev first : ℕ
first = 0

-- The first worker creates the lease and opens the database.
serving_worker :
    (s : Shard) × Reach lease_ms s × (serves s.store.now false (s.workers 0).until ≡ true)
unfolding serves check choose compare own answer finish
serving_worker = (
  _,
  later
      (later
        (later
          (later
            (later
              (later (later (later start (moves 0 (ticks false refl))) (moves 0 (gets refl refl)))
                (moves 0 (reads 0 Fetched.missing refl (inl refl))))
              (moves 0 (tries 0 Fetched.missing Mode.create none first_put refl refl refl)))
            (elapses 20))
          (lands first_put 7 (inl refl) tt tt))
        (moves 0 (is_answered first_put _ refl (inl refl) refl)))
      (moves 0 (finishes Opening.opened refl)),
  refl,
)

serves_alone_example : first ≡ first
serves_alone_example =
    serves_alone lease_ms {s = serving_worker.0} first first false false serving_worker.1
      serving_worker.2 serving_worker.2
