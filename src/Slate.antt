-- ===== src/Slate.antt =====
-- The object-storage database (SlateDB) as the program uses it: a parameter, with its documented
-- behaviour as laws. Its durable content is a list of entries in key order.
-- A batch is applied whole or not at all. One that is reported to have failed may still have been
-- applied: the program's own error text says so. A scan lists its rows at once, so one that fails
-- half-way has listed none.
pub mod Entries
pub mod Sorted
pub mod Same
pub mod Range
pub mod Total
pub mod Action
pub mod Writes
pub mod Deletes
pub mod Batches
pub mod Succeeds
use gengis_mimi.Shared.{ℕ, Bool, ◌≡◌, ◌⊎◌, Option, List}
use gengis_mimi.Shared.Bytes.{Bytes}
use gengis_mimi.Error.{Error, Result, ok, err}
use Entries.{Entry, Op, lookup, apply_batch, with_prefix, with_range, with_after}

pub record Slate : Type 1 where
  pub Db : Type 0
  pub entries : Db → List Entry
  -- `status().close_reason` is set
  pub closed : Db → Bool
  -- `get_with_options` and the scans, which read what is durable
  pub get : Db → Bytes → Result (Option Bytes)
  pub scan : Db → Result (List Entry)
  pub scan_prefix : Db → Bytes → Result (List Entry)
  -- The rows under a prefix whose keys behind it lie in `low..high`.
  pub scan_range : Db → Bytes → Bytes → Bytes → Result (List Entry)
  -- The rows under a prefix whose keys behind it lie above a bound.
  pub scan_after : Db → Bytes → Bytes → Result (List Entry)
  -- `write`, and `put` and `delete` as batches of one, awaited until durable; the sequence number
  pub write : Db → List Op → Result ℕ × Db
  pub get_lem :
      (db : Db) (k : Bytes) {v : Option Bytes} → get db k ≡ ok v → v ≡ lookup k (entries db)
  pub scan_lem : (db : Db) {es : List Entry} → scan db ≡ ok es → es ≡ entries db
  pub scan_prefix_lem :
      (db : Db) (p : Bytes) {es : List Entry}
      → scan_prefix db p ≡ ok es
      → es ≡ with_prefix p (entries db)
  pub scan_range_lem :
      (db : Db) (p low high : Bytes) {es : List Entry}
      → scan_range db p low high ≡ ok es
      → es ≡ with_range p low high (entries db)
  pub scan_after_lem :
      (db : Db) (p after : Bytes) {es : List Entry}
      → scan_after db p after ≡ ok es
      → es ≡ with_after p after (entries db)
  pub write_lem :
      (db : Db) (b : List Op) {n : ℕ}
      → (write db b).0 ≡ ok n
      → entries (write db b).1 ≡ apply_batch b (entries db)
  pub write_failed :
      (db : Db) (b : List Op) {e : Error}
      → (write db b).0 ≡ err e
      → (entries (write db b).1 ≡ entries db)
        ⊎ (entries (write db b).1 ≡ apply_batch b (entries db))

-- Nothing fails: what a theorem that promises a result assumes of the database.
pub record IsHealthy (s : Slate) : Type 0 where
  pub get_ok : (db : s.Db) (k : Bytes) → s.get db k ≡ ok (lookup k (s.entries db))
  pub scan_ok : (db : s.Db) → s.scan db ≡ ok (s.entries db)
  pub scan_prefix_ok :
      (db : s.Db) (p : Bytes) → s.scan_prefix db p ≡ ok (with_prefix p (s.entries db))
  pub scan_range_ok :
      (db : s.Db) (p low high : Bytes)
      → s.scan_range db p low high ≡ ok (with_range p low high (s.entries db))
  pub scan_after_ok :
      (db : s.Db) (p after : Bytes)
      → s.scan_after db p after ≡ ok (with_after p after (s.entries db))
  pub write_ok : (db : s.Db) (b : List Op) → (n : ℕ) × ((s.write db b).0 ≡ ok n)
