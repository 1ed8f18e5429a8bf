-- ===== src/Examples.antt =====
-- Concrete parameters: a database in memory, a serializer of lists of numbers and a checksum.
mod Configs
pub mod Searches
pub mod Deletions
mod Leases
mod Pages
mod Builds
pub mod Runs
pub mod Backups
pub mod Namespaces
pub mod Accesses
use gengis_mimi.Shared.{
  ℕ, zero, suc, ◌+◌, ◌%◌, ◌^◌, ◌<◌, ◌≡◌, refl, sym, ap, Bool, false, Option, none, some, List, [],
  ◌∷◌, ◌++◌, map, arith, length, take_exact, take_exact-length, cons_front, all, All, ltb, ltb→lt,
  &&-eq-true, true,
}
use gengis_mimi.Shared.Bytes.{Bytes, IsByte}
use gengis_mimi.Error.{Error, Result, ok, err, ok-injective}
use gengis_mimi.Model.{Metric, NamespaceConfig, Namespace, NamespaceStats, Document}
use gengis_mimi.Slate.{Slate, IsHealthy}
use gengis_mimi.Slate.Entries.{Entry, Op, lookup, apply_batch, with_prefix, with_range, with_after}
use gengis_mimi.Engine.Serde.{Serde}

abbrev memory_write : List Entry → List Op → Result ℕ × List Entry
memory_write es b = (ok (length b), apply_batch b es)

pub never_failed : {A B : Type 0} {a : A} {e : Error} → ok a ≡ err e → B
never_failed h = cc

-- A database that never fails.
abbrev pub memory : Slate
memory = record {
  Db = List Entry;
  entries = λ es. es;
  closed = λ es. false;
  get = λ es k. ok (lookup k es);
  scan = λ es. ok es;
  scan_prefix = λ es p. ok (with_prefix p es);
  scan_range = λ es p low high. ok (with_range p low high es);
  scan_after = λ es p after. ok (with_after p after es);
  write = memory_write;
  get_lem = λ es k e. sym (ok-injective e);
  scan_lem = λ es e. sym (ok-injective e);
  scan_prefix_lem = λ es p e. sym (ok-injective e);
  scan_range_lem = λ es p low high e. sym (ok-injective e);
  scan_after_lem = λ es p after e. sym (ok-injective e);
  write_lem = λ es b e. refl;
  write_failed = λ es b e. never_failed e;
}

-- Fields, each behind its length.
abbrev frames : List Bytes → Bytes
frames [] = []
frames (x ∷ xs) = length x ∷ (x ++ frames xs)

abbrev add_frame : Bytes → Option (List Bytes) → Option (List Bytes)
add_frame x none = none
add_frame x (some xs) = some (x ∷ xs)

abbrev read_frame : Option (Bytes × Bytes) → (Bytes → Option (List Bytes)) → Option (List Bytes)
read_frame none k = none
read_frame (some (x, rest)) k = add_frame x (k rest)

abbrev pub read_frames : ℕ → Bytes → Option (List Bytes)
read_frames zero bytes = some []
read_frames (suc n) [] = none
read_frames (suc n) (size ∷ bytes) = read_frame (take_exact size bytes) (read_frames n)

pub read_frames-frames : (xs : List Bytes) → read_frames (length xs) (frames xs) ≡ some xs
read_frames-frames [] = refl
read_frames-frames (x ∷ xs) = rw (take_exact-length x (frames xs), read_frames-frames xs)

abbrev unit_attribute : Bytes → Bytes × Unit {0}
unit_attribute field = (field, tt)

abbrev fields : List (Bytes × Unit {0}) → List Bytes
fields [] = []
fields ((field, u) ∷ rest) = field ∷ fields rest

attributes_round : (xs : List (Bytes × Unit {0})) → map unit_attribute (fields xs) ≡ xs
attributes_round [] = refl
attributes_round ((field, u) ∷ rest) = ap (λ l. (field, u) ∷ l) (attributes_round rest)

abbrev metric_code : Metric → ℕ
metric_code Metric.cosine = 0
metric_code Metric.dot = 1
metric_code Metric.squared_euclidean = 2

abbrev metric_of : ℕ → Metric
metric_of zero = Metric.cosine
metric_of (suc zero) = Metric.dot
metric_of (suc (suc n)) = Metric.squared_euclidean

pub metric_round : (m : Metric) → metric_of (metric_code m) ≡ m
metric_round Metric.cosine = refl
metric_round Metric.dot = refl
metric_round Metric.squared_euclidean = refl

abbrev dimensions_code : Option ℕ → Bytes
dimensions_code none = []
dimensions_code (some d) = d ∷ []

abbrev dimensions_of : Bytes → Option ℕ
dimensions_of [] = none
dimensions_of (d ∷ ds) = some d

pub dimensions_round : (d : Option ℕ) → dimensions_of (dimensions_code d) ≡ d
dimensions_round none = refl
dimensions_round (some d) = refl

abbrev as_namespace : Option (List Bytes) → Option Namespace
as_namespace (some (name ∷ dimensions ∷ (m ∷ []) ∷ text_fields)) = some (record {
  name = name;
  config = record {
    dimensions = dimensions_of dimensions;
    metric = metric_of m;
    text_fields = text_fields;
  };
})
as_namespace _ = none

abbrev as_document : Option (List Bytes) → Option (Document (Unit {0}))
as_document (some (id ∷ rest)) =
    some (record { id = id; vector = none; attributes = map unit_attribute rest })
as_document _ = none

abbrev counted : List Bytes → Bytes
counted xs = length xs ∷ frames xs

abbrev read_counted : Bytes → Option (List Bytes)
read_counted [] = none
read_counted (n ∷ bytes) = read_frames n bytes

abbrev stats_of : Bytes → Option NamespaceStats
stats_of (r ∷ d ∷ b ∷ p ∷ []) =
    some (record { revision = r; documents = d; bytes = b; pending_documents = p })
stats_of _ = none

abbrev namespace_code : Namespace → Bytes
namespace_code n = counted (
    n.name
    ∷ dimensions_code n.config.dimensions
    ∷ (metric_code n.config.metric ∷ [])
    ∷ n.config.text_fields)

abbrev document_code : Document (Unit {0}) → Bytes
document_code d = counted (d.id ∷ fields d.attributes)

pub document_round_example :
    (d : Document (Unit {0}))
    → d.vector ≡ none
    → as_document (read_counted (document_code d)) ≡ some d
document_round_example d h =
    rw (read_frames-frames (d.id ∷ fields d.attributes), attributes_round d.attributes, ← h)

-- JSON values are left out of it.
abbrev pub serde_example : Serde (Unit {0})
serde_example = record {
  namespace_to_vec = namespace_code;
  namespace_from_slice = λ bytes. as_namespace (read_counted bytes);
  stats_to_vec = λ s. s.revision ∷ s.documents ∷ s.bytes ∷ s.pending_documents ∷ [];
  stats_from_slice = stats_of;
  document_to_vec = document_code;
  document_from_slice = λ bytes. as_document (read_counted bytes);
  namespace_round = λ n. rw (
    read_frames-frames (
        n.name
        ∷ dimensions_code n.config.dimensions
        ∷ (metric_code n.config.metric ∷ [])
        ∷ n.config.text_fields),
    metric_round n.config.metric,
    dimensions_round n.config.dimensions,
  );
  stats_round = λ s. refl;
  document_round = document_round_example;
}

abbrev pub checksum : Bytes → ℕ
checksum bytes = length bytes % 2 ^ 32

pub checksum-lt : (bytes : Bytes) → checksum bytes < 2 ^ 32
checksum-lt bytes = omega arith

-- Numbers that are bytes.
pub all-IsByte : (bs : Bytes) → all (λ b. ltb b 256) bs ≡ true → All IsByte bs
all-IsByte [] h = tt
all-IsByte (b ∷ bs) h =
    let (p, q) = &&-eq-true (ltb b 256) (all (λ b. ltb b 256) bs) h in
    (ltb→lt b 256 p, all-IsByte bs q)
