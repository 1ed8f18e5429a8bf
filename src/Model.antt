-- ===== src/Model.antt =====
-- src/model.rs: the documents, requests and limits, and their validation.
-- A string is the list of its UTF-8 bytes, and an f32 or f64 the number that its bits spell.
pub mod Float
pub mod Ids
pub mod Query
use gengis_mimi.Shared.{
  ℕ, ◌+◌, ◌*◌, Bool, true, false, not, ◌&&◌, ◌||◌, Option, none, some, List, [], ◌∷◌, length, all,
  any, ltb, leb, ◌==◌, in_range, if◌then◌else◌,
}
use gengis_mimi.Shared.Bytes.{Bytes, bytes_eq}
use gengis_mimi.Error.{Error, Result, ok, err, ◌>>=◌, ◌>>◌, reject_if, ok_or}
use Float.{is_finite_f32, is_zero_f32, is_finite_f64, lt_f64, le_f64}

abbrev pub max_body_bytes : ℕ
max_body_bytes = 8 * 1024 * 1024

abbrev pub max_document_bytes : ℕ
max_document_bytes = 256 * 1024

abbrev pub max_batch_operations : ℕ
max_batch_operations = 1000

abbrev pub max_dimensions : ℕ
max_dimensions = 4096

abbrev pub max_page_size : ℕ
max_page_size = 1000

abbrev pub max_top_k : ℕ
max_top_k = 100

-- `is_ascii_alphanumeric`, or one of `_-`.
unfoldable pub is_id_byte : ℕ → Bool
is_id_byte c =
    in_range b'a' b'z' c || in_range b'A' b'Z' c || in_range b'0' b'9' c || c == b'_' || c == b'-'

unfoldable pub validate_id : Bytes → Result (Unit {0})
validate_id value =
    reject_if (length value == 0 || ltb 128 (length value) || not (all is_id_byte value))
      Error.invalid

pub data Metric : Type 0 where
  cosine dot squared_euclidean : Metric

abbrev pub is_cosine : Metric → Bool
is_cosine Metric.cosine = true
is_cosine _ = false

pub record NamespaceConfig : Type 0 where
  pub dimensions : Option ℕ
  pub metric : Metric
  pub text_fields : List Bytes

-- `HashSet::contains`, and a set's size against its list's: every element differs from the rest.
unfoldable pub contains : Bytes → List Bytes → Bool
contains id = any (bytes_eq id)

unfoldable pub all_distinct : List Bytes → Bool
unfolding contains
all_distinct [] = true
all_distinct (x ∷ xs) = not (contains x xs) && all_distinct xs

unfoldable pub validate_ids : List Bytes → Result (Unit {0})
validate_ids [] = ok tt
validate_ids (id ∷ ids) = do validate_id id; validate_ids ids

unfoldable pub bad_dimensions : Option ℕ → Bool
bad_dimensions none = false
bad_dimensions (some d) = not (in_range 1 max_dimensions d)

unfoldable pub validate_config : NamespaceConfig → Result (Unit {0})
unfolding validate_ids bad_dimensions all_distinct
validate_config c = do
  reject_if (ltb 16 (length c.text_fields)) Error.invalid
  validate_ids c.text_fields
  reject_if (not (all_distinct c.text_fields)) Error.invalid
  reject_if (bad_dimensions c.dimensions) Error.invalid

unfoldable pub validate_vector : NamespaceConfig → List ℕ → Result (Unit {0})
unfolding is_finite_f32 is_zero_f32
validate_vector c vector = do
  dimensions ← ok_or c.dimensions Error.invalid
  reject_if (not (length vector == dimensions) || any (λ v. not (is_finite_f32 v)) vector)
      Error.invalid
  reject_if (is_cosine c.metric && all is_zero_f32 vector) Error.invalid

pub record Namespace : Type 0 where
  pub name : Bytes
  pub config : NamespaceConfig

-- `J` is serde_json's `Value`.
pub record Document (J : Type 0) : Type 0 where
  pub id : Bytes
  pub vector : Option (List ℕ)
  pub attributes : List (Bytes × J)

pub record WriteRequest (J : Type 0) : Type 0 where
  pub upsert : List (Document J)
  pub delete : List Bytes

pub record WriteResult : Type 0 where
  pub upserted : ℕ
  pub deleted : ℕ
  pub sequence : ℕ
  pub revision : ℕ

pub record NamespaceStats : Type 0 where
  pub revision : ℕ
  pub documents : ℕ
  pub bytes : ℕ
  pub pending_documents : ℕ

abbrev pub default_stats : NamespaceStats
default_stats = record { revision = 0; documents = 0; bytes = 0; pending_documents = 0 }

pub record NumericRange : Type 0 where
  pub gte : Option ℕ
  pub lte : Option ℕ

pub record Filter (J : Type 0) : Type 0 where
  pub eq : List (Bytes × J)
  pub range : List (Bytes × NumericRange)

abbrev is_none : Option ℕ → Bool
is_none none = true
is_none (some v) = false

abbrev is_some_and : Option ℕ → (ℕ → Bool) → Bool
is_some_and none p = false
is_some_and (some v) p = p v

abbrev pub is_none_or : Option ℕ → (ℕ → Bool) → Bool
is_none_or none p = true
is_none_or (some v) p = p v

abbrev reversed : Option ℕ → Option ℕ → Bool
reversed (some lo) (some hi) = lt_f64 hi lo
reversed _ _ = false

unfoldable pub bad_range : NumericRange → Bool
unfolding lt_f64 is_finite_f64
bad_range r =
    is_none r.gte && is_none r.lte
    || is_some_and r.gte (λ v. not (is_finite_f64 v))
    || is_some_and r.lte (λ v. not (is_finite_f64 v))
    || reversed r.gte r.lte

unfoldable pub within : NumericRange → ℕ → Bool
unfolding le_f64
within r value =
    is_none_or r.gte (λ lo. le_f64 lo value) && is_none_or r.lte (λ hi. le_f64 value hi)

unfoldable pub bad_ranges : List (Bytes × NumericRange) → Bool
unfolding bad_range
bad_ranges [] = false
bad_ranges ((field, r) ∷ rest) = bad_range r || bad_ranges rest

-- What the program asks of a JSON value: equality, and its number if it is one.
pub record Json : Type 1 where
  pub J : Type 0
  pub json_eq : J → J → Bool
  pub as_f64 : J → Option ℕ

module _ (json : Json) where
  open json use {J, json_eq, as_f64}

  unfoldable pub get_attribute : Bytes → List (Bytes × J) → Option J
  get_attribute field [] = none
  get_attribute field ((name, value) ∷ rest) =
      if bytes_eq name field then some value else get_attribute field rest

  abbrev pub equals : Option J → J → Bool
  equals none expected = false
  equals (some value) expected = json_eq value expected

  abbrev pub in_bounds : Option J → NumericRange → Bool
  unfolding within
  in_bounds none r = false
  in_bounds (some value) r = is_some_and (as_f64 value) (within r)

  unfoldable pub filter_validate : Filter J → Result (Unit {0})
  unfolding bad_ranges
  filter_validate f = do
    reject_if (ltb 64 (length f.eq + length f.range)) Error.invalid
    reject_if (bad_ranges f.range) Error.invalid

  unfoldable pub filter_matches : Filter J → List (Bytes × J) → Bool
  unfolding get_attribute
  filter_matches f attributes =
      all (λ (field, expected). equals (get_attribute field attributes) expected) f.eq
      && all (λ (field, r). in_bounds (get_attribute field attributes) r) f.range

pub record PageRequest : Type 0 where
  pub limit : ℕ
  pub after : Option Bytes

abbrev pub default_page : PageRequest
default_page = record { limit = 100; after = none }

abbrev pub validate_after : Option Bytes → Result (Unit {0})
validate_after none = ok tt
validate_after (some id) = validate_id id

unfoldable pub validate_page : PageRequest → Result (Unit {0})
validate_page p = do
  reject_if (not (in_range 1 max_page_size p.limit)) Error.invalid
  validate_after p.after

pub record Page {ℓ} (A : Type ℓ) : Type ℓ where
  pub items : List A
  pub next_cursor : Option Bytes
