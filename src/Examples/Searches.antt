-- ===== src/Examples/Searches.antt =====
-- The theorems on indexes and searches at concrete inputs.
use gengis_mimi.Shared.{ℕ, ◌+◌, ◌≡◌, refl, inr, true, none, some, List, [], ◌∷◌, ◌++◌, arith}
use mathlib.Core.List.{Perm}
use gengis_mimi.Shared.Bytes.{Bytes, bytes_eq, starts_with}
use gengis_mimi.Shared.Maps.{map_get, map_insert, map_update, set_contains, set_insert}
use gengis_mimi.Shared.Lists.{take_exact}
use gengis_mimi.Shared.Word.{to_le_bytes, from_le_bytes}
use gengis_mimi.Error.{ok}
use gengis_mimi.Model.{
  Filter, NumericRange, Document, filter_matches, filter_validate, bad_ranges, within, validate_id,
  is_id_byte, validate_vector,
}
use gengis_mimi.Model.Float.{Arithmetic, total_key, is_nan_f64, is_finite_f32, is_zero_f32, lt_f64}
use gengis_mimi.Model.Query.{QueryRequest, QueryResult, TextQuery, SearchMode, Plan}
use gengis_mimi.Config.{default_index}
use gengis_mimi.Binary.{
  encode_vector, decode_vector, encode_values, decode_values, decode, encode, encode_body,
  encode_rows, encode_row, decode_body, bad_header, decode_rows, decode_row,
}
use gengis_mimi.Slate.Entries.{Entry, lookup, with_prefix}
use gengis_mimi.Engine.Keys.{item_key, name_key, document_key, vector_key, slash}
use gengis_mimi.Engine.Read.{
  check_ready, namespace_at, stats_at, vector_at, attributes_at, document_at, revision,
}
use gengis_mimi.Index.{IndexStatus}
use gengis_mimi.Index.Tokens.{tokenize, count_terms, words_from}
use gengis_mimi.Index.Chunks.{concat}
use gengis_mimi.Index.Clusters.{Row}
use gengis_mimi.Index.Keys.{number_key, root}
use gengis_mimi.Index.Filter.{low_key, high_key, filter_ids, filter_eq, filter_range}
use gengis_mimi.Index.NumberOrder.{IsNumber}
use gengis_mimi.Index.Ranges.{in_scan, in_scan-number_key}
use gengis_mimi.Index.Build.{Tools}
use gengis_mimi.Index.Build.Documents.{clusters_of}
use gengis_mimi.Index.Build.Partition.{clusters_of-Perm}
use gengis_mimi.Search.Heap.{retain, push, pop, peek, sort}
use gengis_mimi.Search.Score.{distance_score, dot, zip_with}
use gengis_mimi.Search.Hits.{Hit, ranked_lt, retain_all, score_rows, hydrate}
use gengis_mimi.Search.Top.{IsTop, IsTop-nil, retain_all-IsTop}
use gengis_mimi.Search.Pending.{index_at, pending, pending_rows, is_utf8}
use gengis_mimi.Search.Vector.{
  vector_query, full_scan, exact_scan, indexed_scan, probed_plan, block_scan, dirty_scan,
  cluster_lt, probe_keys,
}
use gengis_mimi.Search.Vector.Overlay.{IsIndexed, vector_query-IsIndexed}
use gengis_mimi.Search.Vector.Best.{IsExact, vector_query-IsExact}
use gengis_mimi.Search.Text.{
  text_query, gather, scanned_text, scan_documents, add_text_document, add_terms_found, empty_found,
  scores_of, score_terms, score_term, average_of, idf_of, weight,
}
use gengis_mimi.Search.Text.Best.{IsRanked, text_query-IsRanked}
use gengis_mimi.Search.Query.{query}
use gengis_mimi.Search.Query.Checked.{IsQuery, query-IsQuery}
use gengis_mimi.Examples.{memory, serde_example, checksum}
use gengis_mimi.Examples.Runs.{books, books_config, start_entries}

-- Floats as their bits, added as numbers.
abbrev total_of : List ℕ → ℕ
total_of [] = 0
total_of (x ∷ xs) = x + total_of xs

abbrev arithmetic_example : Arithmetic
arithmetic_example = record {
  of_f32 = λ v. v;
  to_f32 = λ v. v;
  of_int = λ n. n;
  add = λ a b. a + b;
  sub = λ a b. a;
  mul = λ a b. a;
  div = λ a b. a;
  neg = λ a. a;
  square = λ a. a;
  sqrt = λ a. a;
  ln = λ a. a;
  sum = total_of;
  quarter = 1;
  half = 1;
  three_quarters = 1;
  one = 1;
  one_fifth_more = 1;
  two_and_a_fifth = 1;
}

abbrev word : Bytes
word = b'd' ∷ []

abbrev status_example : IndexStatus
status_example = record {
  generation = word;
  revision = 0;
  documents = 0;
  vectors = 0;
  centroids = [];
  cluster_blocks = [];
  text = [];
}

abbrev pub tools_example : Tools (Unit {0})
tools_example = record {
  sha256 = λ bytes. bytes;
  crc32 = checksum;
  json = record {
    as_str = λ value. some word;
    as_f64 = λ value. none;
    json_eq = λ a b. true;
    equality_key = λ value. ok word;
  };
  unicode = record { chars = λ bytes. bytes; is_alphanumeric = is_id_byte; to_lowercase = λ w. w };
  arithmetic = arithmetic_example;
  serde = record {
    status_to_vec = λ status. [];
    status_from_slice = λ bytes. some status_example;
    ids_to_vec = λ ids. [];
    ids_from_slice = λ bytes. some [];
    postings_to_vec = λ ps. [];
    postings_from_slice = λ bytes. some [];
    terms_to_vec = λ ts. [];
    terms_from_slice = λ bytes. some [];
  };
}

abbrev no_filter : Filter (Unit {0})
no_filter = record { eq = []; range = [] }

abbrev dune_stored : Document (Unit {0})
dune_stored = record { id = word; vector = none; attributes = (word, tt) ∷ [] }

abbrev library : List Entry
library =
    start_entries
    ++ (document_key books word, serde_example.document_to_vec dune_stored)
      ∷ (vector_key books word, encode_vector checksum (3 ∷ 4 ∷ []))
      ∷ []

abbrev request_example : QueryRequest (Unit {0})
request_example = record {
  vector = 1 ∷ 2 ∷ [];
  top_k = 5;
  filter = no_filter;
  mode = SearchMode.exact;
  probes = 1;
}

abbrev answer_example : QueryResult (Unit {0})
answer_example = record {
  matches = record { id = word; score = 3; attributes = (word, tt) ∷ [] } ∷ [];
  scanned_documents = 1;
  plan = Plan.exact_scan;
  revision = 0;
  indexed_revision = 0;
}

query_run :
    query memory serde_example tools_example true books library default_index request_example
    ≡ ok answer_example
unfolding query vector_query full_scan exact_scan check_ready namespace_at stats_at vector_at
    attributes_at index_at hydrate retain_all score_rows distance_score dot zip_with ranked_lt
    retain push pop peek lookup with_prefix bytes_eq starts_with validate_id is_id_byte
    validate_vector filter_validate filter_matches bad_ranges is_finite_f32 is_zero_f32
    encode_vector decode_vector encode_values decode_values to_le_bytes from_le_bytes take_exact
    total_key decode encode encode_body encode_rows encode_row decode_body bad_header decode_rows
    decode_row
query_run = refl

query-IsQuery_example :
    IsQuery memory serde_example tools_example true books library default_index request_example
      answer_example
query-IsQuery_example =
    query-IsQuery memory serde_example tools_example true books library default_index
      request_example query_run

vector_run :
    vector_query memory serde_example tools_example books_config books request_example library
      default_index
    ≡ ok answer_example
unfolding vector_query full_scan exact_scan check_ready namespace_at stats_at vector_at
    attributes_at index_at hydrate retain_all score_rows distance_score dot zip_with ranked_lt
    retain push pop peek lookup with_prefix bytes_eq starts_with validate_id is_id_byte
    validate_vector filter_validate filter_matches bad_ranges is_finite_f32 is_zero_f32
    encode_vector decode_vector encode_values decode_values to_le_bytes from_le_bytes take_exact
    total_key decode encode encode_body encode_rows encode_row decode_body bad_header decode_rows
    decode_row
vector_run = refl

vector_query-IsExact_example :
    IsExact memory serde_example tools_example books_config books request_example library
      answer_example
vector_query-IsExact_example =
    vector_query-IsExact memory serde_example tools_example books_config books request_example
      library default_index (inr refl) vector_run

-- With an index of nothing, and one document that has changed since.
abbrev indexed_library : List Entry
indexed_library =
    library ++ (item_key b'c' books word, to_le_bytes 8 1) ∷ (name_key b'i' books, []) ∷ []

abbrev indexed_request : QueryRequest (Unit {0})
indexed_request = record request_example { mode = SearchMode.auto }

abbrev indexed_answer : QueryResult (Unit {0})
indexed_answer = record answer_example { plan = Plan.centroid_ann }

indexed_at : index_at memory tools_example.serde indexed_library books ≡ ok (some status_example)
unfolding index_at lookup bytes_eq encode_vector to_le_bytes encode_values encode encode_body
    encode_rows encode_row
indexed_at = refl

indexed_run :
    vector_query memory serde_example tools_example books_config books indexed_request
      indexed_library default_index
    ≡ ok indexed_answer
unfolding vector_query full_scan exact_scan check_ready namespace_at stats_at vector_at
    attributes_at index_at hydrate retain_all score_rows distance_score dot zip_with ranked_lt
    retain push pop peek lookup with_prefix bytes_eq starts_with validate_id is_id_byte
    validate_vector filter_validate filter_matches bad_ranges is_finite_f32 is_zero_f32
    encode_vector decode_vector encode_values decode_values to_le_bytes from_le_bytes take_exact
    total_key decode encode encode_body encode_rows encode_row decode_body bad_header decode_rows
    decode_row indexed_scan probed_plan block_scan dirty_scan pending pending_rows is_utf8
    filter_ids filter_eq filter_range sort cluster_lt probe_keys set_insert revision document_at
    root set_contains
indexed_run = refl

vector_query-IsIndexed_example :
    IsIndexed memory serde_example tools_example books_config books indexed_request indexed_library
      default_index status_example indexed_answer
vector_query-IsIndexed_example =
    vector_query-IsIndexed memory serde_example tools_example books_config books indexed_request
      indexed_library default_index indexed_at refl indexed_run

abbrev text_example : TextQuery (Unit {0})
text_example = record { field = word; text = word; top_k = 3; filter = no_filter }

abbrev text_answer : QueryResult (Unit {0})
text_answer = record answer_example {
  plan = Plan.bm25_scan;
  matches = record { id = word; score = 3; attributes = (word, tt) ∷ [] } ∷ [];
}

text_run : text_query memory serde_example tools_example books text_example library ≡ ok text_answer
unfolding text_query gather scanned_text scan_documents check_ready namespace_at stats_at vector_at
    attributes_at index_at hydrate retain_all score_rows distance_score dot zip_with ranked_lt
    retain push pop peek lookup with_prefix bytes_eq starts_with validate_id is_id_byte
    validate_vector filter_validate filter_matches bad_ranges is_finite_f32 is_zero_f32
    encode_vector decode_vector encode_values decode_values to_le_bytes from_le_bytes take_exact
    total_key decode encode encode_body encode_rows encode_row decode_body bad_header decode_rows
    decode_row scores_of add_text_document add_terms_found empty_found score_terms score_term
    average_of idf_of weight tokenize count_terms words_from map_get map_insert map_update lt_f64
    is_nan_f64
text_run = refl

text_query-IsRanked_example :
    IsRanked memory serde_example tools_example books text_example library text_answer
text_query-IsRanked_example =
    text_query-IsRanked memory serde_example tools_example books text_example library text_run

abbrev hits_example : List Hit
hits_example = (word, 2) ∷ (books, 5) ∷ []

retain_all-IsTop_example : IsTop 1 hits_example (retain_all 1 hits_example [])
retain_all-IsTop_example = retain_all-IsTop 1 hits_example [] [] (IsTop-nil 1)

-- 1.0 and 2.0, in the range from 1.0 on.
abbrev one_bits : ℕ
one_bits = 0x3ff0_0000_0000_0000

one-IsNumber : IsNumber one_bits
unfolding is_nan_f64
one-IsNumber = record { bits = omega arith; not_nan = refl }

abbrev from_one : NumericRange
from_one = record { gte = some one_bits; lte = none }

in_scan_example :
    in_scan (low_key (some one_bits)) (high_key none) (number_key one_bits ++ slash ∷ word)
    ≡ within from_one one_bits
in_scan_example = in_scan-number_key one_bits word one-IsNumber from_one one-IsNumber tt

abbrev rows_example : List Row
rows_example = (word, 1 ∷ []) ∷ (books, 9 ∷ []) ∷ []

clusters_of-Perm_example :
    Perm (concat (clusters_of tools_example books_config default_index rows_example)) rows_example
clusters_of-Perm_example =
    clusters_of-Perm tools_example books_config default_index rows_example (omega arith)
