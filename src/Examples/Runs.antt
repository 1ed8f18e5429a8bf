-- ===== src/Examples/Runs.antt =====
-- The theorems at concrete inputs.
use gengis_mimi.Shared.{ℕ, ◌≡◌, refl, none, some, List, [], ◌∷◌, arith}
use gengis_mimi.Shared.Bytes.{Bytes, bytes_eq, bytes_lt, starts_with}
use gengis_mimi.Shared.Word.{to_le_bytes, from_le_bytes}
use gengis_mimi.Error.{ok, ok-injective}
use gengis_mimi.Model.{
  Metric, NamespaceConfig, Document, WriteRequest, WriteResult, default_stats, validate_id,
  is_id_byte, validate_vector, contains,
}
use gengis_mimi.Model.Float.{is_finite_f32, is_zero_f32}
use gengis_mimi.Binary.{
  Row, encode, decode, encode_vector, encode_body, encode_row, encode_rows, encode_values,
  decode_body, bad_header, decode_rows, decode_row, decode_values,
}
use gengis_mimi.Binary.RoundTrip.{IsBlock, decode-encode}
use gengis_mimi.Binary.Sound.{encode-decode}
use gengis_mimi.Slate.{Slate}
use gengis_mimi.Slate.Action.{Ends}
use gengis_mimi.Slate.Entries.{Entry, lookup, insert, remove, apply_op, apply_batch}
use gengis_mimi.Engine.Keys.{item_key, namespace_key, document_key, format_key, format}
use gengis_mimi.Engine.Sums.{count_in, size_in}
use gengis_mimi.Config.{LimitsConfig}
use gengis_mimi.Engine.Draft.{
  items, validate_request, draft_at, next_revision, write_items, write_item, check_draft,
  mark_change, mark_pending, over_quota, put_item, put_vector, uncount, validate_batch_ids,
}
use gengis_mimi.Engine.Read.{check_ready, namespace_at, stats_at}
use gengis_mimi.Shared.Lists.{take_exact}
use gengis_mimi.Engine.Draft.Loop.{overlay}
use gengis_mimi.Engine.Draft.Accounts.{IsAccurate}
use gengis_mimi.Engine.Accounted.{IsAccounted}
use gengis_mimi.Engine.Write.{write}
use gengis_mimi.Engine.Write.Laws.{Reported, UnchangedOrCommitted, write-Ends}
use gengis_mimi.Engine.Write.Accounting.{Advanced, write-IsAccounted, write-Advanced}
use gengis_mimi.Engine.Write.Content.{lookup-write, lookup-write_other}
use gengis_mimi.Examples.{memory, serde_example, checksum, checksum-lt, all-IsByte}

abbrev one : ℕ
one = 0x3f80_0000

abbrev pub books : Bytes
books = b'b' ∷ []

abbrev shelf : Bytes
shelf = b's' ∷ []

abbrev pub dune : Bytes
dune = b'd' ∷ []

abbrev pub books_config : NamespaceConfig
books_config = record { dimensions = some 2; metric = Metric.dot; text_fields = [] }

abbrev dune_document : Document (Unit {0})
dune_document = record { id = dune; vector = some (one ∷ 0 ∷ []); attributes = [] }

abbrev pub start_entries : List Entry
start_entries =
    (format_key, format)
    ∷ (
      namespace_key books,
      serde_example.namespace_to_vec (record { name = books; config = books_config }),
    )
    ∷ []

abbrev pub limits_example : LimitsConfig
limits_example = record {
  max_documents = 10;
  max_namespace_bytes = 1000;
  max_pending_documents = 10;
}

abbrev pub request_example : WriteRequest (Unit {0})
request_example = record { upsert = dune_document ∷ []; delete = shelf ∷ [] }

abbrev result_example : WriteResult
result_example = record { upserted = 1; deleted = 1; sequence = 7; revision = 1 }

start-IsAccurate : (name : Bytes) → IsAccurate default_stats name start_entries
unfolding lookup bytes_eq count_in size_in starts_with gengis_mimi.Slate.Total.total
start-IsAccurate name = record {
  documents = refl;
  bytes = refl;
  pending = refl;
  no_orphans = λ id h. refl;
}

pub start-IsAccounted : (name : Bytes) → IsAccounted serde_example name start_entries
unfolding lookup bytes_eq bytes_lt
start-IsAccounted name = record {
  sorted = ((refl, tt), (tt, tt));
  accurate = λ stats e. rw (← ok-injective e) (start-IsAccurate name);
}

write_run :
    (write memory serde_example checksum limits_example books request_example start_entries).0
    ≡ ok result_example
unfolding write validate_request validate_id is_id_byte contains bytes_eq draft_at check_ready
    lookup namespace_at take_exact stats_at next_revision write_items write_item validate_vector
    check_draft encode_vector encode encode_body encode_row encode_rows encode_values mark_change
    mark_pending over_quota put_item put_vector uncount validate_batch_ids is_finite_f32 is_zero_f32
    to_le_bytes insert remove apply_op apply_batch
write_run = refl

write-Ends_example :
    Ends
      (Reported memory serde_example checksum limits_example books request_example start_entries)
      (UnchangedOrCommitted memory serde_example checksum limits_example books request_example
        start_entries)
      (write memory serde_example checksum limits_example books request_example start_entries)
write-Ends_example =
    write-Ends memory serde_example checksum limits_example books request_example start_entries
      (start-IsAccounted books)

write-IsAccounted_example :
    IsAccounted serde_example books
      (write memory serde_example checksum limits_example books request_example start_entries).1
unfolding validate_id is_id_byte
write-IsAccounted_example =
    write-IsAccounted memory serde_example checksum limits_example books request_example
      start_entries books refl (start-IsAccounted books) (start-IsAccounted books)

write-Advanced_example :
    Advanced memory serde_example checksum limits_example books request_example start_entries
      default_stats result_example
      (write memory serde_example checksum limits_example books request_example start_entries).1
unfolding lookup bytes_eq
write-Advanced_example =
    write-Advanced memory serde_example checksum limits_example books request_example start_entries
      (start-IsAccounted books) refl write_run

lookup-write_example :
    lookup
      (document_key books dune)
      (write memory serde_example checksum limits_example books request_example start_entries).1
    ≡ overlay serde_example checksum books
        (to_le_bytes 8 1)
        (items request_example)
        (document_key books dune)
        none
unfolding lookup bytes_eq
lookup-write_example =
    lookup-write memory serde_example checksum limits_example books request_example start_entries
      (document_key books dune) (start-IsAccounted books) refl write_run

lookup-write_other_example :
    lookup
      (item_key b'd' shelf dune)
      (write memory serde_example checksum limits_example books request_example start_entries).1
    ≡ lookup (item_key b'd' shelf dune) start_entries
unfolding validate_id is_id_byte bytes_eq
lookup-write_other_example =
    lookup-write_other memory serde_example checksum limits_example books request_example
      start_entries shelf refl refl b'd' dune (start-IsAccounted books)

abbrev rows_example : List Row
rows_example = (dune, one ∷ 0 ∷ []) ∷ (shelf, 0 ∷ one ∷ []) ∷ []

rows-IsBlock : IsBlock rows_example
unfolding validate_id is_id_byte is_finite_f32
rows-IsBlock = record {
  all_rows = (
    record {
      id_valid = refl;
      width = refl;
      finite = ((omega arith, refl), ((omega arith, refl), tt));
    },
    (
      record {
        id_valid = refl;
        width = refl;
        finite = ((omega arith, refl), ((omega arith, refl), tt));
      },
      tt,
    ),
  );
  bounded = omega arith;
  positive = λ _. omega arith;
  counted = omega arith;
}

decode-encode_example : decode checksum (encode checksum rows_example) ≡ ok rows_example
decode-encode_example = decode-encode checksum checksum-lt rows_example rows-IsBlock

-- The block of one row of one dimension, in bytes.
abbrev block_example : Bytes
block_example =
    b'G' ∷ b'M' ∷ b'V' ∷ b'B' ∷ 1 ∷ 1 ∷ 0 ∷ 0 ∷ 0 ∷ 1 ∷ 0 ∷ 0 ∷ 0 ∷ 1 ∷ 0 ∷ b'v' ∷ 0 ∷ 0 ∷ 0x80
    ∷ 0x3f ∷ 20 ∷ 0 ∷ 0 ∷ 0 ∷ []

encode-decode_example :
    IsBlock ((b'v' ∷ [], one ∷ []) ∷ [])
    × (encode checksum ((b'v' ∷ [], one ∷ []) ∷ []) ≡ block_example)
unfolding decode bytes_eq from_le_bytes decode_body bad_header decode_rows decode_row decode_values
    take_exact validate_id is_id_byte is_finite_f32
encode-decode_example =
    encode-decode checksum block_example (all-IsByte block_example refl) refl (omega arith)
