-- ===== src/Examples/Pages.antt =====
-- The theorems on pages at a concrete database.
use gengis_mimi.Shared.{◌≡◌, refl, none, List, [], ◌∷◌}
use gengis_mimi.Shared.Bytes.{Bytes, bytes_eq, bytes_lt, starts_with}
use gengis_mimi.Error.{ok}
use gengis_mimi.Model.{Metric, Namespace, validate_id, is_id_byte}
use gengis_mimi.Slate.Entries.{Entry, lookup, with_prefix}
use gengis_mimi.Slate.Sorted.{IsSorted}
use gengis_mimi.Engine.Keys.{namespace_key, format_key, format}
use gengis_mimi.Engine.Read.{check_ready}
use gengis_mimi.Engine.Pages.Whole.{ListsNamespaces, PagesOfNamespaces, namespaces_whole}
use gengis_mimi.Examples.{memory, serde_example}
use gengis_mimi.Examples.Deletions.{memory-IsHealthy}

abbrev named : Bytes → Namespace
named name = record {
  name = name;
  config = record { dimensions = none; metric = Metric.cosine; text_fields = [] };
}

abbrev row_of : Namespace → Entry
row_of n = (namespace_key n.name, serde_example.namespace_to_vec n)

abbrev a_name : Namespace
a_name = named (b'a' ∷ [])

abbrev b_name : Namespace
b_name = named (b'b' ∷ [])

abbrev two_namespaces : List Entry
two_namespaces = (format_key, format) ∷ row_of a_name ∷ row_of b_name ∷ []

two_ready : check_ready memory two_namespaces ≡ ok tt
unfolding check_ready lookup bytes_eq
two_ready = refl

two-IsSorted : IsSorted two_namespaces
unfolding bytes_lt
two-IsSorted = ((refl, (refl, tt)), ((refl, tt), (tt, tt)))

two_listed : ListsNamespaces memory serde_example two_namespaces (a_name ∷ b_name ∷ [])
unfolding with_prefix starts_with
two_listed =
    (refl, serde_example.namespace_round a_name, (refl, serde_example.namespace_round b_name, tt))

a_valid : validate_id (b'a' ∷ []) ≡ ok tt
unfolding validate_id is_id_byte
a_valid = refl

b_valid : validate_id (b'b' ∷ []) ≡ ok tt
unfolding validate_id is_id_byte
b_valid = refl

namespaces_whole_example :
    PagesOfNamespaces memory serde_example two_namespaces 1 (a_name ∷ b_name ∷ [])
namespaces_whole_example =
    namespaces_whole memory serde_example two_namespaces 1 (a_name ∷ b_name ∷ []) memory-IsHealthy
      two_ready two-IsSorted two_listed (a_valid, (b_valid, tt)) refl
