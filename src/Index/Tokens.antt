-- ===== src/Index/Tokens.antt =====
-- `tokenize` and `document_terms` of src/index.rs. A `char` is its code; the tables of Unicode are
-- a parameter.
use gengis_mimi.Shared.{ℕ, ◌+◌, Bool, Option, none, some, List, [], ◌∷◌, ◌++◌, if◌then◌else◌}
use gengis_mimi.Shared.Bytes.{Bytes}
use gengis_mimi.Shared.Maps.{map_get, map_update, map_insert}
use gengis_mimi.Model.{Document}
use gengis_mimi.Index.{Terms}

pub record Unicode : Type 0 where
  pub chars : Bytes → List ℕ
  pub is_alphanumeric : ℕ → Bool
  pub to_lowercase : List ℕ → Bytes

abbrev pub no_terms : Terms
no_terms = record { length = 0; frequencies = [] }

module _ (unicode : Unicode) where
  open unicode use {chars, is_alphanumeric, to_lowercase}

  -- `split(|c| !c.is_alphanumeric())`, less the empty parts.
  abbrev pub keep_word : List ℕ → List (List ℕ) → List (List ℕ)
  keep_word [] parts = parts
  keep_word (c ∷ word) parts = (c ∷ word) ∷ parts

  unfoldable pub words_from : List ℕ → List ℕ → List (List ℕ)
  words_from word [] = keep_word word []
  words_from word (c ∷ text) =
      let rest = words_from (if is_alphanumeric c then word ++ c ∷ [] else []) text in
      if is_alphanumeric c then rest else keep_word word rest

  abbrev pub add_term : Terms → Bytes → Terms
  add_term terms term = record {
    length = terms.length + 1;
    frequencies = map_update 0 term (λ (n : ℕ). n + 1) terms.frequencies;
  }

  unfoldable pub count_terms : Terms → List (List ℕ) → Terms
  unfolding map_update
  count_terms terms [] = terms
  count_terms terms (word ∷ words) = count_terms (add_term terms (to_lowercase word)) words

  unfoldable pub tokenize : Bytes → Terms
  unfolding count_terms words_from
  tokenize text = count_terms no_terms (words_from [] (chars text))

  -- The field's terms, if its attribute is a text.
  abbrev pub add_field : Bytes → Option Bytes → List (Bytes × Terms) → List (Bytes × Terms)
  add_field field none rows = rows
  add_field field (some text) rows = map_insert field (tokenize text) rows

  module _ {J : Type 0} (as_str : J → Option Bytes) where
    abbrev pub text_of : Option J → Option Bytes
    text_of none = none
    text_of (some value) = as_str value

    unfoldable pub field_terms :
        List (Bytes × J) → List Bytes → List (Bytes × Terms) → List (Bytes × Terms)
    field_terms attributes [] rows = rows
    field_terms attributes (field ∷ fields) rows =
        field_terms attributes fields (add_field field (text_of (map_get field attributes)) rows)

    unfoldable pub document_terms : Document J → List Bytes → List (Bytes × Terms)
    unfolding field_terms
    document_terms document fields = field_terms document.attributes fields []
