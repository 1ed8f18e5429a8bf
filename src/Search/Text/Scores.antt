-- ===== src/Search/Text/Scores.antt =====
-- The scores of `text_query` of src/search.rs, under a property of the documents that they are of.
use gengis_mimi.Shared.{
  ℕ, ◌≡◌, true, ◌&&◌, inl, inr, Option, List, [], ◌∷◌, All, Bool-cases, &&-eq-true,
}
use gengis_mimi.Shared.Bytes.{Bytes, bytes_eq, bytes_lt}
use gengis_mimi.Shared.Maps.{map_insert, map_update}
use gengis_mimi.Model.Float.{Arithmetic, lt_f64}
use gengis_mimi.Index.{Corpus, Posting}
use gengis_mimi.Search.Hits.{Hit}
use gengis_mimi.Search.Text.{Found, is_eligible, score_term, score_terms}

module _ {A : Type 0} (P : Bytes → Type 0) where
  pub map_insert-All :
      (id : Bytes) (v : A) (scores : List (Bytes × A))
      → P id
      → All (λ (hit : Bytes × A). P hit.0) scores
      → All (λ (hit : Bytes × A). P hit.0) (map_insert id v scores)
  unfolding map_insert
  map_insert-All id v [] p h = (p, tt)
  map_insert-All id v ((j, w) ∷ scores) p (q, h) = elim (Bool-cases (bytes_eq j id)) [
    | inl same ↦ rw same (p, h)
    | inr other ↦ elim (Bool-cases (bytes_lt id j)) [
      | inl below ↦ rw (other, below) (p, (q, h))
      | inr above ↦ rw (other, above) (q, map_insert-All id v scores p h)
    ]
  ]

module _ (arithmetic : Arithmetic) (P : Bytes → Type 0) (eligible : Option (List Bytes)) where
  -- A row that may be scored is of a document with the property.
  abbrev pub RowsOf : List (Bytes × Posting) → Type 0
  RowsOf = All (λ (row : Bytes × Posting). is_eligible arithmetic eligible row.0 ≡ true → P row.0)

  abbrev pub FoundOf : Found → Type 0
  FoundOf = All (λ (t : Bytes × List (Bytes × Posting)). RowsOf t.1)

  score_term-All :
      (idf average : ℕ) (rows : List (Bytes × Posting)) (scores : List Hit)
      → RowsOf rows
      → All (λ (hit : Hit). P hit.0) scores
      → All (λ (hit : Hit). P hit.0) (score_term arithmetic eligible idf average rows scores)
  unfolding score_term map_update
  score_term-All idf average [] scores r h = h
  score_term-All idf average ((id, p) ∷ rows) scores (ok_row, r) h =
      elim (Bool-cases (is_eligible arithmetic eligible id && lt_f64 0 average)) [
        | inl scored ↦ rw scored (
            score_term-All idf average rows _ r (
              map_insert-All P id _ scores
                (ok_row
                  (&&-eq-true (is_eligible arithmetic eligible id) (lt_f64 0 average) scored).0)
                h))
        | inr left_out ↦ rw left_out (score_term-All idf average rows scores r h)
      ]

  pub score_terms-All :
      (corpus : Corpus) (found : Found) (scores : List Hit)
      → FoundOf found
      → All (λ (hit : Hit). P hit.0) scores
      → All (λ (hit : Hit). P hit.0) (score_terms arithmetic eligible corpus found scores)
  unfolding score_terms
  score_terms-All corpus [] scores f h = h
  score_terms-All corpus ((term, rows) ∷ found) scores (r, f) h =
      score_terms-All corpus found _ f (score_term-All _ _ rows scores r h)
