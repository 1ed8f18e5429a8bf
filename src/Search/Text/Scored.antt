-- ===== src/Search/Text/Scored.antt =====
-- The keys of the scores of `text_query` of src/search.rs, from the postings and the eligible IDs.
use gengis_mimi.Shared.{
  ℕ, ◌≡◌, refl, ◌∙◌, sym, subst, true, ◌&&◌, ◌||◌, inl, inr, Option, none, some, List, [], ◌∷◌,
  Bool-cases, arith,
}
use gengis_mimi.Shared.Bytes.{Bytes, bytes_eq, bytes_eq_iff, bytes_eq_refl}
use gengis_mimi.Shared.Maps.{
  map_get, map_insert, map_update, map_get-map_insert, set_contains, set_insert,
}
use gengis_mimi.Model.Float.{Arithmetic, lt_f64}
use gengis_mimi.Index.{Corpus, Terms, Posting}
use gengis_mimi.Search.Hits.{Hit}
use gengis_mimi.Search.Text.{
  Found, is_eligible, add_posting, add_terms_found, average_of, score_term, score_terms,
}

abbrev pub HasKey : {A : Type 0} → Bytes → List (Bytes × A) → Type 0
HasKey {A} id rows = (v : A) × (map_get id rows ≡ some v)

module _ {A : Type 0} where
  insert-own : (id : Bytes) (v : A) (rows : List (Bytes × A)) → HasKey id (map_insert id v rows)
  insert-own id v rows = (v, map_get-map_insert id id v rows ∙ rw (bytes_eq_refl id) refl)

  insert-kept :
      (id k : Bytes) (v : A) (rows : List (Bytes × A))
      → HasKey id rows
      → HasKey id (map_insert k v rows)
  insert-kept id k v rows (w, e) = elim (Bool-cases (bytes_eq k id)) [
    | inl same ↦ (v, map_get-map_insert k id v rows ∙ rw same refl)
    | inr other ↦ (w, map_get-map_insert k id v rows ∙ rw other e)
  ]

pub set_contains-set_insert :
    (k id : Bytes) (ids : List Bytes)
    → set_contains (set_insert k ids) id ≡ (bytes_eq k id || set_contains ids id)
unfolding set_contains set_insert
set_contains-set_insert k id [] = refl
set_contains-set_insert k id (j ∷ ids) = ground (
  arith,
  bytes_eq_iff j k,
  bytes_eq_iff k id,
  bytes_eq_iff j id,
  set_contains-set_insert k id ids,
)

-- The term has a posting of the document.
pub record IsPosted (term id : Bytes) (found : Found) : Type 0 where
  pub rows : List (Bytes × Posting)
  pub of_term : map_get term found ≡ some rows
  pub of_id : HasKey id rows

pub map_get-add_terms_found :
    (term id : Bytes) (terms : Terms) (found : Found) (rows : List (Bytes × Posting))
    → map_get term found ≡ some rows
    → map_get term (add_terms_found id terms found)
      ≡ some (add_posting id terms.length (map_get term terms.frequencies) rows)
unfolding map_get add_terms_found
map_get-add_terms_found term id terms [] rows e = cc
map_get-add_terms_found term id terms ((t, old) ∷ found) rows e =
    elim (Bool-cases (bytes_eq t term)) [
      | inl same ↦ let is_rows = rw same at e in rw (same, (bytes_eq_iff t term).0 same) (cc)
      | inr other ↦ rw other (map_get-add_terms_found term id terms found rows (rw other at e))
    ]

add_posting-kept :
    (id k : Bytes) (n : ℕ) (f : Option ℕ) (rows : List (Bytes × Posting))
    → HasKey id rows
    → HasKey id (add_posting k n f rows)
add_posting-kept id k n none rows h = h
add_posting-kept id k n (some f) rows h = insert-kept id k _ rows h

pub IsPosted-kept :
    (term id k : Bytes) (terms : Terms) (found : Found)
    → IsPosted term id found
    → IsPosted term id (add_terms_found k terms found)
IsPosted-kept term id k terms found h = record {
  rows = add_posting k terms.length (map_get term terms.frequencies) h.rows;
  of_term = map_get-add_terms_found term k terms found h.rows h.of_term;
  of_id = add_posting-kept id k terms.length (map_get term terms.frequencies) h.rows h.of_id;
}

pub IsPosted-own :
    (term id : Bytes) (terms : Terms) (found : Found)
    → HasKey term terms.frequencies
    → HasKey term found
    → IsPosted term id (add_terms_found id terms found)
IsPosted-own term id terms found (f, e) (rows, there) = record {
  rows = add_posting id terms.length (map_get term terms.frequencies) rows;
  of_term = map_get-add_terms_found term id terms found rows there;
  of_id = rw e (insert-own id _ rows);
}

same_value : {A : Type 0} {a b : A} → some a ≡ some b → a ≡ b
same_value e = cc

module _ (arithmetic : Arithmetic) (eligible : Option (List Bytes)) (id : Bytes) where
  score_term-kept :
      (idf average : ℕ) (rows : List (Bytes × Posting)) (scores : List Hit)
      → HasKey id scores
      → HasKey id (score_term arithmetic eligible idf average rows scores)
  unfolding score_term map_update
  score_term-kept idf average [] scores h = h
  score_term-kept idf average ((j, p) ∷ rows) scores h =
      elim (Bool-cases (is_eligible arithmetic eligible j && lt_f64 0 average)) [
        | inl scored ↦ rw scored (score_term-kept idf average rows _ (insert-kept id j _ scores h))
        | inr left_out ↦ rw left_out (score_term-kept idf average rows scores h)
      ]

  score_term-own :
      (idf average : ℕ) (rows : List (Bytes × Posting)) (scores : List Hit)
      → is_eligible arithmetic eligible id ≡ true
      → lt_f64 0 average ≡ true
      → HasKey id rows
      → HasKey id (score_term arithmetic eligible idf average rows scores)
  unfolding score_term map_update map_get
  score_term-own idf average [] scores chosen above (v, e) = cc
  score_term-own idf average ((j, p) ∷ rows) scores chosen above (v, e) =
      elim (Bool-cases (bytes_eq j id)) [
        | inl same ↦
            rw ((bytes_eq_iff j id).0 same, chosen, above)
              (score_term-kept idf average rows _ (insert-own id _ scores))
        | inr other ↦ score_term-own idf average rows _ chosen above (v, rw other at e)
      ]

  score_terms-kept :
      (corpus : Corpus) (found : Found) (scores : List Hit)
      → HasKey id scores
      → HasKey id (score_terms arithmetic eligible corpus found scores)
  unfolding score_terms
  score_terms-kept corpus [] scores h = h
  score_terms-kept corpus ((t, rows) ∷ found) scores h =
      score_terms-kept corpus found _ (score_term-kept _ _ rows scores h)

  pub score_terms-own :
      (corpus : Corpus) (term : Bytes) (found : Found) (scores : List Hit)
      (rows : List (Bytes × Posting))
      → is_eligible arithmetic eligible id ≡ true
      → lt_f64 0 (average_of arithmetic corpus) ≡ true
      → map_get term found ≡ some rows
      → HasKey id rows
      → HasKey id (score_terms arithmetic eligible corpus found scores)
  unfolding score_terms map_get
  score_terms-own corpus term [] scores rows chosen above e h = cc
  score_terms-own corpus term ((t, old) ∷ found) scores rows chosen above e h =
      elim (Bool-cases (bytes_eq t term)) [
        | inl same ↦
            score_terms-kept corpus found _
              (score_term-own _ _ old scores chosen above (here old (rw same at e)))
        | inr other ↦ score_terms-own corpus term found _ rows chosen above (rw other at e) h
      ]
    where
      here : (old : List (Bytes × Posting)) → some old ≡ some rows → HasKey id old
      here old same = subst (λ r. HasKey id r) (sym (same_value same)) h
