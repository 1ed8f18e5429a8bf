-- ===== src/Search/Text/Sets.antt =====
-- The sets of documents and the postings that `text_query` of src/search.rs gathers, under a
-- property of all their documents; `filter_ids` of src/index.rs where it selects no set.
use gengis_mimi.Shared.{
  false, not, ℕ, ◌≡◌, refl, subst, true, inl, inr, Option, none, some, List, [], ◌∷◌, All,
  Bool-cases,
}
use gengis_mimi.Shared.Bytes.{Bytes, bytes_eq, bytes_eq_iff, bytes_lt}
use gengis_mimi.Shared.Maps.{keep, map_get, set_contains, set_insert, set_of}
use gengis_mimi.Error.Ensures.{Ensures-bind, Ensures, returns, Ensures-bind_eq, Ensures-mono}
use gengis_mimi.Model.{Filter, NumericRange}
use gengis_mimi.Slate.{Slate}
use gengis_mimi.Index.{Terms, Posting}
use gengis_mimi.Index.Build.{Tools}
use gengis_mimi.Index.Filter.{postings, read_rows, intersect, filter_eq, filter_range, filter_ids}
use gengis_mimi.Search.Vector.Indexed.{set_contains-All}
use gengis_mimi.Search.Text.{insert_clean, Found, empty_found, add_posting, add_terms_found}
use gengis_mimi.Search.Text.Scores.{map_insert-All}

intersect-some :
    {X : Type 0} (found : Option (List Bytes)) (ids : List Bytes) → intersect found ids ≡ none → X
unfolding intersect
intersect-some none ids e = cc
intersect-some (some old) ids e = cc

module _ (s : Slate) {J : Type 0} (tools : Tools J) where
  filter_eq-Ensures :
      (db : s.Db) (prefix : Bytes) (tests : List (Bytes × J)) (found : Option (List Bytes))
      → Ensures
          (λ (r : Option (List Bytes)). r ≡ none → (tests ≡ []) × (found ≡ none))
          (filter_eq s tools db prefix tests found)
  unfolding filter_eq
  filter_eq-Ensures db prefix [] found = returns (λ e. (refl, e))
  filter_eq-Ensures db prefix ((field, value) ∷ tests) found =
      Ensures-bind_eq (tools.json.equality_key value) λ equal _.
        Ensures-bind_eq (postings s tools.serde.ids_from_slice db _) λ ids _.
          Ensures-mono (filter_eq-Ensures db prefix tests (intersect found (set_of ids)))
            λ r h e. intersect-some found (set_of ids) (h e).1

  filter_range-Ensures :
      (db : s.Db) (prefix : Bytes) (tests : List (Bytes × NumericRange))
      (found : Option (List Bytes))
      → Ensures
          (λ (r : Option (List Bytes)). r ≡ none → (tests ≡ []) × (found ≡ none))
          (filter_range s tools db prefix tests found)
  unfolding filter_range
  filter_range-Ensures db prefix [] found = returns (λ e. (refl, e))
  filter_range-Ensures db prefix ((field, bounds) ∷ tests) found =
      Ensures-bind_eq (s.scan_range db _ _ _) λ rows _.
        Ensures-bind_eq (read_rows tools.serde.ids_from_slice rows) λ ids _.
          Ensures-mono (filter_range-Ensures db prefix tests (intersect found (set_of ids)))
            λ r h e. intersect-some found (set_of ids) (h e).1

  -- It selects no set only where it has no test.
  pub filter_ids-Ensures :
      (db : s.Db) (prefix : Bytes) (filter : Filter J)
      → Ensures
          (λ (r : Option (List Bytes)). r ≡ none → (filter.eq ≡ []) × (filter.range ≡ []))
          (filter_ids s tools db prefix filter)
  unfolding filter_ids
  filter_ids-Ensures db prefix filter =
      Ensures-bind (filter_eq-Ensures db prefix filter.eq none) λ found h.
        Ensures-mono (filter_range-Ensures db prefix filter.range found)
          λ r k e. ((h (k e).1).0, (k e).0)

module _ (P : Bytes → Type 0) where
  pub contains-All : (ids : List Bytes) (id : Bytes) → All P ids → set_contains ids id ≡ true → P id
  unfolding set_contains
  contains-All [] id a h = cc
  contains-All (x ∷ ids) id (p, a) h = elim (Bool-cases (bytes_eq x id)) [
    | inl same ↦ subst P ((bytes_eq_iff x id).0 same) p
    | inr other ↦ contains-All ids id a (rw other at h)
  ]

  pub set_insert-All :
      (id : Bytes) (ids : List Bytes) → P id → All P ids → All P (set_insert id ids)
  unfolding set_insert
  set_insert-All id [] p a = (p, tt)
  set_insert-All id (x ∷ ids) p (q, a) = elim (Bool-cases (bytes_eq x id)) [
    | inl same ↦ rw same (q, a)
    | inr other ↦ elim (Bool-cases (bytes_lt id x)) [
      | inl below ↦ rw (other, below) (p, (q, a))
      | inr above ↦ rw (other, above) (q, set_insert-All id ids p a)
    ]
  ]

  abbrev pub AllFound : Found → Type 0
  AllFound =
      All (λ (t : Bytes × List (Bytes × Posting)). All (λ (row : Bytes × Posting). P row.0) t.1)

  pub empty_found-All : (terms : List (Bytes × ℕ)) → AllFound (empty_found terms)
  unfolding empty_found
  empty_found-All [] = tt
  empty_found-All ((term, n) ∷ terms) = (tt, empty_found-All terms)

  pub add_terms_found-All :
      (id : Bytes) (terms : Terms) (found : Found)
      → P id
      → AllFound found
      → AllFound (add_terms_found id terms found)
  unfolding add_terms_found
  add_terms_found-All id terms [] p a = tt
  add_terms_found-All id terms ((term, rows) ∷ found) p (r, a) =
      (by_frequency (map_get term terms.frequencies), add_terms_found-All id terms found p a)
    where
      by_frequency :
          (o : Option ℕ)
          → All (λ (row : Bytes × Posting). P row.0) (add_posting id terms.length o rows)
      by_frequency none = r
      by_frequency (some n) = map_insert-All P id _ rows p r

  pub insert_clean-All :
      (dirty : List Bytes) (ps : List Posting) (rows : List (Bytes × Posting))
      → ((id : Bytes) → set_contains dirty id ≡ false → P id)
      → All (λ (row : Bytes × Posting). P row.0) rows
      → All (λ (row : Bytes × Posting). P row.0) (insert_clean dirty ps rows)
  unfolding insert_clean
  insert_clean-All dirty [] rows clean r = r
  insert_clean-All dirty (p ∷ ps) rows clean r = elim (Bool-cases (set_contains dirty p.id)) [
    | inl changed ↦ rw changed (insert_clean-All dirty ps rows clean r)
    | inr same ↦
        rw same
          (insert_clean-All dirty ps _ clean (map_insert-All P p.id p rows (clean p.id same) r))
  ]

  keep-All_from :
      (dirty ids rest : List Bytes)
      → All (λ (id : Bytes). set_contains ids id ≡ true) rest
      → ((id : Bytes) → set_contains ids id ≡ true → set_contains dirty id ≡ false → P id)
      → All P (keep (λ id. not (set_contains dirty id)) rest)
  unfolding keep
  keep-All_from dirty ids [] a clean = tt
  keep-All_from dirty ids (id ∷ rest) (p, a) clean = elim (Bool-cases (set_contains dirty id)) [
    | inl changed ↦ rw changed (keep-All_from dirty ids rest a clean)
    | inr same ↦ rw same (clean id p same, keep-All_from dirty ids rest a clean)
  ]

  pub keep-All :
      (dirty ids : List Bytes)
      → ((id : Bytes) → set_contains ids id ≡ true → set_contains dirty id ≡ false → P id)
      → All P (keep (λ id. not (set_contains dirty id)) ids)
  keep-All dirty ids clean = keep-All_from dirty ids ids (set_contains-All ids) clean
