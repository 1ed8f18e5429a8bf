-- ===== src/Search/Text/Gathered.antt =====
-- What `text_query` of src/search.rs gathers, from a scan and from the index, under the property of
-- being selected by the filter.
use gengis_mimi.Shared.{
  ℕ, ◌≡◌, refl, subst, true, false, ◌&&◌, Option, none, some, List, [], ◌∷◌, All, if◌then◌else◌,
}
use gengis_mimi.Shared.Bytes.{Bytes}
use gengis_mimi.Shared.Maps.{set_contains}
use gengis_mimi.Error.{Error, ok}
use gengis_mimi.Error.Ensures.{
  Ensures, returns, Ensures-bind, Ensures-bind_eq, Ensures-eq, Ensures-ok_or, Ensures-mono,
  Ensures-eq-ok,
}
use gengis_mimi.Model.{Document, NumericRange}
use gengis_mimi.Model.Query.{TextQuery}
use gengis_mimi.Slate.{Slate}
use gengis_mimi.Slate.Entries.{Entry}
use gengis_mimi.Engine.Serde.{Serde}
use gengis_mimi.Engine.Keys.{document_prefix}
use gengis_mimi.Engine.Read.{attributes_at}
use gengis_mimi.Index.{IndexStatus}
use gengis_mimi.Index.Keys.{root}
use gengis_mimi.Index.Build.{Tools}
use gengis_mimi.Index.Filter.{postings, filter_ids}
use gengis_mimi.Search.Pending.{pending}
use gengis_mimi.Search.Vector.Indexed.{set_contains-All}
use gengis_mimi.Search.Text.{
  Found, Gathering, retain_clean, is_nil, add_if_some, scan_documents, read_terms, old_terms,
  replace_dirty, indexed_text, all_or_none, scanned_text,
}
use gengis_mimi.Search.Text.Scores.{FoundOf}
use gengis_mimi.Search.Text.Sets.{filter_ids-Ensures, AllFound, insert_clean-All, keep-All}
use gengis_mimi.Search.Text.Selected.{
  Holds, Chosen, IsSelected, IsMatch, Keeps, add-Keeps, Keeps-FoundOf, further, in_row, unchanged,
  changed,
}

module _ (s : Slate) {J : Type 0} (serde : Serde J) (tools : Tools J) (name : Bytes)
    (query : TextQuery J) (db : s.Db) where
  module _ (P : Bytes → Type 0) where
    scan-Keeps :
        (rows : List Entry) (g : Gathering)
        → ((id : Bytes) → Holds s serde tools name query db id rows → P id)
        → Keeps s serde tools name query db P g.eligible g.found
        → Ensures
            (λ (r : Gathering). Keeps s serde tools name query db P r.eligible r.found)
            (scan_documents s serde tools name query db rows g)
    unfolding scan_documents
    scan-Keeps [] g p h = returns h
    scan-Keeps ((key, value) ∷ rows) g p h =
        Ensures-ok_or (serde.document_from_slice value) Error.encoding λ doc read.
          scan-Keeps rows _ (λ id held. p id (further held))
            (add-Keeps s serde tools name query db P doc g
              (λ matched. p doc.id (in_row read matched)) h)

    all_or_none-Keeps :
        (found : Found)
        → AllFound P found
        → Keeps s serde tools name query db P (all_or_none s serde tools name query db) found
    all_or_none-Keeps found a = by_tests query.filter.eq query.filter.range refl refl
      where
        by_tests :
            (e : List (Bytes × J)) (r : List (Bytes × NumericRange))
            → query.filter.eq ≡ e
            → query.filter.range ≡ r
            → Keeps s serde tools name query db P
                (if is_nil e && is_nil r then none else some [])
                found
        by_tests [] [] no_eq no_range = (no_eq, no_range, a)
        by_tests [] (r ∷ rs) no_eq h = tt
        by_tests (e ∷ es) r h k = tt

    read-AllFound :
        (prefix : Bytes) (dirty : List Bytes) (found : Found)
        → ((id : Bytes) → set_contains dirty id ≡ false → P id)
        → AllFound P found
        → Ensures (AllFound P) (read_terms s serde tools name query db prefix dirty found)
    unfolding read_terms
    read-AllFound prefix dirty [] p a = returns tt
    read-AllFound prefix dirty ((term, rows) ∷ found) p (r, a) =
        Ensures-bind_eq (postings s tools.serde.postings_from_slice db _) λ items _.
          Ensures-bind (read-AllFound prefix dirty found p a)
            λ rest more. returns (insert_clean-All P dirty items rows p r, more)

    replace-Keeps :
        (prefix : Bytes) (dirty ids : List Bytes) (g : Gathering)
        → All (λ (id : Bytes). set_contains dirty id ≡ true) ids
        → ((key : Bytes) (doc : Document J)
            → set_contains dirty key ≡ true
            → attributes_at s serde db name key ≡ ok (some doc)
            → IsMatch s serde tools name query db doc doc.id
            → P doc.id)
        → Keeps s serde tools name query db P g.eligible g.found
        → Ensures
            (λ (r : Gathering). Keeps s serde tools name query db P r.eligible r.found)
            (replace_dirty s serde tools name query db prefix ids g)
    unfolding replace_dirty
    replace-Keeps prefix dirty [] g a p h = returns h
    replace-Keeps prefix dirty (id ∷ ids) g (in_dirty, a) p h =
        Ensures-bind_eq (s.get db _) λ stored _.
          Ensures-bind_eq (old_terms s serde tools name query db stored) λ old _.
            Ensures-bind_eq (attributes_at s serde db name id)
              λ found read. replace-Keeps prefix dirty ids _ a p (of_document _ found read h)
      where
        of_document :
            (g : Gathering) (found : Option (Document J))
            → attributes_at s serde db name id ≡ ok found
            → Keeps s serde tools name query db P g.eligible g.found
            → Keeps s serde tools name query db P
                (add_if_some s serde tools name query db found g).eligible
                (add_if_some s serde tools name query db found g).found
        of_document g none read h = h
        of_document g (some doc) read h =
            add-Keeps s serde tools name query db P doc g (p id doc in_dirty read) h

  pub scanned_text-FoundOf :
      (found : Found) {g : Gathering} {n : ℕ}
      → AllFound (IsSelected s serde tools name query db none) found
      → scanned_text s serde tools name query db found ≡ ok (g, n)
      → FoundOf tools.arithmetic (IsSelected s serde tools name query db none) g.eligible g.found
  unfolding scanned_text
  scanned_text-FoundOf found a e = Ensures-eq-ok keeps e
    where
      keeps :
          Ensures
            (λ (r : Gathering × ℕ).
              FoundOf tools.arithmetic
                (IsSelected s serde tools name query db none)
                r.0.eligible
                r.0.found)
            (scanned_text s serde tools name query db found)
      keeps = Ensures-bind_eq (s.scan_prefix db (document_prefix name)) λ rows read.
          Ensures-bind
            (scan-Keeps (IsSelected s serde tools name query db none) rows _
              (λ id held.
                subst (λ l. Holds s serde tools name query db id l)
                  (s.scan_prefix_lem db (document_prefix name) read) held)
              (all_or_none-Keeps (IsSelected s serde tools name query db none) found a))
            λ g h. returns (
              Keeps-FoundOf s serde tools name query db
                (IsSelected s serde tools name query db none) g.eligible g.found h)

  pub indexed_text-FoundOf :
      (active : IndexStatus) (found : Found) {g : Gathering}
      → AllFound (Chosen s serde tools name query db active) found
      → indexed_text s serde tools name query db active found ≡ ok g
      → FoundOf tools.arithmetic (Chosen s serde tools name query db active) g.eligible g.found
  unfolding indexed_text
  indexed_text-FoundOf active found a e = Ensures-eq-ok keeps e
    where
      start :
          (dirty : List Bytes)
          → pending s db name active.revision ≡ ok dirty
          → (selected : Option (List Bytes))
          → filter_ids s tools db (root name active.generation) query.filter ≡ ok selected
          → Ensures
              (λ (r : Found).
                Keeps s serde tools name query db
                  (Chosen s serde tools name query db active)
                  (retain_clean dirty selected)
                  r)
              (read_terms s serde tools name query db (root name active.generation) dirty found)
      start dirty changes none chosen =
          let (no_eq, no_range) =
            Ensures-eq-ok (filter_ids-Ensures s tools db (root name active.generation) query.filter)
              chosen refl in
          Ensures-mono
            (read-AllFound (Chosen s serde tools name query db active) (root name active.generation)
              dirty found (λ id clean. unchanged changes chosen clean refl) a)
            λ r h. (no_eq, no_range, h)
      start dirty changes (some ids) chosen = Ensures-eq _ λ r _.
          keep-All (Chosen s serde tools name query db active) dirty ids
            λ id inside clean. unchanged changes chosen clean inside

      keeps :
          Ensures
            (λ (r : Gathering).
              FoundOf tools.arithmetic
                (Chosen s serde tools name query db active)
                r.eligible
                r.found)
            (indexed_text s serde tools name query db active found)
      keeps = Ensures-bind_eq (pending s db name active.revision) λ dirty changes.
          Ensures-bind_eq (filter_ids s tools db (root name active.generation) query.filter)
            λ selected chosen. Ensures-bind (start dirty changes selected chosen) λ found h.
              Ensures-mono
                (replace-Keeps (Chosen s serde tools name query db active)
                  (root name active.generation) dirty dirty _ (set_contains-All dirty)
                  (λ key doc in_dirty read matched. changed key changes in_dirty read matched) h)
                λ g k.
                  Keeps-FoundOf s serde tools name query db
                    (Chosen s serde tools name query db active) g.eligible g.found k
