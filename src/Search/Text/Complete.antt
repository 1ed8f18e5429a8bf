-- ===== src/Search/Text/Complete.antt =====
-- What the scan of `text_query` of src/search.rs scores of the documents that it reads.
use gengis_mimi.Shared.{
  ℕ, ◌≡◌, ◌⊎◌, refl, subst, true, false, inl, inr, Option, none, some, List, [], ◌∷◌, Bool-cases,
  arith,
}
use gengis_mimi.Shared.Bytes.{Bytes, bytes_eq_refl}
use gengis_mimi.Shared.Maps.{map_get}
use gengis_mimi.Error.{Error, ok}
use gengis_mimi.Error.Ensures.{
  Ensures, returns, Ensures-bind, Ensures-bind_eq, Ensures-ok_or, Ensures-mono, Ensures-and,
  Ensures-eq-ok,
}
use gengis_mimi.Model.{Document, filter_matches}
use gengis_mimi.Model.Query.{TextQuery}
use gengis_mimi.Model.Float.{lt_f64}
use gengis_mimi.Slate.{Slate}
use gengis_mimi.Slate.Entries.{Entry, with_prefix}
use gengis_mimi.Engine.Serde.{Serde}
use gengis_mimi.Engine.Keys.{document_prefix}
use gengis_mimi.Index.Value.{json_of}
use gengis_mimi.Index.Tokens.{tokenize}
use gengis_mimi.Index.Build.{Tools}
use gengis_mimi.Search.Text.{
  Found, Gathering, empty_found, is_eligible, average_of, add_text, add_eligible, text_of,
  add_text_document, scan_documents, scanned_text, scores_of,
}
use gengis_mimi.Search.Text.Scored.{
  HasKey, IsPosted, IsPosted-kept, set_contains-set_insert, score_terms-own,
}
use gengis_mimi.Search.Text.Occurs.{HasTerms, HasTerms-add, empty_found-HasTerms, occurs-IsPosted}
use gengis_mimi.Search.Text.Answered.{
  answers, IsLeftOut, Answered, no_rows, next_row, Answered-mono,
}

module _ (s : Slate) {J : Type 0} (serde : Serde J) (tools : Tools J) (name : Bytes)
    (query : TextQuery J) (db : s.Db) where
  Counts : Option (List Bytes) → Found → Bytes → Type 0
  Counts e found id =
      (is_eligible tools.arithmetic e id ≡ true) × ((term : Bytes) × IsPosted term id found)

  eligible-kept :
      (doc : Document J) (e : Option (List Bytes)) (id : Bytes)
      → is_eligible tools.arithmetic e id ≡ true
      → is_eligible tools.arithmetic (add_eligible s serde tools name query db doc e) id ≡ true
  unfolding add_eligible
  eligible-kept doc none id h = refl
  eligible-kept doc (some ids) id h =
      elim (Bool-cases (filter_matches (json_of tools.json) query.filter doc.attributes)) [
        | inl matched ↦ rw (matched, set_contains-set_insert doc.id id ids, h) (ground arith)
        | inr other ↦ rw other h
      ]

  eligible-own :
      (doc : Document J) (e : Option (List Bytes))
      → filter_matches (json_of tools.json) query.filter doc.attributes ≡ true
      → is_eligible tools.arithmetic (add_eligible s serde tools name query db doc e) doc.id ≡ true
  unfolding add_eligible
  eligible-own doc none matched = refl
  eligible-own doc (some ids) matched =
      rw (matched, set_contains-set_insert doc.id doc.id ids, bytes_eq_refl doc.id) refl

  Counts-text :
      (doc : Document J) (e : Option (List Bytes)) (text : Option Bytes) (g : Gathering)
      (id : Bytes)
      → Counts e g.found id
      → Counts
          (add_eligible s serde tools name query db doc e)
          (add_text s serde tools name query db doc.id text g).found
          id
  unfolding Counts
  Counts-text doc e none g id (chosen, posted) = (eligible-kept doc e id chosen, posted)
  Counts-text doc e (some text) g id (chosen, (term, posted)) = (
    eligible-kept doc e id chosen,
    (term, IsPosted-kept term id doc.id (tokenize tools.unicode text) g.found posted),
  )

  Counts-own :
      (doc : Document J) (e : Option (List Bytes)) (text : Option Bytes) (g : Gathering)
      → filter_matches (json_of tools.json) query.filter doc.attributes ≡ true
      → answers s serde tools name query db text ≡ true
      → HasTerms (tokenize tools.unicode query.text).frequencies g.found
      → Counts
          (add_eligible s serde tools name query db doc e)
          (add_text s serde tools name query db doc.id text g).found
          doc.id
  unfolding Counts
  Counts-own doc e none g matched there h = cc
  Counts-own doc e (some text) g matched there h = (
    eligible-own doc e matched,
    occurs-IsPosted doc.id (tokenize tools.unicode text)
        (tokenize tools.unicode query.text).frequencies g.found there h,
  )

  HasTerms-text :
      (id : Bytes) (text : Option Bytes) (g : Gathering)
      → HasTerms (tokenize tools.unicode query.text).frequencies g.found
      → HasTerms
          (tokenize tools.unicode query.text).frequencies
          (add_text s serde tools name query db id text g).found
  HasTerms-text id none g h = h
  HasTerms-text id (some text) g h =
      HasTerms-add id (tokenize tools.unicode text) (tokenize tools.unicode query.text).frequencies
        g.found h

  scan-kept :
      (rows : List Entry) (g : Gathering) (id : Bytes)
      → Counts g.eligible g.found id
      → Ensures
          (λ (r : Gathering). Counts r.eligible r.found id)
          (scan_documents s serde tools name query db rows g)
  unfolding scan_documents add_text_document
  scan-kept [] g id h = returns h
  scan-kept ((key, value) ∷ rows) g id h =
      Ensures-ok_or (serde.document_from_slice value) Error.encoding
        λ doc _. scan-kept rows _ id (Counts-text doc g.eligible _ g id h)

  IsLeftOut-cases :
      (doc : Document J) (g : Gathering)
      → HasTerms (tokenize tools.unicode query.text).frequencies g.found
      → IsLeftOut s serde tools name query db doc
        ⊎ Counts
            (add_text_document s serde tools name query db doc g).eligible
            (add_text_document s serde tools name query db doc g).found
            doc.id
  unfolding add_text_document
  IsLeftOut-cases doc g h =
      elim (Bool-cases (filter_matches (json_of tools.json) query.filter doc.attributes)) [
        | inr other ↦ inl (inl other)
        | inl matched ↦
            elim (Bool-cases (
              answers s serde tools name query db
                (text_of s serde tools name query db (map_get query.field doc.attributes)))) [
                  | inr silent ↦ inl (inr silent)
                  | inl there ↦ inr (Counts-own doc g.eligible _ g matched there h)
                ]
      ]

  scan-Answered :
      (rows : List Entry) (g : Gathering)
      → HasTerms (tokenize tools.unicode query.text).frequencies g.found
      → Ensures
          (λ (r : Gathering). Answered s serde tools name query db (Counts r.eligible r.found) rows)
          (scan_documents s serde tools name query db rows g)
  unfolding scan_documents add_text_document
  scan-Answered [] g h = returns no_rows
  scan-Answered ((key, value) ∷ rows) g h =
      Ensures-ok_or (serde.document_from_slice value) Error.encoding λ doc read.
        let rest = scan-Answered rows _ (HasTerms-text doc.id _ g h) in
        elim (IsLeftOut-cases doc g h) [
          | inl out ↦ Ensures-mono rest λ r more. next_row read (inl out) more
          | inr counts ↦
              Ensures-mono (Ensures-and (scan-kept rows _ doc.id counts) rest)
                λ r (c, more). next_row read (inr c) more
        ]

  -- Where the average length is positive, every document that is not left out has a score.
  abbrev pub IsAnswered : Gathering → Type 0
  IsAnswered g =
      (lt_f64 0 (average_of tools.arithmetic g.corpus) ≡ false)
      ⊎ Answered s serde tools name query db
          (λ (id : Bytes). HasKey id (scores_of s serde tools name query db g))
          (with_prefix (document_prefix name) (s.entries db))

  counted-IsAnswered :
      (g : Gathering)
      → Answered s serde tools name query db
          (Counts g.eligible g.found)
          (with_prefix (document_prefix name) (s.entries db))
      → IsAnswered g
  unfolding scores_of Counts
  counted-IsAnswered g h = elim (Bool-cases (lt_f64 0 (average_of tools.arithmetic g.corpus))) [
    | inr never ↦ inl never
    | inl above ↦ inr (
        Answered-mono s serde tools name query db
          (λ id (chosen, (term, posted)).
            score_terms-own tools.arithmetic g.eligible id g.corpus term g.found [] posted.rows
              chosen above posted.of_term posted.of_id)
          h)
  ]

  pub scanned_text-IsAnswered :
      {g : Gathering} {n : ℕ}
      → scanned_text s serde tools name query db
          (empty_found (tokenize tools.unicode query.text).frequencies)
        ≡ ok (g, n)
      → IsAnswered g
  unfolding scanned_text
  scanned_text-IsAnswered e = Ensures-eq-ok answered e
    where
      answered :
          Ensures
            (λ (r : Gathering × ℕ). IsAnswered r.0)
            (scanned_text s serde tools name query db
              (empty_found (tokenize tools.unicode query.text).frequencies))
      answered = Ensures-bind_eq (s.scan_prefix db (document_prefix name)) λ rows read.
          Ensures-bind
            (scan-Answered rows _
              (empty_found-HasTerms (tokenize tools.unicode query.text).frequencies))
            λ g h. returns (
              counted-IsAnswered g (
                subst (λ l. Answered s serde tools name query db (Counts g.eligible g.found) l)
                  (s.scan_prefix_lem db (document_prefix name) read) h))
