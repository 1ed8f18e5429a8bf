-- ===== src/Index/Build/Under.antt =====
-- All that a build of src/index.rs stores lies under its generation's own prefix.
use gengis_mimi.Shared.{
  ℕ, ◌+◌, ◌≡◌, refl, true, inl, inr, Option, none, some, List, [], ◌∷◌, ◌++◌, append_assoc, All,
  All-append, Bool-cases, ltb,
}
use gengis_mimi.Shared.Bytes.{
  Bytes, bytes_eq, bytes_lt, starts_with, starts_with-append, starts_with_sound,
}
use gengis_mimi.Shared.Maps.{map_insert, map_update}
use gengis_mimi.Error.{Error}
use gengis_mimi.Error.Ensures.{Ensures, returns, Ensures-bind, Ensures-bind_eq, Ensures-reject_if}
use gengis_mimi.Model.{NamespaceConfig, Document}
use gengis_mimi.Model.Float.{is_finite_f64}
use gengis_mimi.Config.{IndexConfig}
use gengis_mimi.Slate.Entries.{Entry}
use gengis_mimi.Index.{IndexStatus, Terms, Posting}
use gengis_mimi.Index.Keys.{root, cluster_key, block_key}
use gengis_mimi.Index.Tokens.{document_terms}
use gengis_mimi.Index.Chunks.{chunks}
use gengis_mimi.Index.Clusters.{Row}
use gengis_mimi.Index.Build.{
  Tools, Multi, push_at, blocks_from, append_blocks, append_all, cluster_entries, vector_entries,
  vectors_of, per_block, output_size,
}
use gengis_mimi.Index.Build.Documents.{
  Gathered, add_number, add_attributes, add_postings, add_terms, length_entries, add_document,
  add_documents, build, clusters_of,
}

-- Every key begins with the prefix.
abbrev pub Under {ℓ} : {A : Type ℓ} → Bytes → List (Bytes × A) → Type 0
Under prefix = All (λ e. starts_with prefix e.0 ≡ true)

starts_with_trans : (p k r : Bytes) → starts_with p k ≡ true → starts_with p (k ++ r) ≡ true
starts_with_trans p k r h =
    let (t, e) = starts_with_sound p k h in
    rw (e, append_assoc p t r) (starts_with-append p (t ++ r))

module _ {A : Type 0} (prefix : Bytes) where
  map_insert-Under :
      (k : Bytes) (v : A) (rows : List (Bytes × A))
      → starts_with prefix k ≡ true
      → Under prefix rows
      → Under prefix (map_insert k v rows)
  unfolding map_insert
  map_insert-Under k v [] h u = (h, tt)
  map_insert-Under k v ((j, w) ∷ rows) h (p, u) = elim (Bool-cases (bytes_eq j k)) [
    | inl same ↦ rw same (h, u)
    | inr other ↦ elim (Bool-cases (bytes_lt k j)) [
      | inl below ↦ rw (other, below) (h, (p, u))
      | inr over ↦ rw (other, over) (p, map_insert-Under k v rows h u)
    ]
  ]

module _ {T : Type 0} (prefix : Bytes) where
  push_at-Under :
      (k : Bytes) (row : T) (rows : Multi T)
      → starts_with prefix k ≡ true
      → Under prefix rows
      → Under prefix (push_at k row rows)
  unfolding push_at map_update
  push_at-Under k row rows h u = map_insert-Under prefix k _ rows h u

module _ {T : Type 0} (to_vec : List T → Bytes) (prefix : Bytes) where
  blocks_from-Under :
      (key : Bytes) (block : ℕ) (rest : List (List T))
      → starts_with prefix key ≡ true
      → Under prefix (blocks_from to_vec key block rest)
  unfolding blocks_from block_key
  blocks_from-Under key block [] h = tt
  blocks_from-Under key block (rows ∷ rest) h =
      (starts_with_trans prefix key _ h, blocks_from-Under key (block + 1) rest h)

  append_all-Under :
      (entries : List Entry) (rows : Multi T)
      → Under prefix entries
      → Under prefix rows
      → Under prefix (append_all to_vec entries rows)
  unfolding append_all append_blocks
  append_all-Under entries [] u v = u
  append_all-Under entries ((key, rows) ∷ rest) u (h, v) =
      append_all-Under (append_blocks to_vec entries key rows) rest
        (All-append (λ e. starts_with prefix e.0 ≡ true) entries _ u
          (blocks_from-Under key 0 (chunks 256 rows) h))
        v

module _ (crc32 : Bytes → ℕ) (prefix : Bytes) where
  cluster_entries-Under :
      (cluster block : ℕ) (rest : List (List Row))
      → Under prefix (cluster_entries crc32 prefix cluster block rest)
  unfolding cluster_entries cluster_key
  cluster_entries-Under cluster block [] = tt
  cluster_entries-Under cluster block (rows ∷ rest) =
      (starts_with-append prefix _, cluster_entries-Under cluster (block + 1) rest)

  vector_entries-Under :
      (per cluster : ℕ) (rest : List (List Row))
      → Under prefix (vector_entries crc32 prefix per cluster rest)
  unfolding vector_entries
  vector_entries-Under per cluster [] = tt
  vector_entries-Under per cluster (rows ∷ rest) =
      All-append (λ e. starts_with prefix e.0 ≡ true)
        (cluster_entries crc32 prefix cluster 0 (chunks per rows)) _
        (cluster_entries-Under cluster 0 (chunks per rows))
        (vector_entries-Under per (cluster + 1) rest)

module _ {J : Type 0} (tools : Tools J) (prefix : Bytes) where
  -- What is gathered has keys under the prefix.
  record Kept (g : Gathered) : Type 0 where
    entries : Under prefix g.entries
    attributes : Under prefix g.attributes
    text : Under prefix g.text

  add_number-Under :
      (id field : Bytes) (v : Option ℕ) (attributes : Multi Bytes)
      → Under prefix attributes
      → Under prefix (add_number tools prefix id field v attributes)
  add_number-Under id field none attributes u = u
  add_number-Under id field (some v) attributes u = elim (Bool-cases (is_finite_f64 v)) [
    | inl finite ↦ rw finite (push_at-Under prefix _ id attributes (starts_with-append prefix _) u)
    | inr other ↦ rw other u
  ]

  add_attributes-Under :
      (id : Bytes) (rest : List (Bytes × J)) (attributes : Multi Bytes)
      → Under prefix attributes
      → Ensures (Under prefix) (add_attributes tools prefix id rest attributes)
  unfolding add_attributes
  add_attributes-Under id [] attributes u = returns u
  add_attributes-Under id ((field, value) ∷ rest) attributes u =
      Ensures-bind_eq (tools.json.equality_key value) λ equal e. add_attributes-Under id rest _ (
        add_number-Under id field (tools.json.as_f64 value) _
          (push_at-Under prefix _ id attributes (starts_with-append prefix _) u))

  add_postings-Under :
      (id field : Bytes) (length : ℕ) (rest : List (Bytes × ℕ)) (text : Multi Posting)
      → Under prefix text
      → Under prefix (add_postings tools prefix id field length rest text)
  unfolding add_postings
  add_postings-Under id field length [] text u = u
  add_postings-Under id field length ((term, frequency) ∷ rest) text u =
      add_postings-Under id field length rest _
        (push_at-Under prefix _ _ text (starts_with-append prefix _) u)

  add_terms-Kept :
      (id : Bytes) (terms : List (Bytes × Terms)) (g : Gathered)
      → Kept g
      → Kept (add_terms tools prefix id terms g)
  unfolding add_terms
  add_terms-Kept id [] g k = k
  add_terms-Kept id ((field, terms) ∷ rest) g k = add_terms-Kept id rest _ (record {
    entries = k.entries;
    attributes = k.attributes;
    text = add_postings-Under id field terms.length terms.frequencies g.text k.text;
  })

  length_entries-Under :
      (id : Bytes) (terms : List (Bytes × Terms))
      → Under prefix (length_entries tools prefix id terms)
  length_entries-Under id [] = tt
  length_entries-Under id (t ∷ terms) = (starts_with-append prefix _, tt)

  add_documents-Kept :
      (schema : NamespaceConfig) (documents : List (Document J)) (g : Gathered)
      → Kept g
      → Ensures Kept (add_documents tools prefix schema documents g)
  unfolding add_documents add_document
  add_documents-Kept schema [] g k = returns k
  add_documents-Kept schema (document ∷ documents) g k =
      let terms = document_terms tools.unicode tools.json.as_str document schema.text_fields in
      Ensures-bind
        (Ensures-bind
          (add_attributes-Under document.id document.attributes g.attributes k.attributes)
          λ attributes u.
            let more =
              add_terms-Kept document.id terms (record g { attributes = attributes })
                (record { entries = k.entries; attributes = u; text = k.text }) in
            returns (record {
              entries =
                  All-append (λ e. starts_with prefix e.0 ≡ true) _ _ more.entries
                    (length_entries-Under document.id terms);
              attributes = more.attributes;
              text = more.text;
            }))
        λ g' k'. add_documents-Kept schema documents g' k'

module _ {J : Type 0} (tools : Tools J) (generation name : Bytes) where
  -- The generation's name, and entries under its prefix.
  abbrev pub OfGeneration : IndexStatus × List Entry → Type 0
  OfGeneration (status, entries) =
      (status.generation ≡ generation) × Under (root name generation) entries

  pub build-OfGeneration :
      (schema : NamespaceConfig) (revision : ℕ) (documents : List (Document J))
      (config : IndexConfig)
      → Ensures OfGeneration (build tools generation name schema revision documents config)
  unfolding build
  build-OfGeneration schema revision documents config =
      let prefix = root name generation in
      let clusters = clusters_of tools schema config (vectors_of documents) in
      let vector_blocks = vector_entries-Under tools.crc32 prefix (per_block schema) 0 clusters in
      Ensures-bind
        (add_documents-Kept tools prefix schema documents _
          (record { entries = vector_blocks; attributes = tt; text = tt }))
        λ g k.
          let blocks = append_all tools.serde.ids_to_vec g.entries g.attributes in
          let entries = append_all tools.serde.postings_to_vec blocks g.text in
          let under =
            append_all-Under tools.serde.postings_to_vec prefix blocks g.text
              (append_all-Under tools.serde.ids_to_vec prefix g.entries g.attributes k.entries
                k.attributes)
              k.text in
          Ensures-reject_if (ltb config.max_build_bytes (output_size entries)) Error.limit
            λ small. returns (refl, under)
