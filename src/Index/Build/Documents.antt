-- ===== src/Index/Build/Documents.antt =====
-- The loop over the documents in `build` of src/index.rs, and `build`.
use gengis_mimi.Shared.{
  ℕ, ◌+◌, Bool, true, false, Option, none, some, List, [], ◌∷◌, ◌++◌, map, length, ltb,
  if◌then◌else◌,
}
use gengis_mimi.Shared.Bytes.{Bytes}
use gengis_mimi.Shared.Maps.{map_update}
use gengis_mimi.Error.{Error, Result, ok, ◌>>=◌, ◌>>◌, reject_if}
use gengis_mimi.Model.{NamespaceConfig, Document}
use gengis_mimi.Model.Float.{is_finite_f64}
use gengis_mimi.Config.{IndexConfig}
use gengis_mimi.Slate.Entries.{Entry}
use gengis_mimi.Index.{IndexStatus, Corpus, Terms, Posting}
use gengis_mimi.Index.Keys.{digest, number_key, root, field_key, length_key}
use gengis_mimi.Index.Tokens.{document_terms}
use gengis_mimi.Index.Chunks.{chunks}
use gengis_mimi.Index.Clusters.{Row, normalized, train, assign, replicate}
use gengis_mimi.Index.Build.{
  Tools, Multi, push_at, append_all, output_size, vectors_of, vector_entries, per_block,
}

-- What the loop has gathered: the entries, the attributes, the postings and the corpora.
pub record Gathered : Type 0 where
  pub entries : List Entry
  pub attributes : Multi Bytes
  pub text : Multi Posting
  pub corpora : List (Bytes × Corpus)

abbrev pub no_corpus : Corpus
no_corpus = record { documents = 0; tokens = 0 }

abbrev pub grow : ℕ → Corpus → Corpus
grow length corpus = record { documents = corpus.documents + 1; tokens = corpus.tokens + length }

abbrev pub is_empty {ℓ} : {A : Type ℓ} → List A → Bool
is_empty [] = true
is_empty (x ∷ xs) = false

module _ {J : Type 0} (tools : Tools J) (prefix : Bytes) where
  abbrev pub digest_of : Bytes → Bytes
  unfolding digest
  digest_of = digest tools.sha256

  -- The key by which a range filter finds a number, where it is finite.
  abbrev pub add_number : Bytes → Bytes → Option ℕ → Multi Bytes → Multi Bytes
  add_number id field none attributes = attributes
  add_number id field (some v) attributes =
      if is_finite_f64 v
      then push_at (field_key prefix b'r' (digest_of field) (number_key v)) id attributes
      else attributes

  unfoldable pub add_attributes : Bytes → List (Bytes × J) → Multi Bytes → Result (Multi Bytes)
  unfolding digest push_at number_key
  add_attributes id [] attributes = ok attributes
  add_attributes id ((field, value) ∷ rest) attributes = do
    equal ← tools.json.equality_key value
    add_attributes id rest (
        add_number id field (tools.json.as_f64 value)
          (push_at (field_key prefix b'e' (digest_of field) equal) id attributes))

  unfoldable pub add_postings : Bytes → Bytes → ℕ → List (Bytes × ℕ) → Multi Posting → Multi Posting
  unfolding digest push_at
  add_postings id field length [] text = text
  add_postings id field length ((term, frequency) ∷ rest) text = add_postings id field length rest (
      push_at (field_key prefix b't' (digest_of field) (digest_of term))
        (record { id = id; frequency = frequency; length = length }) text)

  unfoldable pub add_terms : Bytes → List (Bytes × Terms) → Gathered → Gathered
  unfolding add_postings map_update
  add_terms id [] g = g
  add_terms id ((field, terms) ∷ rest) g = add_terms id rest (record g {
    corpora = map_update no_corpus field (grow terms.length) g.corpora;
    text = add_postings id field terms.length terms.frequencies g.text;
  })

  abbrev pub length_entries : Bytes → List (Bytes × Terms) → List Entry
  length_entries id terms =
      if is_empty terms then [] else (length_key prefix id, tools.serde.terms_to_vec terms) ∷ []

  unfoldable pub add_document : NamespaceConfig → Document J → Gathered → Result Gathered
  unfolding add_attributes add_terms document_terms
  add_document schema document g = do
    attributes ← add_attributes document.id document.attributes g.attributes
    let terms = document_terms tools.unicode tools.json.as_str document schema.text_fields
    let more = add_terms document.id terms (record g { attributes = attributes })
    ok (record more { entries = more.entries ++ length_entries document.id terms })

  unfoldable pub add_documents : NamespaceConfig → List (Document J) → Gathered → Result Gathered
  add_documents schema [] g = ok g
  add_documents schema (document ∷ documents) g = do
    g ← add_document schema document g
    add_documents schema documents g

-- `a.min(b)`
abbrev pub min : ℕ → ℕ → ℕ
min a b = if ltb b a then b else a

module _ {J : Type 0} (tools : Tools J) where
  abbrev pub training_of : NamespaceConfig → List Row → List (List ℕ)
  training_of schema vectors =
      map (λ (row : Row). normalized tools.arithmetic schema.metric row.1) vectors

  abbrev pub cluster_count : IndexConfig → List Row → ℕ
  cluster_count config vectors = min config.clusters (length vectors)

  abbrev pub centroids_of : NamespaceConfig → IndexConfig → List Row → List (List ℕ)
  centroids_of schema config vectors =
      train tools.arithmetic schema.metric (cluster_count config vectors) config.iterations
        (training_of schema vectors)

  abbrev pub clusters_of : NamespaceConfig → IndexConfig → List Row → List (List Row)
  clusters_of schema config vectors =
      assign tools.arithmetic (centroids_of schema config vectors) vectors
        (training_of schema vectors) (replicate (cluster_count config vectors) [])

  unfoldable pub build :
      Bytes
      → Bytes
      → NamespaceConfig
      → ℕ
      → List (Document J)
      → IndexConfig
      → Result (IndexStatus × List Entry)
  unfolding root vectors_of train assign replicate vector_entries add_documents append_all
      output_size per_block chunks
  build generation name schema revision documents config = do
    let prefix = root name generation
    let vectors = vectors_of documents
    let clusters = clusters_of schema config vectors
    let per = per_block schema
    let vector_blocks = vector_entries tools.crc32 prefix per 0 clusters
    g ←
        add_documents tools prefix schema documents
          (record { entries = vector_blocks; attributes = []; text = []; corpora = [] })
    let blocks = append_all tools.serde.ids_to_vec g.entries g.attributes
    let entries = append_all tools.serde.postings_to_vec blocks g.text
    reject_if (ltb config.max_build_bytes (output_size entries)) Error.limit
    ok (
      record {
        generation = generation;
        revision = revision;
        documents = length documents;
        vectors = length vectors;
        centroids = centroids_of schema config vectors;
        cluster_blocks = map (λ (rows : List Row). length (chunks per rows)) clusters;
        text = g.corpora;
      },
      entries,
    )
