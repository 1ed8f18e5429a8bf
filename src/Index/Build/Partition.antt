-- ===== src/Index/Build/Partition.antt =====
-- The clusters of `build` of src/index.rs hold every vector once, and their numbers are in bounds.
use gengis_mimi.Shared.{
  ℕ, zero, suc, ◌+◌, ◌≤◌, ◌<◌, ◌≡◌, ◌⊎◌, refl, sym, ap, ◌∙◌, Bool, true, false, inl, inr, List, [],
  ◌∷◌, ◌++◌, map, append-nil, length, ltb, leb, arith, Bool-cases, if◌then◌else◌,
}
use mathlib.Core.List.{Perm, perm_append_singleton, perm_middle}
use mathlib.Core.List.Perm
use gengis_mimi.Model.{NamespaceConfig, Metric}
use gengis_mimi.Model.Float.{Arithmetic}
use gengis_mimi.Config.{IndexConfig}
use gengis_mimi.Index.Chunks.{concat}
use gengis_mimi.Index.Clusters.{
  Row, Sum, modify, replicate, spread, nearest, nearest_from, means, refine, rounds, train, assign,
  normalized,
}
use gengis_mimi.Index.Build.{Tools}
use gengis_mimi.Index.Build.Documents.{min, cluster_count, training_of, centroids_of, clusters_of}

module _ {ℓ} {A : Type ℓ} where
  length-modify : (f : A → A) (n : ℕ) (xs : List A) → length (modify f n xs) ≡ length xs
  unfolding modify
  length-modify f n [] = refl
  length-modify f zero (x ∷ xs) = refl
  length-modify f (suc n) (x ∷ xs) = ap suc (length-modify f n xs)

  length-replicate : (n : ℕ) (x : A) → length (replicate n x) ≡ n
  unfolding replicate
  length-replicate zero x = refl
  length-replicate (suc n) x = ap suc (length-replicate n x)

  concat-replicate : (n : ℕ) → concat {A = A} (replicate n []) ≡ []
  unfolding replicate
  concat-replicate zero = refl
  concat-replicate (suc n) = concat-replicate n

  -- One more element in one of the lists.
  concat-modify :
      (x : A) (n : ℕ) (xss : List (List A))
      → n < length xss
      → Perm (concat (modify (λ xs. xs ++ x ∷ []) n xss)) (x ∷ concat xss)
  unfolding modify
  concat-modify x n [] h = absurd (omega arith)
  concat-modify x zero (xs ∷ xss) h =
      Perm.append (perm_append_singleton x xs) (Perm.refl (concat xss))
  concat-modify x (suc n) (xs ∷ xss) h =
      Perm.trans (Perm.append (Perm.refl xs) (concat-modify x n xss (omega arith)))
        (perm_middle xs (concat xss))

length-spread : (n i count : ℕ) (training : List (List ℕ)) → length (spread n i count training) ≡ n
unfolding spread
length-spread zero i count training = refl
length-spread (suc n) i count training = ap suc (length-spread n (i + 1) count training)

module _ (arithmetic : Arithmetic) where
  nearest_from-lt :
      (vector : List ℕ) (i best score n : ℕ) (cs : List (List ℕ))
      → best < n
      → i + length cs ≤ n
      → nearest_from arithmetic vector i best score cs < n
  unfolding nearest_from
  nearest_from-lt vector i best score n [] h k = h
  nearest_from-lt vector i best score n (c ∷ cs) h k =
      nearest_from-lt vector (i + 1) _ _ n cs (either (leb _ _)) (omega arith)
    where
      either : (b : Bool) → (if b then i else best) < n
      either true = omega arith
      either false = h

  -- The number of the nearest centroid is below the number of centroids, where there is one, so
  -- the assignment of a vector to its cluster stays in bounds.
  nearest-lt :
      (vector : List ℕ) (cs : List (List ℕ))
      → 0 < length cs
      → nearest arithmetic vector cs < length cs
  unfolding nearest
  nearest-lt vector [] h = absurd (omega arith)
  nearest-lt vector (c ∷ cs) h =
      nearest_from-lt vector 1 0 _ (suc (length cs)) cs (omega arith) (omega arith)

  length-means :
      (metric : Metric) (cs : List (List ℕ)) (sums : List Sum)
      → length (means arithmetic metric cs sums) ≡ length cs
  unfolding means
  length-means metric [] sums = refl
  length-means metric (c ∷ cs) [] = refl
  length-means metric (c ∷ cs) (s ∷ sums) = ap suc (length-means metric cs sums)

  length-rounds :
      (metric : Metric) (n : ℕ) (training cs : List (List ℕ))
      → length (rounds arithmetic metric n training cs) ≡ length cs
  unfolding rounds refine
  length-rounds metric zero training cs = refl
  length-rounds metric (suc n) training cs =
      length-rounds metric n training (refine arithmetic metric training cs)
      ∙ length-means metric cs _

  pub length-train :
      (metric : Metric) (count iterations : ℕ) (training : List (List ℕ))
      → length (train arithmetic metric count iterations training) ≡ count
  unfolding train
  length-train metric count iterations training = elim (Bool-cases (ltb 0 count)) [
    | inl some_left ↦ rw some_left (
        length-rounds metric iterations training (spread count 0 count training)
        ∙ length-spread count 0 count training)
    | inr none_left ↦ rw none_left (ground arith)
  ]

  assign-Perm :
      (centroids : List (List ℕ)) (rows : List Row) (training : List (List ℕ))
      (clusters : List (List Row))
      → length rows ≡ length training
      → length clusters ≡ length centroids
      → (0 < length centroids) ⊎ (rows ≡ [])
      → Perm (concat (assign arithmetic centroids rows training clusters)) (rows ++ concat clusters)
  unfolding assign
  assign-Perm centroids [] training clusters h k some_there = Perm.refl (concat clusters)
  assign-Perm centroids (row ∷ rows) [] clusters h k some_there = absurd (omega arith)
  assign-Perm centroids (row ∷ rows) (v ∷ training) clusters h k (inr e) = cc
  assign-Perm centroids (row ∷ rows) (v ∷ training) clusters h k (inl some_there) =
      let n = nearest arithmetic v centroids in
      let next = modify (λ (c : List Row). c ++ row ∷ []) n clusters in
      let inside : n < length clusters = omega (arith, nearest-lt v centroids some_there) in
      Perm.trans
        (assign-Perm centroids rows training next (omega arith)
          (length-modify (λ (c : List Row). c ++ row ∷ []) n clusters ∙ k) (inl some_there))
        (Perm.trans (Perm.append (Perm.refl rows) (concat-modify row n clusters inside))
          (perm_middle rows (concat clusters)))

length-map : {A B : Type 0} (f : A → B) (xs : List A) → length (map f xs) ≡ length xs
length-map f [] = refl
length-map f (x ∷ xs) = ap suc (length-map f xs)

enough :
    (config : IndexConfig) (vectors : List Row)
    → 0 < config.clusters
    → (0 < min config.clusters (length vectors)) ⊎ (vectors ≡ [])
enough config [] h = inr refl
enough config (v ∷ vectors) h = inl (ground arith)

module _ {J : Type 0} (tools : Tools J) where
  -- Where the configuration allows a cluster, the clusters of a build together hold every vector
  -- exactly once.
  pub clusters_of-Perm :
      (schema : NamespaceConfig) (config : IndexConfig) (vectors : List Row)
      → 0 < config.clusters
      → Perm (concat (clusters_of tools schema config vectors)) vectors
  clusters_of-Perm schema config vectors h =
      let count = cluster_count tools config vectors in
      let training = training_of tools schema vectors in
      let size = length-train tools.arithmetic schema.metric count config.iterations training in
      let p =
        assign-Perm tools.arithmetic (centroids_of tools schema config vectors) vectors training
          (replicate count [])
          (sym
            (length-map (λ (row : Row). normalized tools.arithmetic schema.metric row.1) vectors))
          (length-replicate count [] ∙ sym size) (rw (sym size) at (enough config vectors h)) in
      rw (concat-replicate count, append-nil vectors) at p
