-- ===== src/Index/Clusters.antt =====
-- The clusters of `build` of src/index.rs: `normalize`, `nearest`, the first centroids, Lloyd's rounds
-- and the assignment of the vectors, over the arithmetic of floats.
use gengis_mimi.Shared.{
  ℕ, zero, suc, ◌+◌, ◌*◌, ◌/◌, List, [], ◌∷◌, ◌++◌, map, length, leb, ltb, if◌then◌else◌,
}
use gengis_mimi.Shared.Bytes.{Bytes}
use gengis_mimi.Model.{Metric, is_cosine}
use gengis_mimi.Model.Float.{Arithmetic, lt_f64, total_key}
use gengis_mimi.Search.Score.{distance_score}

-- A vector with its ID.
abbrev pub Row : Type 0
Row = Bytes × List ℕ

-- `list[n]`; past the end, where the code would panic, nothing is found but `d`.
unfoldable pub nth {ℓ} : {A : Type ℓ} → A → ℕ → List A → A
nth d n [] = d
nth d zero (x ∷ xs) = x
nth d (suc n) (x ∷ xs) = nth d n xs

-- `list[n] = f(list[n])`
unfoldable pub modify {ℓ} : {A : Type ℓ} → (A → A) → ℕ → List A → List A
modify f n [] = []
modify f zero (x ∷ xs) = f x ∷ xs
modify f (suc n) (x ∷ xs) = x ∷ modify f n xs

-- `vec![x; n]`
unfoldable pub replicate {ℓ} : {A : Type ℓ} → ℕ → A → List A
replicate zero x = []
replicate (suc n) x = x ∷ replicate n x

-- `training[i * len / count]` for the `count` clusters from `i` on.
unfoldable pub spread : ℕ → ℕ → ℕ → List (List ℕ) → List (List ℕ)
unfolding nth
spread zero i count training = []
spread (suc left) i count training =
    nth [] (i * length training / count) training ∷ spread left (i + 1) count training

-- A cluster's sum and size.
abbrev pub Sum : Type 0
Sum = List ℕ × ℕ

abbrev pub dimension : List (List ℕ) → ℕ
dimension [] = 0
dimension (v ∷ vs) = length v

module _ (arithmetic : Arithmetic) where
  open arithmetic use {of_f32, to_f32, of_int, add, div, square, sqrt, sum}

  abbrev pub scaled : ℕ → List ℕ → List ℕ
  scaled n vector = if lt_f64 0 n then map (λ v. to_f32 (div (of_f32 v) n)) vector else vector

  unfoldable pub normalize : List ℕ → List ℕ
  normalize vector = scaled (sqrt (sum (map (λ v. square (of_f32 v)) vector))) vector

  -- `max_by`, which takes the last of equal ones.
  unfoldable pub nearest_from : List ℕ → ℕ → ℕ → ℕ → List (List ℕ) → ℕ
  nearest_from vector i best score [] = best
  nearest_from vector i best score (c ∷ cs) =
      let next = distance_score arithmetic vector c Metric.squared_euclidean in
      let wins = leb (total_key score) (total_key next) in
      nearest_from vector (i + 1) (if wins then i else best) (if wins then next else score) cs

  unfoldable pub nearest : List ℕ → List (List ℕ) → ℕ
  unfolding nearest_from
  nearest vector [] = 0
  nearest vector (c ∷ cs) =
      nearest_from vector 1 0 (distance_score arithmetic vector c Metric.squared_euclidean) cs

  abbrev pub normalized : Metric → List ℕ → List ℕ
  normalized metric v = if is_cosine metric then normalize v else v

  unfoldable pub add_vector : List ℕ → List ℕ → List ℕ
  add_vector [] v = []
  add_vector (s ∷ sums) [] = s ∷ sums
  add_vector (s ∷ sums) (x ∷ v) = add s (of_f32 x) ∷ add_vector sums v

  unfoldable pub sums_of : List (List ℕ) → List (List ℕ) → List Sum → List Sum
  unfolding modify add_vector
  sums_of centroids [] sums = sums
  sums_of centroids (v ∷ training) sums =
      sums_of centroids training
        (modify (λ (s : Sum). (add_vector s.0 v, s.1 + 1)) (nearest v centroids) sums)

  unfoldable pub mean : Metric → List ℕ → Sum → List ℕ
  mean metric centroid (s, size) =
      if ltb 0 size then normalized metric (map (λ v. to_f32 (div v (of_int size))) s) else centroid

  unfoldable pub means : Metric → List (List ℕ) → List Sum → List (List ℕ)
  unfolding mean
  means metric [] sums = []
  means metric (c ∷ cs) [] = c ∷ cs
  means metric (c ∷ cs) (s ∷ sums) = mean metric c s ∷ means metric cs sums

  -- One round, and the rounds.
  unfoldable pub refine : Metric → List (List ℕ) → List (List ℕ) → List (List ℕ)
  unfolding sums_of means replicate
  refine metric training centroids = means metric centroids (
      sums_of centroids training
        (replicate (length centroids) (replicate (dimension training) 0, 0)))

  unfoldable pub rounds : Metric → ℕ → List (List ℕ) → List (List ℕ) → List (List ℕ)
  rounds metric zero training centroids = centroids
  rounds metric (suc n) training centroids =
      rounds metric n training (refine metric training centroids)

  unfoldable pub train : Metric → ℕ → ℕ → List (List ℕ) → List (List ℕ)
  unfolding spread rounds
  train metric count iterations training =
      if ltb 0 count then rounds metric iterations training (spread count 0 count training) else []

  -- Each row joins the cluster of its training vector.
  unfoldable pub assign :
      List (List ℕ) → List Row → List (List ℕ) → List (List Row) → List (List Row)
  unfolding modify
  assign centroids [] training clusters = clusters
  assign centroids (row ∷ rows) [] clusters = clusters
  assign centroids (row ∷ rows) (v ∷ training) clusters =
      assign centroids rows training
        (modify (λ (c : List Row). c ++ row ∷ []) (nearest v centroids) clusters)
