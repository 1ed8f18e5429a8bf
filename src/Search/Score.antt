-- ===== src/Search/Score.antt =====
-- `distance_score` of src/search.rs, over the arithmetic of floats, and the order of the hits.
use gengis_mimi.Shared.{ℕ, ◌%◌, ◌^◌, List, [], ◌∷◌, ◌==◌, if◌then◌else◌, map}
use gengis_mimi.Model.{Metric}
use gengis_mimi.Model.Float.{Arithmetic, lt_f64}

module _ (arithmetic : Arithmetic) where
  open arithmetic use {of_f32, sub, mul, div, neg, square, sqrt, sum, one}

  -- `zip` and `map`: the shorter list ends it.
  unfoldable pub zip_with : (ℕ → ℕ → ℕ) → List ℕ → List ℕ → List ℕ
  zip_with f [] b = []
  zip_with f (x ∷ a) [] = []
  zip_with f (x ∷ a) (y ∷ b) = f x y ∷ zip_with f a b

  unfoldable pub dot : List ℕ → List ℕ → ℕ
  unfolding zip_with
  dot a b = sum (zip_with (λ x y. mul (of_f32 x) (of_f32 y)) a b)

  unfoldable pub norm : List ℕ → ℕ
  norm v = sqrt (sum (map (λ x. square (of_f32 x)) v))

  -- `clamp(-1.0, 1.0)`; a NaN stays.
  unfoldable pub clamp_unit : ℕ → ℕ
  clamp_unit v = if lt_f64 v (neg one) then neg one else if lt_f64 one v then one else v

  unfoldable pub cosine_score : ℕ → ℕ → ℕ
  unfolding clamp_unit
  cosine_score product denominator =
      if denominator % 2 ^ 63 == 0 then neg one else clamp_unit (div product denominator)

  unfoldable pub distance_score : List ℕ → List ℕ → Metric → ℕ
  unfolding zip_with dot norm cosine_score
  distance_score a b Metric.dot = dot a b
  distance_score a b Metric.squared_euclidean =
      neg (sum (zip_with (λ x y. square (sub (of_f32 x) (of_f32 y))) a b))
  distance_score a b Metric.cosine = cosine_score (dot a b) (mul (norm a) (norm b))
