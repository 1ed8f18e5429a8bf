-- ===== src/Shared/Maps.antt =====
-- `BTreeMap` and `BTreeSet` of strings as lists in key order, and maps over results.
use mathlib.Core.Path.{◌≡◌, refl}
use mathlib.Core.Bool.{Bool}
use mathlib.Core.List.{List, [], ◌∷◌}
use mathlib.Core.Option.{Option, none, some}
use native.Mathlib.Omega.{arith}
use gengis_mimi.Shared.Tests.{if◌then◌else◌}
use gengis_mimi.Shared.Lists.{any}
use gengis_mimi.Shared.Bytes.{Bytes, bytes_eq, bytes_eq_iff, bytes_lt}

module _ {ℓ} {A : Type ℓ} where
  unfoldable pub map_get : Bytes → List (Bytes × A) → Option A
  map_get k [] = none
  map_get k ((j, v) ∷ rows) = if bytes_eq j k then some v else map_get k rows

  unfoldable pub map_insert : Bytes → A → List (Bytes × A) → List (Bytes × A)
  map_insert k v [] = (k, v) ∷ []
  map_insert k v ((j, w) ∷ rows) =
      let later = (j, w) ∷ map_insert k v rows in
      if bytes_eq j k then (k, v) ∷ rows else if bytes_lt k j then (k, v) ∷ (j, w) ∷ rows else later

  -- `entry(k).or_default()`, changed by `f`.
  abbrev or_default : A → Option A → A
  or_default d none = d
  or_default d (some v) = v

  unfoldable pub map_update : A → Bytes → (A → A) → List (Bytes × A) → List (Bytes × A)
  unfolding map_get map_insert
  map_update d k f rows = map_insert k (f (or_default d (map_get k rows))) rows

  pub map_get-map_insert :
      (k j : Bytes) (v : A) (rows : List (Bytes × A))
      → map_get j (map_insert k v rows) ≡ (if bytes_eq k j then some v else map_get j rows)
  unfolding map_get map_insert
  map_get-map_insert k j v [] = refl
  map_get-map_insert k j v ((i, w) ∷ rows) =
      ground
        (arith, bytes_eq_iff k j, bytes_eq_iff i k, bytes_eq_iff i j, map_get-map_insert k j v rows)

unfoldable pub set_contains : List Bytes → Bytes → Bool
set_contains ids id = any (λ other. bytes_eq other id) ids

unfoldable pub set_insert : Bytes → List Bytes → List Bytes
set_insert k [] = k ∷ []
set_insert k (j ∷ ids) =
    let later = j ∷ set_insert k ids in
    if bytes_eq j k then j ∷ ids else if bytes_lt k j then k ∷ j ∷ ids else later

-- `extend` and `collect`
abbrev pub set_extend : List Bytes → List Bytes → List Bytes
set_extend [] ids = ids
set_extend (k ∷ more) ids = set_extend more (set_insert k ids)

abbrev pub set_of : List Bytes → List Bytes
set_of more = set_extend more []

-- `retain` and the filters of an iterator.
unfoldable pub keep {ℓ} : {A : Type ℓ} → (A → Bool) → List A → List A
keep p [] = []
keep p (x ∷ xs) = let rest = keep p xs in if p x then x ∷ rest else rest
