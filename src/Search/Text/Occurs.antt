-- ===== src/Search/Text/Occurs.antt =====
-- The terms of the query in what `text_query` of src/search.rs gathers.
use gengis_mimi.Shared.{
  ℕ, ◌≡◌, refl, Bool, true, false, inl, inr, Option, none, some, List, [], ◌∷◌, All, any,
  Bool-cases, Option-cases,
}
use gengis_mimi.Shared.Bytes.{Bytes, bytes_eq, bytes_eq_refl}
use gengis_mimi.Shared.Maps.{map_get}
use gengis_mimi.Index.{Terms}
use gengis_mimi.Search.Text.{Found, empty_found, add_terms_found}
use gengis_mimi.Search.Text.Scored.{HasKey, IsPosted, IsPosted-own, map_get-add_terms_found}

abbrev pub is_some {ℓ} : {A : Type ℓ} → Option A → Bool
is_some none = false
is_some (some a) = true

-- One of the terms is among those of a text.
abbrev pub occurs : List (Bytes × ℕ) → List (Bytes × ℕ) → Bool
occurs frequencies = any (λ (t : Bytes × ℕ). is_some (map_get t.0 frequencies))

abbrev pub HasTerms : List (Bytes × ℕ) → Found → Type 0
HasTerms terms found = All (λ (t : Bytes × ℕ). HasKey t.0 found) terms

pub HasTerms-add :
    (id : Bytes) (more : Terms) (terms : List (Bytes × ℕ)) (found : Found)
    → HasTerms terms found
    → HasTerms terms (add_terms_found id more found)
HasTerms-add id more [] found h = tt
HasTerms-add id more ((t, n) ∷ terms) found ((rows, e), h) =
    ((_, map_get-add_terms_found t id more found rows e), HasTerms-add id more terms found h)

pub empty_found-HasTerms : (terms : List (Bytes × ℕ)) → HasTerms terms (empty_found terms)
unfolding empty_found map_get
empty_found-HasTerms [] = tt
empty_found-HasTerms ((term, n) ∷ terms) =
    (([], rw (bytes_eq_refl term) refl), behind terms (empty_found-HasTerms terms))
  where
    behind :
        (more : List (Bytes × ℕ))
        → HasTerms more (empty_found terms)
        → HasTerms more ((term, []) ∷ empty_found terms)
    behind [] h = tt
    behind ((t, m) ∷ more) ((rows, e), h) = elim (Bool-cases (bytes_eq term t)) [
      | inl same ↦ (([], rw same refl), behind more h)
      | inr other ↦ ((rows, rw other e), behind more h)
    ]

-- A term that occurs has a posting, once those of the document are added.
pub occurs-IsPosted :
    (id : Bytes) (more : Terms) (terms : List (Bytes × ℕ)) (found : Found)
    → occurs more.frequencies terms ≡ true
    → HasTerms terms found
    → (term : Bytes) × IsPosted term id (add_terms_found id more found)
occurs-IsPosted id more [] found e h = cc
occurs-IsPosted id more ((t, n) ∷ terms) found e (there, h) =
    elim (Option-cases (map_get t more.frequencies)) [
      | inl absent ↦ occurs-IsPosted id more terms found (rw absent at e) h
      | inr (f, same) ↦ (t, IsPosted-own t id more found (f, same) there)
    ]
