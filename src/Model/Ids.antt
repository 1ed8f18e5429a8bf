-- ===== src/Model/Ids.antt =====
-- The valid IDs of src/model.rs, and lists of which a loop with a set of those seen takes each once.
use gengis_mimi.Shared.{◌≡◌, refl, false, List, [], ◌∷◌, arith, All}
use gengis_mimi.Shared.Bytes.{Bytes, bytes_eq, bytes_eq_swap}
use gengis_mimi.Error.{ok}
use gengis_mimi.Model.{validate_id, contains}

abbrev pub IsId : Bytes → Type 0
IsId id = validate_id id ≡ ok tt

-- No two IDs are equal.
abbrev pub AllDistinct : List Bytes → Type 0
AllDistinct [] = Unit
AllDistinct (id ∷ ids) = All (λ (other : Bytes). bytes_eq id other ≡ false) ids × AllDistinct ids

contains_sound :
    (id other : Bytes) (seen : List Bytes)
    → contains id (other ∷ seen) ≡ false
    → (bytes_eq other id ≡ false) × (contains id seen ≡ false)
unfolding contains
contains_sound id other seen h = ground (arith, bytes_eq_swap id other)

unseen :
    (ids : List Bytes) (other : Bytes) (seen : List Bytes)
    → All (λ (id : Bytes). contains id (other ∷ seen) ≡ false) ids
    → All (λ (id : Bytes). bytes_eq other id ≡ false) ids
      × All (λ (id : Bytes). contains id seen ≡ false) ids
unseen [] other seen h = (tt, tt)
unseen (id ∷ ids) other seen (p, h) =
    let (a, b) = contains_sound id other seen p in
    let (c, d) = unseen ids other seen h in ((a, c), (b, d))

-- Valid IDs, different from each other and from those seen.
pub record Distinct (seen ids : List Bytes) : Type 0 where
  pub valid : All IsId ids
  pub distinct : AllDistinct ids
  pub new : All (λ (id : Bytes). contains id seen ≡ false) ids

pub Distinct-nil : (seen : List Bytes) → Distinct seen []
Distinct-nil seen = record { valid = tt; distinct = tt; new = tt }

pub Distinct-cons :
    (id : Bytes) (seen ids : List Bytes)
    → IsId id
    → contains id seen ≡ false
    → Distinct (id ∷ seen) ids
    → Distinct seen (id ∷ ids)
Distinct-cons id seen ids valid new h =
    let (apart, rest) = unseen ids id seen h.new in
    record { valid = (valid, h.valid); distinct = (apart, h.distinct); new = (new, rest) }

contains_step :
    (id other : Bytes) (seen : List Bytes)
    → bytes_eq other id ≡ false
    → contains id seen ≡ false
    → contains id (other ∷ seen) ≡ false
unfolding contains
contains_step id other seen h k = rw (bytes_eq_swap other id h, k) refl

unseen_more :
    (ids : List Bytes) (other : Bytes) (seen : List Bytes)
    → All (λ (id : Bytes). bytes_eq other id ≡ false) ids
    → All (λ (id : Bytes). contains id seen ≡ false) ids
    → All (λ (id : Bytes). contains id (other ∷ seen) ≡ false) ids
unseen_more [] other seen h k = tt
unseen_more (id ∷ ids) other seen (p, h) (q, k) =
    (contains_step id other seen p q, unseen_more ids other seen h k)

pub Distinct-tail :
    (id : Bytes) (seen ids : List Bytes) → Distinct seen (id ∷ ids) → Distinct (id ∷ seen) ids
Distinct-tail id seen ids h =
    let (valid, more) = h.valid in
    let (apart, distinct) = h.distinct in
    let (new, rest) = h.new in
    record { valid = more; distinct = distinct; new = unseen_more ids id seen apart rest }
