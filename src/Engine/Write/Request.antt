-- ===== src/Engine/Write/Request.antt =====
-- What `Engine::write` has checked of a request before it takes the schema lock.
use gengis_mimi.Shared.{
  ℕ, ◌≡◌, refl, ap, false, List, [], ◌∷◌, ◌++◌, map, arith, All, length, not, in_range, ◌+◌, ◌≤◌,
}
use gengis_mimi.Shared.Bytes.{Bytes}
use gengis_mimi.Error.{Error}
use gengis_mimi.Error.Ensures.{Ensures, returns, Ensures-bind_eq, Ensures-reject_if, Ensures-mono}
use gengis_mimi.Model.{Document, WriteRequest, validate_id, contains, max_batch_operations}
use gengis_mimi.Engine.Draft.{
  items, request_ids, upsert_item, delete_item, validate_batch_ids, validate_request,
}
use gengis_mimi.Model.Ids.{IsId, AllDistinct, Distinct, Distinct-nil, Distinct-cons}
use gengis_mimi.Engine.Draft.Loop.{ids_of}

validate_batch_ids-Ensures :
    (seen ids : List Bytes) → Ensures (λ _. Distinct seen ids) (validate_batch_ids seen ids)
unfolding validate_batch_ids
validate_batch_ids-Ensures seen [] = returns (Distinct-nil seen)
validate_batch_ids-Ensures seen (id ∷ ids) = Ensures-bind_eq (validate_id id) λ _ valid.
    Ensures-reject_if (contains id seen) Error.invalid λ new.
      Ensures-mono (validate_batch_ids-Ensures (id ∷ seen) ids)
        λ _ h. Distinct-cons id seen ids valid new h

ids_of-deletes : (J : Type 0) (ids : List Bytes) → ids_of (map (delete_item {J = J}) ids) ≡ ids
ids_of-deletes J [] = refl
ids_of-deletes J (id ∷ ids) = ap (λ l. id ∷ l) (ids_of-deletes J ids)

in_range_sound :
    (n : ℕ) → not (in_range 1 max_batch_operations n) ≡ false → (1 ≤ n) × (n ≤ max_batch_operations)
in_range_sound n h = ground arith

module _ {J : Type 0} where
  ids_of-items :
      (ds : List (Document J)) (ids : List Bytes)
      → ids_of (map upsert_item ds ++ map delete_item ids)
        ≡ map (λ (d : Document J). d.id) ds ++ ids
  ids_of-items [] ids = ids_of-deletes J ids
  ids_of-items (d ∷ ds) ids = ap (λ l. d.id ∷ l) (ids_of-items ds ids)

  -- A request that passes has a valid name, and valid IDs of which no two are equal.
  pub record IsRequest (name : Bytes) (r : WriteRequest J) : Type 0 where
    pub name_valid : IsId name
    pub size :
        (1 ≤ length r.upsert + length r.delete)
        × (length r.upsert + length r.delete ≤ max_batch_operations)
    pub ids_valid : All IsId (ids_of (items r))
    pub distinct : AllDistinct (ids_of (items r))

  pub validate_request-Ensures :
      (name : Bytes) (r : WriteRequest J)
      → Ensures (λ _. IsRequest name r) (validate_request name r)
  unfolding validate_request
  validate_request-Ensures name r = Ensures-bind_eq (validate_id name) λ _ valid.
      Ensures-reject_if _ Error.invalid λ size.
        Ensures-mono (validate_batch_ids-Ensures [] (request_ids r)) λ _ h. record {
          name_valid = valid;
          size = in_range_sound _ size;
          ids_valid = rw (ids_of-items r.upsert r.delete) h.valid;
          distinct = rw (ids_of-items r.upsert r.delete) h.distinct;
        }
