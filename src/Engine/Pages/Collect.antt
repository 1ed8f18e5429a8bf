-- ===== src/Engine/Pages/Collect.antt =====
-- What `collect_page` of src/engine.rs makes of the rows of listed items.
use gengis_mimi.Shared.{
  ℕ, zero, suc, ◌+◌, ◌≡◌, refl, true, false, Option, none, some, List, [], ◌∷◌, ◌++◌, append-nil,
  append_assoc, arith, length, length-append, take, ltb, ◌==◌, if◌then◌else◌,
}
use gengis_mimi.Shared.Bytes.{Bytes}
use gengis_mimi.Error.{ok}
use gengis_mimi.Slate.Entries.{Entry}
use gengis_mimi.Engine.Pages.{last_id, collect_page}

module _ {A : Type 0} (parse : Bytes → Option A) (id : A → Bytes) where
  -- The rows hold these items, each under the prefix and its ID.
  abbrev pub Lists : Bytes → List Entry → List A → Type 0
  Lists p [] [] = Unit
  Lists p [] (a ∷ items) = ⊥
  Lists p (e ∷ rows) [] = ⊥
  Lists p (e ∷ rows) (a ∷ items) = (e.0 ≡ p ++ id a) × (parse e.1 ≡ some a) × Lists p rows items

  abbrev pub cursor : ℕ → List A → List A → Option Bytes
  cursor k rest page = if ltb k (length rest) then last_id parse id page else none

  collected :
      (p : Bytes) (limit k : ℕ) (items : List A) (rows : List Entry) (rest : List A)
      → length items + k ≡ limit
      → Lists p rows rest
      → collect_page parse id limit items rows
        ≡ ok (record {
          items = items ++ take k rest;
          next_cursor = cursor k rest (items ++ take k rest);
        })
  unfolding collect_page
  collected p limit zero items [] [] e h = rw (append-nil items) refl
  collected p limit (suc k) items [] [] e h =
      let none_left : ltb (suc k) 0 ≡ false = ground arith in rw (append-nil items, none_left) refl
  collected p limit k items [] (a ∷ rest) e h = absurd h
  collected p limit k items ((key, value) ∷ rows) [] e h = absurd h
  collected p limit zero items ((key, value) ∷ rows) (a ∷ rest) e h =
      let full : (length items == limit) ≡ true = ground arith in
      let more : ltb 0 (length (a ∷ rest)) ≡ true = ground arith in
      rw (full, append-nil items, more) refl
  collected p limit (suc k) items ((key, value) ∷ rows) (a ∷ rest) e (named, parsed, h) =
      let room : (length items == limit) ≡ false = ground arith in
      let next =
        collected p limit k (items ++ a ∷ []) rows rest
          (omega (arith, length-append items (a ∷ []))) h in
      let same : ltb (suc k) (suc (length rest)) ≡ ltb k (length rest) = ground arith in
      rw (room, parsed) (rw (append_assoc items (a ∷ []) (take k rest), ← same) at next)

  pub collect_page-Lists :
      (p : Bytes) (limit : ℕ) (rows : List Entry) (rest : List A)
      → Lists p rows rest
      → collect_page parse id limit [] rows
        ≡ ok (record { items = take limit rest; next_cursor = cursor limit rest (take limit rest) })
  collect_page-Lists p limit rows rest h = collected p limit limit [] rows rest (omega arith) h
