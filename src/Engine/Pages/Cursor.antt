-- ===== src/Engine/Pages/Cursor.antt =====
-- A cursor of src/engine.rs: the rows behind it are those of the items behind its own.
use gengis_mimi.Shared.{
  ◌≡◌, refl, true, false, inl, inr, Option, List, [], ◌∷◌, ◌++◌, All, arith, length, drop,
  drop-append, Bool-cases, if◌then◌else◌,
}
use gengis_mimi.Shared.Bytes.{Bytes, bytes_lt, bytes_lt_irrefl, bytes_lt_asym, starts_with}
use gengis_mimi.Slate.Entries.{Entry, with_prefix, with_after}
use gengis_mimi.Slate.Sorted.{Above, IsSorted}
use gengis_mimi.Engine.Pages.Collect.{Lists}

pub bytes_lt-append : (p a b : Bytes) → bytes_lt (p ++ a) (p ++ b) ≡ bytes_lt a b
unfolding bytes_lt
bytes_lt-append [] a b = refl
bytes_lt-append (x ∷ p) a b = ground (arith, bytes_lt-append p a b)

module _ {A : Type 0} (parse : Bytes → Option A) (id : A → Bytes) where
  abbrev pub above : Bytes → List A → List A
  above c [] = []
  above c (a ∷ items) = if bytes_lt c (id a) then a ∷ above c items else above c items

  abbrev pub Increasing : List A → Type 0
  Increasing [] = Unit
  Increasing (a ∷ items) = All (λ b. bytes_lt (id a) (id b) ≡ true) items × Increasing items

  pub Lists-Increasing :
      (p : Bytes) (rows : List Entry) (items : List A)
      → Lists parse id p rows items
      → IsSorted rows
      → Increasing items
  Lists-Increasing p [] [] h s = tt
  Lists-Increasing p [] (a ∷ items) h s = absurd h
  Lists-Increasing p (e ∷ rows) [] h s = absurd h
  Lists-Increasing p (e ∷ rows) (a ∷ items) (named, parsed, h) (low, s) =
      (of rows items h (rw named at low), Lists-Increasing p rows items h s)
    where
      of :
          (rows : List Entry) (items : List A)
          → Lists parse id p rows items
          → Above (p ++ id a) rows
          → All (λ b. bytes_lt (id a) (id b) ≡ true) items
      of [] [] h low = tt
      of [] (b ∷ items) h low = absurd h
      of (f ∷ rows) [] h low = absurd h
      of (f ∷ rows) (b ∷ items) (named, parsed, h) (l, low) =
          (rw (← bytes_lt-append p (id a) (id b), ← named) l, of rows items h low)

  pub Lists-after :
      (p c : Bytes) (es : List Entry) (items : List A)
      → Lists parse id p (with_prefix p es) items
      → Lists parse id p (with_after p c es) (above c items)
  unfolding with_prefix with_after
  Lists-after p c [] [] h = tt
  Lists-after p c [] (a ∷ items) h = absurd h
  Lists-after p c ((k, v) ∷ es) items h = elim (Bool-cases (starts_with p k)) [
    | inl below ↦ rw below (inside (λ rest k. Lists-after p c es rest k) items (rw below at h))
    | inr apart ↦ rw apart (Lists-after p c es items (rw apart at h))
  ]
    where
      inside :
          ((rest : List A)
            → Lists parse id p (with_prefix p es) rest
            → Lists parse id p (with_after p c es) (above c rest))
          → (items : List A) → Lists parse id p ((k, v) ∷ with_prefix p es) items
          → Lists parse id p
              (if bytes_lt c (drop (length p) k)
                then (k, v) ∷ with_after p c es
                else with_after p c es)
              (above c items)
      inside next [] h = absurd h
      inside next (a ∷ items) (named, parsed, h) =
          let same : drop (length p) k ≡ id a = rw named (drop-append p (id a)) in
          elim (Bool-cases (bytes_lt c (id a))) [
            | inl later ↦ rw (same, later) (named, parsed, next items h)
            | inr earlier ↦ rw (same, earlier) (next items h)
          ]

  above_all :
      (a : A) (items : List A)
      → All (λ b. bytes_lt (id a) (id b) ≡ true) items
      → above (id a) items ≡ items
  above_all a [] h = refl
  above_all a (b ∷ items) (l, h) = rw (l, above_all a items h) refl

  -- Behind an item's own ID are the items that follow it.
  pub above_own :
      (before : List A) (a : A) (items : List A)
      → Increasing (before ++ a ∷ items)
      → above (id a) (before ++ a ∷ items) ≡ items
  above_own [] a items (low, h) = rw (bytes_lt_irrefl (id a)) (above_all a items low)
  above_own (b ∷ before) a items (low, h) = rw (not_below b before low) (above_own before a items h)
    where
      not_below :
          (b : A) (before : List A)
          → All (λ c. bytes_lt (id b) (id c) ≡ true) (before ++ a ∷ items)
          → bytes_lt (id a) (id b) ≡ false
      not_below b [] (l, low) = bytes_lt_asym (id b) (id a) l
      not_below b (c ∷ before) (l, low) = not_below b before low
