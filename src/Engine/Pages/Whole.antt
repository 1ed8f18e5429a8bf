-- ===== src/Engine/Pages/Whole.antt =====
-- Reading src/engine.rs page after page, from no cursor and then from each page's own.
use gengis_mimi.Shared.{
  ℕ, zero, suc, ◌≤◌, ◌<◌, ◌≡◌, refl, sym, subst, ap, ◌∙◌, true, false, inl, inr, Option, none, some,
  List, [], ◌∷◌, ◌++◌, append_assoc, take-append-drop, arith, length, length-drop, take, drop, ltb,
  ltb→lt, Bool-cases, All, in_range, take_all, append-All,
}
use gengis_mimi.Shared.Bytes.{Bytes}
use gengis_mimi.Error.{Result, ok}
use gengis_mimi.Model.{Namespace, PageRequest, Page, validate_page, validate_after, max_page_size}
use gengis_mimi.Model.Ids.{IsId}
use gengis_mimi.Slate.{Slate, IsHealthy}
use gengis_mimi.Slate.Entries.{Entry, with_prefix, with_after}
use gengis_mimi.Engine.Pages.{last_id, namespaces, namespace_id, page_iterator}
use gengis_mimi.Engine.Pages.Collect.{Lists, cursor, collect_page-Lists}
use gengis_mimi.Engine.Pages.Cursor.{above, above_own, Increasing, Lists-Increasing, Lists-after}
use gengis_mimi.Engine.Serde.{Serde}
use gengis_mimi.Engine.Keys.{name_key}
use gengis_mimi.Engine.Read.{check_ready}
use gengis_mimi.Slate.Sorted.{IsSorted}
use gengis_mimi.Slate.Range.{with_prefix-IsSorted}

module _ {A : Type 0} (parse : Bytes → Option A) (id : A → Bytes) where
  -- The page of the first `limit` of these.
  abbrev pub page_of : ℕ → List A → Page A
  page_of limit rest = record {
    items = take limit rest;
    next_cursor = cursor parse id limit rest (take limit rest);
  }

  -- Of a request at a time: pages from this cursor on, to one without a cursor, list these.
  pub data PagesFrom (fetch : PageRequest → Result (Page A)) (limit : ℕ)
      : Option Bytes → List A → Type 0 where
    last :
        {after : Option Bytes} {items : List A}
        → fetch (record { limit = limit; after = after })
          ≡ ok (record { items = items; next_cursor = none })
        → PagesFrom fetch limit after items
    then_next :
        {after : Option Bytes} {items rest : List A} {next : Bytes}
        → fetch (record { limit = limit; after = after })
          ≡ ok (record { items = items; next_cursor = some next })
        → PagesFrom fetch limit (some next) rest
        → PagesFrom fetch limit after (items ++ rest)

  abbrev pub rest_of : Option Bytes → List A → List A
  rest_of none items = items
  rest_of (some c) items = above parse id c items

  last_id-take :
      (n : ℕ) (rest : List A)
      → 0 < n
      → n < length rest
      → (before : List A) × (a : A) × (last_id parse id (take n rest) ≡ some (id a))
        × (rest ≡ before ++ a ∷ drop n rest)
  last_id-take zero rest h k = absurd (omega arith)
  last_id-take (suc n) [] h k = absurd (omega arith)
  last_id-take (suc zero) (a ∷ rest) h k = ([], a, refl, refl)
  last_id-take (suc (suc n)) (a ∷ []) h k = absurd (omega arith)
  last_id-take (suc (suc n)) (a ∷ b ∷ rest) h k =
      let (before, c, e, f) = last_id-take (suc n) (b ∷ rest) (omega arith) (omega arith) in
      (a ∷ before, c, e, ap (λ l. a ∷ l) f)

  module _ (fetch : PageRequest → Result (Page A)) (limit : ℕ) (positive : 0 < limit)
      (items : List A) where
    -- What a page behind an item holds.
    abbrev FetchesBehind : Type 0
    FetchesBehind =
        (before : List A) (a : A) (rest : List A)
        → items ≡ before ++ a ∷ rest
        → fetch (record { limit = limit; after = some (id a) }) ≡ ok (page_of limit rest)

    pages_from :
        FetchesBehind
        → (n : ℕ) (after : Option Bytes) (before rest : List A) → length rest ≤ n
        → items ≡ before ++ rest
        → fetch (record { limit = limit; after = after }) ≡ ok (page_of limit rest)
        → PagesFrom fetch limit after rest
    pages_from behind zero after before [] short e got =
        let got' = rw (take_all {A = A} limit [] (omega arith)) at got in
        let small : ltb limit 0 ≡ false = ground arith in last (rw small at got')
    pages_from behind zero after before (b ∷ rest) short e got = absurd (omega arith)
    pages_from behind (suc n) after before rest short e got =
        elim (Bool-cases (ltb limit (length rest))) [
          | inr small ↦ last (rw (small, take_all limit rest (ground arith)) at got)
          | inl more ↦
              let (bf, a, named, split) =
                last_id-take limit rest positive (ltb→lt limit (length rest) more) in
              let got' = rw (more, named) at got in
              let left = drop limit rest in
              let e' : items ≡ (before ++ bf) ++ a ∷ left =
                e ∙ ap (λ l. before ++ l) split ∙ sym (append_assoc before bf (a ∷ left)) in
              let e'' : items ≡ ((before ++ bf) ++ a ∷ []) ++ left =
                e' ∙ sym (append_assoc (before ++ bf) (a ∷ []) left) in
              subst (PagesFrom fetch limit after) (take-append-drop limit rest) (
                then_next got' (
                  pages_from behind n (some (id a)) ((before ++ bf) ++ a ∷ []) left
                    (omega (arith, length-drop limit rest)) e'' (behind (before ++ bf) a left e')))
        ]

module _ (s : Slate) {J : Type 0} (serde : Serde J) (db : s.Db) where
  abbrev pub ListsNamespaces : List Namespace → Type 0
  ListsNamespaces =
      Lists serde.namespace_from_slice (namespace_id s serde) (name_key b'n' [])
        (with_prefix (name_key b'n' []) (s.entries db))

  abbrev pub PagesOfNamespaces : ℕ → List Namespace → Type 0
  PagesOfNamespaces limit =
      PagesFrom serde.namespace_from_slice (namespace_id s serde) (namespaces s serde db) limit none

  in_limit :
      (limit : ℕ) (after : Option Bytes)
      → in_range 1 max_page_size limit ≡ true
      → validate_after after ≡ ok tt
      → validate_page (record { limit = limit; after = after }) ≡ ok tt
  unfolding validate_page
  in_limit limit after h k = rw (h, k) refl

  -- Each page of namespaces.
  namespaces_page :
      (limit : ℕ) (after : Option Bytes) (rows : List Entry) (rest : List Namespace)
      → check_ready s db ≡ ok tt
      → in_range 1 max_page_size limit ≡ true
      → validate_after after ≡ ok tt
      → page_iterator s db (name_key b'n' []) (record { limit = limit; after = after }) ≡ ok rows
      → Lists serde.namespace_from_slice (namespace_id s serde) (name_key b'n' []) rows rest
      → namespaces s serde db (record { limit = limit; after = after })
        ≡ ok (page_of serde.namespace_from_slice (namespace_id s serde) limit rest)
  unfolding namespaces
  namespaces_page limit after rows rest ready small valid scanned h =
      rw (in_limit limit after small valid, ready, scanned)
        (collect_page-Lists serde.namespace_from_slice (namespace_id s serde) (name_key b'n' [])
          limit rows rest h)

  -- On a database that never fails, is ready and in key order, where each row of the namespaces is
  -- at the key of the namespace that it holds, with a valid name, and for a limit that is allowed,
  -- a client that asks `namespaces` from no cursor, and then from each page's, comes to a page
  -- without a cursor, and the pages together list exactly the namespaces, each once and in key
  -- order.
  pub namespaces_whole :
      (limit : ℕ) (found : List Namespace)
      → IsHealthy s
      → check_ready s db ≡ ok tt
      → IsSorted (s.entries db)
      → ListsNamespaces found
      → All (λ (n : Namespace). IsId n.name) found
      → in_range 1 max_page_size limit ≡ true
      → PagesOfNamespaces limit found
  unfolding page_iterator
  namespaces_whole limit found healthy ready sorted h valid small =
      pages_from serde.namespace_from_slice (namespace_id s serde) (namespaces s serde db) limit
        (ground arith) found behind (length found) none [] found (omega arith) refl
        (namespaces_page limit none _ found ready small refl (healthy.scan_prefix_ok db p) h)
    where
      p : Bytes
      p = name_key b'n' []

      increasing : Increasing serde.namespace_from_slice (namespace_id s serde) found
      increasing =
          Lists-Increasing serde.namespace_from_slice (namespace_id s serde) p _ found h
            (with_prefix-IsSorted p (s.entries db) sorted)

      behind :
          FetchesBehind serde.namespace_from_slice
            (namespace_id s serde)
            (namespaces s serde db)
            limit
            (ground arith)
            found
      behind before a rest e =
          let own =
            above_own serde.namespace_from_slice (namespace_id s serde) before a rest
              (rw e at increasing) in
          let after =
            Lists-after serde.namespace_from_slice (namespace_id s serde) p a.name (s.entries db)
              found h in
          let valid' =
            append-All (λ (n : Namespace). IsId n.name) before (a ∷ rest) (rw e at valid) in
          namespaces_page limit (some a.name) (with_after p a.name (s.entries db)) rest ready small
            valid'.1.0 (healthy.scan_after_ok db p a.name) (rw (e, own) at after)
