-- ===== src/Engine/Erase/Resume.antt =====
-- The loop of `open_inner` in src/engine.rs that takes up deletions: it leaves no mark.
use gengis_mimi.Shared.{
  ◌≡◌, ◌⊎◌, inl, inr, refl, sym, subst, ◌∙◌, Bool, true, false, none, List, [], ◌∷◌, drop, any,
  arith, Bool-cases, if◌then◌else◌,
}
use gengis_mimi.Shared.Bytes.{Bytes, bytes_eq, bytes_eq→eq, starts_with}
use gengis_mimi.Slate.{Slate}
use gengis_mimi.Slate.Action.{Ends, returned, Ends-continue, Ends-reads, Ends-weaken, Ends-mono}
use gengis_mimi.Slate.Entries.{Entry, lookup, with_prefix}
use gengis_mimi.Slate.Deletes.{
  Cleared, Touched, Touched-refl, Touched-after, Cleared-after, Touched-mono,
}
use gengis_mimi.Engine.Keys.{slash, name_key}
use gengis_mimi.Engine.Erase.{erase_marked, resume_deletes}
use gengis_mimi.Engine.Erase.Intent.{mark_key, is_erased, mark_erased, erase_namespace-Ends}

-- The keys of the namespaces that the rows mark.
abbrev pub is_marked : List Entry → Bytes → Bool
is_marked rows k = any (λ (row : Entry). is_erased (drop 2 row.0) k) rows

-- A key under the marks' prefix is the mark of what follows it.
mark_of : (k : Bytes) → starts_with (name_key b'z' []) k ≡ true → k ≡ mark_key (drop 2 k)
unfolding starts_with
mark_of [] h = cc
mark_of (a ∷ []) h = absurd (ground arith)
mark_of (a ∷ b ∷ k) h =
    let first : a ≡ b'z' = ground arith in let second : b ≡ slash = ground arith in cc

-- A mark that the scan lists is among those erased.
listed_mark :
    (k : Bytes) (es : List Entry)
    → starts_with (name_key b'z' []) k ≡ true
    → (lookup k es ≡ none) ⊎ (is_marked (with_prefix (name_key b'z' []) es) k ≡ true)
unfolding lookup with_prefix
listed_mark k [] h = inl refl
listed_mark k ((j, v) ∷ es) h = elim (Bool-cases (bytes_eq j k)) [
  | inl same ↦ let e = bytes_eq→eq j k same in rw (e, h) (inr (rw (erased_by_itself k h) refl))
  | inr other ↦ rw other (further (starts_with (name_key b'z' []) j) (listed_mark k es h))
]
  where
    erased_by_itself :
        (k : Bytes) → starts_with (name_key b'z' []) k ≡ true → is_erased (drop 2 k) k ≡ true
    erased_by_itself k h =
        subst (λ (i : Bytes). is_erased (drop 2 k) i ≡ true) (sym (mark_of k h))
          (mark_erased (drop 2 k))

    further :
        (b : Bool)
        → (lookup k es ≡ none) ⊎ (is_marked (with_prefix (name_key b'z' []) es) k ≡ true)
        → (lookup k es ≡ none)
          ⊎ (is_marked
                (if b
                  then (j, v) ∷ with_prefix (name_key b'z' []) es
                  else with_prefix (name_key b'z' []) es)
                k
              ≡ true)
    further b (inl gone) = inl gone
    further true (inr e) = inr (rw e (ground arith))
    further false (inr e) = inr e

module _ (s : Slate) where
  erase_marked-Ends :
      (rows : List Entry) (db : s.Db)
      → Ends
          (λ u db'. Cleared (is_marked rows) (s.entries db) (s.entries db'))
          (λ db'. Touched (is_marked rows) (s.entries db) (s.entries db'))
          (erase_marked s rows db)
  unfolding erase_marked
  erase_marked-Ends [] db = returned (λ k. refl)
  erase_marked-Ends ((key, value) ∷ rows) db =
      let es = s.entries db in
      let here = is_erased (drop 2 key) in
      Ends-continue
        (Ends-weaken (erase_namespace-Ends s (drop 2 key) db) λ db' part.
          Touched-mono here (is_marked ((key, value) ∷ rows)) es (s.entries db') (λ k e. rw e refl)
            part.touched)
        λ u db' cleared.
          Ends-mono (erase_marked-Ends rows db')
            (λ v db'' more.
              Cleared-after here (is_marked rows) es (s.entries db') (s.entries db'') cleared more)
            (λ db'' more.
              Touched-after here (is_marked rows) es (s.entries db') (s.entries db'') cleared more)

  -- The marks that were there.
  abbrev pub marks_at : s.Db → List Entry
  marks_at db = with_prefix (name_key b'z' []) (s.entries db)

  -- The loop that takes up deletions ends in one of two ways. It returns, and exactly the keys of
  -- the marked namespaces are gone, the marks among them, so that no mark is left. Or it fails,
  -- and a key has changed only if it is of a marked namespace and is gone.
  pub resume_deletes-Ends :
      (db : s.Db)
      → Ends
          (λ u db'.
            Cleared (is_marked (marks_at db)) (s.entries db) (s.entries db')
            × ((k : Bytes)
                → starts_with (name_key b'z' []) k ≡ true
                → lookup k (s.entries db') ≡ none))
          (λ db'. Touched (is_marked (marks_at db)) (s.entries db) (s.entries db'))
          (resume_deletes s db)
  unfolding resume_deletes
  resume_deletes-Ends db =
      let es = s.entries db in
      Ends-reads (s.scan_prefix db (name_key b'z' [])) db _
        (Touched-refl (is_marked (marks_at db)) es)
        λ rows listed. rw (s.scan_prefix_lem db (name_key b'z' []) listed) (
          Ends-mono (erase_marked-Ends (marks_at db) db)
            (λ u db' cleared.
              (cleared, λ k h. no_mark k es (s.entries db') (cleared k) (listed_mark k es h)))
            (λ db' part. part))
    where
      no_mark :
          (k : Bytes) (es fs : List Entry)
          → lookup k fs
            ≡ (if is_marked (with_prefix (name_key b'z' []) es) k then none else lookup k es)
          → (lookup k es ≡ none) ⊎ (is_marked (with_prefix (name_key b'z' []) es) k ≡ true)
          → lookup k fs ≡ none
      no_mark k es fs e (inl missing) = ground (arith, e)
      no_mark k es fs e (inr marked) = e ∙ rw marked refl
