-- ===== src/Engine/Build/Install.antt =====
-- `build_index_inner` of src/engine.rs: how an index job ends, wherever it fails.
use gengis_mimi.Shared.{◌≡◌, ◌⊎◌, refl, ap, ◌∙◌, inl, inr, none, List, [], ◌∷◌, arith}
use gengis_mimi.Shared.Bytes.{Bytes, bytes_eq, bytes_eq_refl}
use gengis_mimi.Error.{ok}
use gengis_mimi.Error.Ensures.{Ensures, Ensures-bind_eq, Ensures-eq-ok}
use gengis_mimi.Config.{IndexConfig}
use gengis_mimi.Slate.{Slate}
use gengis_mimi.Slate.Action.{Ends, returned, Ends-continue, Ends-reads, Ends-mono, Ends-weaken}
use gengis_mimi.Slate.Entries.{Entry, put, delete, lookup, apply_op, apply_batch, lookup-remove}
use gengis_mimi.Slate.Writes.{Ends-write}
use gengis_mimi.Engine.Serde.{Serde}
use gengis_mimi.Engine.Keys.{name_key, document_prefix}
use gengis_mimi.Index.{IndexStatus}
use gengis_mimi.Index.Build.{Tools}
use gengis_mimi.Index.Build.Under.{OfGeneration, build-OfGeneration}
use gengis_mimi.Engine.Read.{check_ready, namespace_at, stats_at}
use gengis_mimi.Engine.Build.{install, build_index_inner, cleanup, cleanup_inner}
use gengis_mimi.Engine.Build.Input.{build_input, load_documents}
use gengis_mimi.Engine.Build.Frame.{Frame, Frame-batch, Frame-write}
use gengis_mimi.Engine.Build.Cleanup.{is_retired, cleanup_inner-Untouched}
use gengis_mimi.Engine.Build.Published.{
  is_mark, blocks_kept, pointer_kept, mark_apart, Published, Unpublished, Ready, Published-Frame,
  store-Ends, publish,
}

module _ (s : Slate) {J : Type 0} (serde : Serde J) (tools : Tools J) (config : IndexConfig)
    (name generation : Bytes) where
  build_input-OfGeneration :
      (db : s.Db)
      → Ensures
          (OfGeneration tools generation name)
          (build_input s serde tools config name generation db)
  unfolding build_input
  build_input-OfGeneration db = Ensures-bind_eq (check_ready s db) λ u e.
      Ensures-bind_eq (namespace_at s serde db name) λ namespace e'.
        Ensures-bind_eq (stats_at s serde db name) λ stats e''.
          Ensures-bind_eq (s.scan_prefix db (document_prefix name)) λ rows e'''.
            Ensures-bind_eq (load_documents s serde tools.crc32 config db name rows 0 [])
              λ documents e''''.
                build-OfGeneration tools generation name namespace.config stats.revision documents
                  config

  module _ (status : IndexStatus) (entries before : List Entry) where
    abbrev pub Is : s.Db → Type 0
    Is db = Published s serde tools config name generation status entries before (s.entries db)

    abbrev pub Outcome : s.Db → Type 0
    Outcome db = Unpublished s serde tools config name generation before (s.entries db) ⊎ Is db

    abbrev pub Done : s.Db → Type 0
    Done db = Is db × (lookup (name_key b'j' name) (s.entries db) ≡ none)

    -- Published, and then only the mark changed.
    Is-marked :
        (es : List Entry) (db : s.Db)
        → Published s serde tools config name generation status entries before es
        → Frame (is_mark s serde tools config name generation) es (s.entries db)
        → Is db
    unfolding bytes_eq
    Is-marked es db h f =
        Published-Frame s serde tools config name generation
          (is_mark s serde tools config name generation) status entries before es (s.entries db)
          refl (mark_apart name generation) (λ k e. ground arith) f h

    -- The last step takes the mark away.
    unmark-Ends :
        (db : s.Db)
        → Is db
        → Ends (λ n db'. Done db') Is (s.write db (delete (name_key b'j' name) ∷ []))
    unfolding apply_batch apply_op
    unmark-Ends db h =
        let mark = delete (name_key b'j' name) ∷ [] in
        let framed =
          Frame-batch (is_mark s serde tools config name generation) (s.entries db) (s.entries db)
            mark (bytes_eq_refl (name_key b'j' name), tt) (λ k e. refl) in
        Ends-write s db mark
          (λ n db' e. (
            Is-marked (s.entries db) db' h (rw e framed),
            ap (lookup (name_key b'j' name)) e
                ∙ lookup-remove (name_key b'j' name) (name_key b'j' name) (s.entries db)
                ∙ rw (bytes_eq_refl (name_key b'j' name)),
          ))
          (λ db' e. elim e [
            | inl same ↦ rw same h
            | inr gone ↦ Is-marked (s.entries db) db' h (rw gone framed)
          ])

    cleanup-Ends :
        (db : s.Db)
        → status.generation ≡ generation
        → Is db
        → Ends (λ u db'. Is db') Is (cleanup_inner s serde name status db)
    cleanup-Ends db own h =
        let still : (db' : s.Db)
            → Frame (is_retired name generation) (s.entries db) (s.entries db')
            → Is db' =
          λ db' f.
            Published-Frame s serde tools config name generation (is_retired name generation) status
              entries before (s.entries db) (s.entries db') (pointer_kept name generation)
              (blocks_kept name generation) (λ k e. ground arith) f h in
        Ends-mono
          (cleanup_inner-Untouched s serde name generation (s.entries db) status db own
            (λ k e. refl))
          (λ u db' f. still db' f) (λ db' f. still db' f)

    publish-Ends :
        (db : s.Db)
        → Ready s serde tools config name generation entries before (s.entries db)
        → Ends
            (λ n db'. Is db')
            Outcome
            (s.write db (put (name_key b'i' name) (tools.serde.status_to_vec status) ∷ []))
    publish-Ends db h =
        let new =
          publish s serde tools config name generation status entries before (s.entries db) h in
        Ends-write s db (put (name_key b'i' name) (tools.serde.status_to_vec status) ∷ [])
          (λ n db' e. rw e new)
          (λ db' e. elim e [
            | inl same ↦ inl (rw same h.nothing_else)
            | inr done ↦ inr (rw done new)
          ])

    install-Ends :
        (db : s.Db)
        → before ≡ s.entries db
        → OfGeneration tools generation name (status, entries)
        → Ends
            (λ done db'. (done ≡ status) × Done db')
            Outcome
            (install s serde tools config name (status, entries) db)
    unfolding install
    install-Ends db same (own, under) =
        let mark = put (name_key b'j' name) cleanup ∷ [] in
        Ends-continue
          (Ends-mono
            (Frame-write s (is_mark s serde tools config name generation) before db mark
              (bytes_eq_refl (name_key b'j' name), tt) (rw same (λ k e. refl)))
            (λ n db' f. f) (λ db' f. inl (marked db' f)))
          λ n db1 f.
            Ends-continue
              (Ends-weaken
                (store-Ends s serde tools config name generation entries before db1 under
                  (marked db1 f) f)
                (λ db' g. inl g))
              λ u db2 ready. Ends-continue (publish-Ends db2 ready) λ n' db3 is.
                Ends-continue (Ends-weaken (cleanup-Ends db3 own is) (λ db' g. inr g)) λ u' db4 is'.
                  Ends-continue (Ends-weaken (unmark-Ends db4 is') (λ db' g. inr g))
                    λ n'' db5 done. returned (refl, done)
      where
        marked :
            (db' : s.Db)
            → Frame (is_mark s serde tools config name generation) before (s.entries db')
            → Unpublished s serde tools config name generation before (s.entries db')
        marked db' f k e = f k (ground arith)

  -- A build of the database's own input.
  abbrev pub Built : (IndexStatus → List Entry → Type 0) → s.Db → Type 0
  Built P db =
      (status : IndexStatus) × (entries : List Entry) × (build_input s serde tools config name
          generation db
        ≡ ok (status, entries))
      × P status entries

  -- An index job under its lock, with no other write between, ends in one of two ways. It returns
  -- the status of the index that it built of the database, the pointer holds that status, every
  -- key of the new generation holds what storing all the built entries gives it, no other key has
  -- changed but the namespace's old blocks, changes, statistics and cleanup mark, and the mark is
  -- gone. Or it fails, and nothing has changed but keys of the new generation and the mark, or the
  -- pointer is the new one and all of its generation is there.
  pub build_index_inner-Ends :
      (db : s.Db)
      → Ends
          (λ done db'.
            Built (λ status entries. (done ≡ status) × Done status entries (s.entries db) db') db)
          (λ db'.
            Unpublished s serde tools config name generation (s.entries db) (s.entries db')
            ⊎ Built (λ status entries. Is status entries (s.entries db) db') db)
          (build_index_inner s serde tools config name generation db)
  unfolding build_index_inner
  build_index_inner-Ends db =
      Ends-reads (build_input s serde tools config name generation db) db _ (inl (λ k e. refl))
        λ (status, entries) e.
          Ends-mono
            (install-Ends status entries (s.entries db) db refl
              (Ensures-eq-ok (build_input-OfGeneration db) e))
            (λ done db' h. (status, entries, e, h))
            (λ db' o. elim o [
              | inl none_yet ↦ inl none_yet
              | inr is ↦ inr (status, entries, e, is)
            ])
