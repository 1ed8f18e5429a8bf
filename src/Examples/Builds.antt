-- ===== src/Examples/Builds.antt =====
-- The theorems on the index job at a concrete database.
use gengis_mimi.Shared.{◌≡◌, ◌⊎◌, refl, List, [], ◌∷◌}
use gengis_mimi.Shared.Bytes.{Bytes}
use gengis_mimi.Config.{default_index}
use gengis_mimi.Slate.Action.{Ends}
use gengis_mimi.Slate.Entries.{Entry}
use gengis_mimi.Engine.Build.{build_index_inner, retire_chunk}
use gengis_mimi.Engine.Build.Accounts.{retire_chunk-IsAccounted}
use gengis_mimi.Engine.Accounted.{IsAccounted}
use gengis_mimi.Engine.Keys.{change_key}
use gengis_mimi.Engine.Write.{write}
use gengis_mimi.Engine.Write.Accounting.{write-IsAccounted}
use gengis_mimi.Examples.Deletions.{books_valid}
use gengis_mimi.Engine.Build.Published.{Unpublished}
use gengis_mimi.Engine.Build.Install.{Built, Is, Done, build_index_inner-Ends}
use gengis_mimi.Examples.{memory, serde_example, checksum}
use gengis_mimi.Examples.Runs.{
  books, dune, limits_example, request_example, start_entries, start-IsAccounted,
}
use gengis_mimi.Examples.Searches.{tools_example}

abbrev new_generation : Bytes
new_generation = b'x' ∷ []

build_index_inner-Ends_example :
    Ends
      (λ done db'.
        Built memory serde_example tools_example default_index books new_generation
          (λ status entries.
            (done ≡ status)
            × Done memory serde_example tools_example default_index books new_generation status
                entries start_entries db')
          start_entries)
      (λ db'.
        Unpublished memory serde_example tools_example default_index books new_generation
          start_entries db'
        ⊎ Built memory serde_example tools_example default_index books new_generation
            (λ status entries.
              Is memory serde_example tools_example default_index books new_generation status
                entries start_entries db')
            start_entries)
      (build_index_inner memory serde_example tools_example default_index books new_generation
        start_entries)
build_index_inner-Ends_example =
    build_index_inner-Ends memory serde_example tools_example default_index books new_generation
      start_entries

-- The database behind a write, with one change.
abbrev written : List Entry
written = (write memory serde_example checksum limits_example books request_example start_entries).1

abbrev one_change : List Bytes
one_change = change_key books dune ∷ []

written-IsAccounted : IsAccounted serde_example books written
written-IsAccounted =
    write-IsAccounted memory serde_example checksum limits_example books request_example
      start_entries books books_valid (start-IsAccounted books) (start-IsAccounted books)

retire_chunk-IsAccounted_example :
    Ends
      (λ u db'. IsAccounted serde_example books db')
      (λ db'. IsAccounted serde_example books db')
      (retire_chunk memory serde_example books 1 one_change written)
retire_chunk-IsAccounted_example =
    retire_chunk-IsAccounted memory serde_example books 1 one_change written books_valid
      ((dune, refl), tt) (tt, tt) written-IsAccounted
