-- ===== src/Examples/Deletions.antt =====
-- The theorems on deletions at a concrete database.
use gengis_mimi.Shared.{◌≡◌, ◌⊎◌, refl, true, none, List, [], ◌∷◌, length}
use gengis_mimi.Error.{ok}
use gengis_mimi.Model.{validate_id, is_id_byte}
use gengis_mimi.Slate.{IsHealthy}
use gengis_mimi.Engine.Read.{check_ready}
use gengis_mimi.Engine.Erase.Returns.{delete_namespace_returns}
use gengis_mimi.Shared.Bytes.{bytes_eq}
use gengis_mimi.Shared.Bytes.{Bytes, starts_with}
use gengis_mimi.Slate.Action.{Ends}
use gengis_mimi.Slate.Entries.{Entry, lookup}
use gengis_mimi.Slate.Deletes.{Cleared, Touched}
use gengis_mimi.Engine.Keys.{name_key}
use gengis_mimi.Engine.Erase.{delete_namespace, resume_deletes, deletion}
use gengis_mimi.Engine.Erase.Delete.{is_gone, Deleting, delete_namespace-Ends}
use gengis_mimi.Engine.Erase.Resume.{is_marked, marks_at, resume_deletes-Ends}
use gengis_mimi.Examples.{memory}
use gengis_mimi.Examples.Runs.{books, start_entries}

delete_namespace-Ends_example :
    Ends
      (λ u db'. Cleared (is_gone books) start_entries db')
      (λ db'. (db' ≡ start_entries) ⊎ Deleting books start_entries db')
      (delete_namespace memory books start_entries)
delete_namespace-Ends_example = delete_namespace-Ends memory books start_entries

-- A deletion that was broken off.
abbrev marked : List Entry
marked = (name_key b'z' books, deletion) ∷ []

resume_deletes-Ends_example :
    Ends
      (λ u db'.
        Cleared (is_marked (marks_at memory marked)) marked db'
        × ((k : Bytes) → starts_with (name_key b'z' []) k ≡ true → lookup k db' ≡ none))
      (λ db'. Touched (is_marked (marks_at memory marked)) marked db')
      (resume_deletes memory marked)
resume_deletes-Ends_example = resume_deletes-Ends memory marked

pub memory-IsHealthy : IsHealthy memory
memory-IsHealthy = record {
  get_ok = λ es k. refl;
  scan_ok = λ es. refl;
  scan_prefix_ok = λ es p. refl;
  scan_range_ok = λ es p low high. refl;
  scan_after_ok = λ es p after. refl;
  write_ok = λ es b. (length b, refl);
}

start_ready : check_ready memory start_entries ≡ ok tt
unfolding check_ready lookup bytes_eq
start_ready = refl

pub books_valid : validate_id books ≡ ok tt
unfolding validate_id is_id_byte
books_valid = refl

delete_namespace_returns_example :
    ((delete_namespace memory books start_entries).0 ≡ ok tt)
    × Cleared (is_gone books) start_entries (delete_namespace memory books start_entries).1
delete_namespace_returns_example =
    delete_namespace_returns memory memory-IsHealthy books start_entries books_valid start_ready
