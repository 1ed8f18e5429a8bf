-- ===== src/Examples/Namespaces.antt =====
-- The theorems on namespaces at concrete inputs.
use gengis_mimi.Slate.Action.{Ends}
use gengis_mimi.Engine.Namespaces.{create_namespace}
use gengis_mimi.Engine.Namespaces.Create.{IsCreated, UnchangedOrCreated, create_namespace-Ends}
use gengis_mimi.Examples.{memory, serde_example}
use gengis_mimi.Examples.Runs.{books, books_config, start_entries}

create_namespace-Ends_example :
    Ends
      (IsCreated memory serde_example books books_config start_entries)
      (UnchangedOrCreated memory serde_example books books_config start_entries)
      (create_namespace memory serde_example books books_config start_entries)
create_namespace-Ends_example =
    create_namespace-Ends memory serde_example books books_config start_entries
