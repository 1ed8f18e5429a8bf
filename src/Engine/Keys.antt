-- ===== src/Engine/Keys.antt =====
-- The keys of src/engine.rs. A keyspace is one letter: n namespaces, d documents, v vectors,
-- c changes, s statistics, i index pointers, j cleanup marks, z deletion marks, g index blocks.
pub mod Separate
use gengis_mimi.Shared.{ℕ, [], ◌∷◌, ◌++◌}
use gengis_mimi.Shared.Bytes.{Bytes}

abbrev pub slash : ℕ
slash = b'/'

-- format!("{letter}/{name}"), format!("{letter}/{name}/") and format!("{letter}/{name}/{id}")
abbrev pub name_key : ℕ → Bytes → Bytes
name_key letter name = letter ∷ slash ∷ name

abbrev pub item_prefix : ℕ → Bytes → Bytes
item_prefix letter name = letter ∷ slash ∷ (name ++ slash ∷ [])

abbrev pub item_key : ℕ → Bytes → Bytes → Bytes
item_key letter name id = letter ∷ slash ∷ (name ++ slash ∷ id)

abbrev pub namespace_key : Bytes → Bytes
namespace_key = name_key b'n'

abbrev pub document_prefix : Bytes → Bytes
document_prefix = item_prefix b'd'

abbrev pub document_key : Bytes → Bytes → Bytes
document_key = item_key b'd'

abbrev pub vector_key : Bytes → Bytes → Bytes
vector_key = item_key b'v'

abbrev pub change_key : Bytes → Bytes → Bytes
change_key = item_key b'c'

abbrev pub stats_key : Bytes → Bytes
stats_key = name_key b's'

-- "meta/format" and b"gengis-mimi:2"
abbrev pub format_key : Bytes
format_key = b'm' ∷ b'e' ∷ b't' ∷ b'a' ∷ slash ∷ b'f' ∷ b'o' ∷ b'r' ∷ b'm' ∷ b'a' ∷ b't' ∷ []

abbrev pub program : Bytes
program = b'g' ∷ b'e' ∷ b'n' ∷ b'g' ∷ b'i' ∷ b's' ∷ b'-' ∷ b'm' ∷ b'i' ∷ b'm' ∷ b'i' ∷ b':' ∷ []

abbrev pub format : Bytes
format = program ++ b'2' ∷ []
