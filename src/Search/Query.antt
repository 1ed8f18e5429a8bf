-- ===== src/Search/Query.antt =====
-- `Engine::query` and `Engine::search_text` of src/engine.rs: the checks of a search before it runs.
-- Whether a query slot is free is an argument; the permit is returned when the query ends.
pub mod Checked
use gengis_mimi.Shared.{ℕ, Bool, not, ◌||◌, ◌*◌, List, length, ltb, in_range}
use gengis_mimi.Shared.Bytes.{Bytes}
use gengis_mimi.Error.{Error, Result, ok, err, ◌>>=◌, ◌>>◌, reject_if}
use gengis_mimi.Model.{
  NamespaceConfig, Namespace, validate_vector, filter_validate, contains, max_top_k,
}
use gengis_mimi.Model.Query.{QueryRequest, TextQuery, QueryResult}
use gengis_mimi.Config.{IndexConfig}
use gengis_mimi.Slate.{Slate}
use gengis_mimi.Engine.Serde.{Serde}
use gengis_mimi.Engine.Read.{check_ready, namespace_at}
use gengis_mimi.Index.Value.{json_of}
use gengis_mimi.Index.Build.{Tools}
use gengis_mimi.Search.Vector.{vector_query}
use gengis_mimi.Search.Text.{text_query}

module _ (s : Slate) {J : Type 0} (serde : Serde J) (tools : Tools J) (slot_free : Bool)
    (name : Bytes) (db : s.Db) where
  unfoldable pub query : IndexConfig → QueryRequest J → Result (QueryResult J)
  unfolding vector_query validate_vector filter_validate
  query config request = do
    reject_if (not slot_free) Error.busy
    check_ready s db
    namespace ← namespace_at s serde db name
    validate_vector namespace.config request.vector
    filter_validate (json_of tools.json) request.filter
    reject_if (not (in_range 1 max_top_k request.top_k) || not (in_range 1 1024 request.probes))
        Error.invalid
    vector_query s serde tools namespace.config name request db config

  unfoldable pub search_text : TextQuery J → Result (QueryResult J)
  unfolding text_query filter_validate contains
  search_text request = do
    reject_if (not slot_free) Error.busy
    check_ready s db
    namespace ← namespace_at s serde db name
    filter_validate (json_of tools.json) request.filter
    reject_if (not (contains request.field namespace.config.text_fields)) Error.invalid
    reject_if (not (in_range 1 max_top_k request.top_k) || ltb 4096 (length request.text))
        Error.invalid
    text_query s serde tools name request db
