-- ===== src/Search/Query/Checked.antt =====
-- What a search of src/engine.rs that returns has checked, and that it returns no more than asked for.
use gengis_mimi.Shared.{ℕ, ◌≡◌, ◌≤◌, Bool, true, false, not, ◌||◌, length, in_range, arith}
use gengis_mimi.Shared.Bytes.{Bytes}
use gengis_mimi.Error.{Error, ok}
use gengis_mimi.Error.Ensures.{
  Ensures, Ensures-bind_eq, Ensures-eq, Ensures-reject_if, Ensures-eq-ok,
}
use gengis_mimi.Model.{Namespace, validate_vector, filter_validate, max_top_k}
use gengis_mimi.Model.Query.{QueryRequest, QueryResult}
use gengis_mimi.Config.{IndexConfig}
use gengis_mimi.Config.Accepted.{Between, in_range-Between}
use gengis_mimi.Slate.{Slate}
use gengis_mimi.Engine.Serde.{Serde}
use gengis_mimi.Engine.Read.{check_ready, namespace_at}
use gengis_mimi.Index.Value.{json_of}
use gengis_mimi.Index.Build.{Tools}
use gengis_mimi.Search.Vector.{vector_query}
use gengis_mimi.Search.Vector.Answer.{vector_query-few}
use gengis_mimi.Search.Query.{query}

-- What a query that returns had been given, and how much it returns.
pub record IsAnswer (top_k : ℕ) (matches : ℕ) : Type 0 where
  pub asked : Between 1 max_top_k top_k
  pub few : matches ≤ top_k

module _ (s : Slate) {J : Type 0} (serde : Serde J) (tools : Tools J) (slot_free : Bool)
    (name : Bytes) (db : s.Db) where
  -- A free slot, a namespace that exists, a vector and a filter that fit it, and numbers in range.
  pub record IsQuery (config : IndexConfig) (request : QueryRequest J) (r : QueryResult J)
      : Type 0 where
    pub slot : slot_free ≡ true
    pub ready : check_ready s db ≡ ok tt
    pub namespace : Namespace
    pub namespace_eq : namespace_at s serde db name ≡ ok namespace
    pub vector : validate_vector namespace.config request.vector ≡ ok tt
    pub filter : filter_validate (json_of tools.json) request.filter ≡ ok tt
    pub probes : Between 1 1024 request.probes
    pub answer : IsAnswer request.top_k (length r.matches)
    pub answered : vector_query s serde tools namespace.config name request db config ≡ ok r

  taken : (b : Bool) → not b ≡ false → b ≡ true
  taken b h = ground arith

  bounds_of : (a b : Bool) → (not a || not b) ≡ false → (not a ≡ false) × (not b ≡ false)
  bounds_of a b h = (ground arith, ground arith)

  query-Ensures :
      (config : IndexConfig) (request : QueryRequest J)
      → Ensures (IsQuery config request) (query s serde tools slot_free name db config request)
  unfolding query
  query-Ensures config request = Ensures-reject_if (not slot_free) Error.busy λ free.
      Ensures-bind_eq (check_ready s db) λ _ ready.
        Ensures-bind_eq (namespace_at s serde db name) λ namespace at_key.
          Ensures-bind_eq (validate_vector namespace.config request.vector) λ _ vector.
            Ensures-bind_eq (filter_validate (json_of tools.json) request.filter) λ _ filter.
              Ensures-reject_if _ Error.invalid λ range.
                Ensures-eq (vector_query s serde tools namespace.config name request db config)
                  λ r e.
                    let (k, probes) =
                      bounds_of (in_range 1 max_top_k request.top_k)
                        (in_range 1 1024 request.probes) range in
                    record {
                      slot = taken slot_free free;
                      ready = ready;
                      namespace = namespace;
                      namespace_eq = at_key;
                      vector = vector;
                      filter = filter;
                      probes = in_range-Between 1 1024 request.probes probes;
                      answer = record {
                        asked = in_range-Between 1 max_top_k request.top_k k;
                        few =
                            vector_query-few s serde tools namespace.config name request db config
                              e;
                      };
                      answered = e;
                    }

  -- A query that returns had a free slot, an open database of this version, an existing namespace,
  -- a vector and a filter that pass the validation, `top_k` from 1 to 100 and `probes` from 1 to
  -- 1024, and it returns at most `top_k` hits, those of the vector query on the namespace's
  -- configuration.
  pub query-IsQuery :
      (config : IndexConfig) (request : QueryRequest J) {r : QueryResult J}
      → query s serde tools slot_free name db config request ≡ ok r
      → IsQuery config request r
  query-IsQuery config request e = Ensures-eq-ok (query-Ensures config request) e
