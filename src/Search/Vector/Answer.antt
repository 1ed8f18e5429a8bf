-- ===== src/Search/Vector/Answer.antt =====
-- Whatever plan a query of src/search.rs takes, it answers with at most `top_k` hits.
use gengis_mimi.Shared.{
  ℕ, zero, suc, ◌≡◌, ◌≤◌, refl, ap, ◌∙◌, ◌⊎◌, inl, inr, Option, List, [], ◌∷◌, length, take, arith,
  Bool-cases, Option-cases,
}
use gengis_mimi.Shared.Bytes.{Bytes}
use gengis_mimi.Error.{Error, Result, ok, err}
use gengis_mimi.Model.{NamespaceConfig}
use gengis_mimi.Model.Query.{QueryRequest, QueryResult, SearchHit}
use gengis_mimi.Config.{IndexConfig}
use gengis_mimi.Slate.{Slate}
use gengis_mimi.Engine.Serde.{Serde}
use gengis_mimi.Engine.Read.{stats_at}
use gengis_mimi.Index.{IndexStatus}
use gengis_mimi.Index.Build.{Tools}
use gengis_mimi.Search.Hits.{Hit}
use gengis_mimi.Search.Top.{IsTop}
use gengis_mimi.Search.Pending.{index_at}
use gengis_mimi.Search.Vector.{is_exact, vector_query}
use gengis_mimi.Search.Vector.Exact.{ranking}
use gengis_mimi.Search.Vector.Best.{vector_query-IsExact}
use gengis_mimi.Search.Vector.Overlay.{vector_query-IsIndexed}

length-ranking : {J : Type 0} (hits : List (SearchHit J)) → length (ranking hits) ≡ length hits
length-ranking [] = refl
length-ranking (hit ∷ hits) = ap suc (length-ranking hits)

length-take_le : (k : ℕ) (xs : List Hit) → length (take k xs) ≤ k
length-take_le zero xs = omega arith
length-take_le (suc k) [] = omega arith
length-take_le (suc k) (x ∷ xs) = omega (arith, length-take_le k xs)

pub IsTop-few :
    {J : Type 0} (k : ℕ) (hits : List Hit) (matches : List (SearchHit J))
    → IsTop k hits (ranking matches)
    → length matches ≤ k
IsTop-few k hits matches h = omega (
  arith,
  length-ranking matches,
  ap (λ (l : List Hit). length l) h.first,
  length-take_le k h.all_hits,
)

Result-cases : {A : Type 0} (r : Result A) → ((a : A) × (r ≡ ok a)) ⊎ ((e : Error) × (r ≡ err e))
Result-cases (ok a) = inl (a, refl)
Result-cases (err e) = inr (e, refl)

module _ (s : Slate) {J : Type 0} (serde : Serde J) (tools : Tools J) (schema : NamespaceConfig)
    (name : Bytes) (query : QueryRequest J) (db : s.Db) (config : IndexConfig) where
  index_read :
      {r : QueryResult J}
      → vector_query s serde tools schema name query db config ≡ ok r
      → (index : Option IndexStatus) × (index_at s tools.serde db name ≡ ok index)
  unfolding vector_query
  index_read {r} e = elim (Result-cases (stats_at s serde db name)) [
    | inr (x, failed) ↦ never (rw failed at e)
    | inl (stats, read) ↦ elim (Result-cases (index_at s tools.serde db name)) [
      | inl found ↦ found
      | inr (x, failed) ↦ never (rw (read, failed) at e)
    ]
  ]
    where
      never : {X : Type 0} {A : Type 0} {x : Error} {a : A} → err x ≡ ok a → X
      never h = cc

  pub vector_query-few :
      {r : QueryResult J}
      → vector_query s serde tools schema name query db config ≡ ok r
      → length r.matches ≤ query.top_k
  vector_query-few {r} e =
      let (index, at_key) = index_read e in
      elim (Option-cases index) [
        | inl absent ↦
            let none_there = at_key ∙ ap ok absent in
            let h =
              vector_query-IsExact s serde tools schema name query db config (inl none_there) e in
            IsTop-few query.top_k _ r.matches h.top
        | inr (found, there) ↦ elim (Bool-cases (is_exact query.mode)) [
          | inl exact ↦
              let h =
                vector_query-IsExact s serde tools schema name query db config (inr exact) e in
              IsTop-few query.top_k _ r.matches h.top
          | inr other ↦
              let present = at_key ∙ ap ok there in
              let h =
                vector_query-IsIndexed s serde tools schema name query db config present other e in
              IsTop-few query.top_k _ r.matches h.top
        ]
      ]
