-- ===== src/Search/Vector/Scans.antt =====
-- The loops of `vector_query` of src/search.rs: which rows each has shown the heap.
use gengis_mimi.Shared.{
  ℕ, ◌+◌, ◌≡◌, refl, sym, ap, Bool, true, false, not, ◌&&◌, inl, inr, Option, none, some, List, [],
  ◌∷◌, ◌++◌, map, append-nil, append_assoc, length, arith, All, ◌==◌, Bool-cases, &&-eq-true,
}
use gengis_mimi.Shared.Bytes.{Bytes}
use gengis_mimi.Shared.Maps.{set_contains, keep}
use gengis_mimi.Model.{NamespaceConfig}
use gengis_mimi.Model.Query.{QueryRequest}
use gengis_mimi.Slate.{Slate}
use gengis_mimi.Engine.Serde.{Serde}
use gengis_mimi.Index.Build.{Tools}
use gengis_mimi.Index.Clusters.{Row}
use gengis_mimi.Search.Hits.{Hit, score_of, score_rows}
use gengis_mimi.Search.Top.{IsTop, retain_all-IsTop}
use gengis_mimi.Search.Vector.{Scan, add_found, flush, scored, allows, usable}

-- The row of an ID whose vector was found.
abbrev pub found_row : Bytes → Option (List ℕ) → List Row
found_row id none = []
found_row id (some vector) = (id, vector) ∷ []

add_found_lem :
    (id : Bytes) (found : Option (List ℕ)) (rows : List Row)
    → add_found id found rows ≡ rows ++ found_row id found
add_found_lem id none rows = sym (append-nil rows)
add_found_lem id (some vector) rows = refl

map-append : (f : Row → Hit) (a b : List Row) → map f (a ++ b) ≡ map f a ++ map f b
map-append f [] b = refl
map-append f (x ∷ a) b = ap (λ l. f x ∷ l) (map-append f a b)

-- A row of a document that has not changed, and that the filter selects.
abbrev pub IsClean : List Bytes → Option (List Bytes) → Bytes → Type 0
IsClean dirty selected id = (set_contains dirty id ≡ false) × (allows selected id ≡ true)

not-true : (b : Bool) → not b ≡ true → b ≡ false
not-true b h = ground arith

pub usable-All :
    (dirty : List Bytes) (selected : Option (List Bytes)) (rows : List Row)
    → All (λ (row : Row). IsClean dirty selected row.0) (usable dirty selected rows)
unfolding keep
usable-All dirty selected [] = tt
usable-All dirty selected (row ∷ rows) =
    elim (Bool-cases (not (set_contains dirty row.0) && allows selected row.0)) [
      | inl used ↦
          let (clean, chosen) =
            &&-eq-true (not (set_contains dirty row.0)) (allows selected row.0) used in
          rw used
            ((not-true (set_contains dirty row.0) clean, chosen), usable-All dirty selected rows)
      | inr other ↦ rw other (usable-All dirty selected rows)
    ]

module _ (s : Slate) {J : Type 0} (serde : Serde J) (tools : Tools J) (schema : NamespaceConfig)
    (name : Bytes) (query : QueryRequest J) (db : s.Db) where
  abbrev pub hits_of : List Row → List Hit
  hits_of = map (score_of tools.arithmetic query.vector schema.metric)

  -- The rows that were shown so far: those scored, whose best the heap holds, and those that wait.
  pub record Covers (candidates : List Row) (scan : Scan) : Type 0 where
    pub done : List Row
    pub split : candidates ≡ done ++ scan.rows
    pub top : IsTop query.top_k (hits_of done) scan.best

  scored-IsTop :
      (rows seen : List Row) (best : List Hit)
      → IsTop query.top_k (hits_of seen) best
      → IsTop query.top_k
          (hits_of (seen ++ rows))
          (scored s serde tools schema name query db rows best)
  unfolding score_rows
  scored-IsTop rows seen best h =
      rw (map-append (score_of tools.arithmetic query.vector schema.metric) seen rows)
        (retain_all-IsTop query.top_k (hits_of rows) (hits_of seen) best h)

  pub Covers-IsTop :
      (candidates : List Row) (scan : Scan)
      → Covers candidates scan
      → IsTop query.top_k
          (hits_of candidates)
          (scored s serde tools schema name query db scan.rows scan.best)
  Covers-IsTop candidates scan h = rw h.split (scored-IsTop scan.rows h.done scan.best h.top)

  Covers-flush :
      (candidates : List Row) (scan : Scan)
      → Covers candidates scan
      → Covers candidates (flush s serde tools schema name query db scan)
  unfolding score_rows
  Covers-flush candidates scan h = elim (Bool-cases (length scan.rows == 128)) [
    | inl full ↦ rw full (record {
      done = candidates;
      split = sym (append-nil candidates);
      top = Covers-IsTop candidates scan h;
    })
    | inr room ↦ rw room h
  ]

  Covers-more :
      (candidates rows : List Row) (scan : Scan) (n : ℕ)
      → Covers candidates scan
      → Covers (candidates ++ rows) (record scan { scanned = n; rows = scan.rows ++ rows })
  Covers-more candidates rows scan n h = record {
    done = h.done;
    split = rw h.split (append_assoc h.done scan.rows rows);
    top = h.top;
  }

  -- A round of the loops that may find a vector.
  pub Covers-round :
      (candidates : List Row) (scan : Scan) (id : Bytes) (found : Option (List ℕ))
      → Covers candidates scan
      → Covers (candidates ++ found_row id found) (
          flush s serde tools schema name query db
            (record scan { scanned = scan.scanned + 1; rows = add_found id found scan.rows }))
  Covers-round candidates scan id found h = Covers-flush (candidates ++ found_row id found) _ (
      rw (add_found_lem id found scan.rows)
        (Covers-more candidates (found_row id found) scan (scan.scanned + 1) h))

  -- The rows of a block: the usable ones are scored at once.
  pub Covers-block :
      (candidates rows : List Row) (scan : Scan) (n : ℕ)
      → Covers candidates scan
      → Covers (candidates ++ rows) (record {
        rows = [];
        best = scored s serde tools schema name query db (scan.rows ++ rows) scan.best;
        scanned = n;
      })
  Covers-block candidates rows scan n h = record {
    done = candidates ++ rows;
    split = sym (append-nil (candidates ++ rows));
    top = Covers-IsTop (candidates ++ rows) _ (Covers-more candidates rows scan n h);
  }
