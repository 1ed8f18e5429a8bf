-- ===== src/Search/Hits.antt =====
-- `Ranked`, `retain` over the rows of a query, and `hydrate` of src/search.rs.
use gengis_mimi.Shared.{ℕ, ◌≡◌, Bool, true, false, ◌&&◌, ◌||◌, List, [], ◌∷◌, ltb, ◌==◌, arith, map}
use gengis_mimi.Shared.Bytes.{Bytes, bytes_lt, bytes_lt_irrefl, bytes_lt_trans, bytes_lt_negative}
use gengis_mimi.Error.{Error, Result, ok, ◌>>=◌, ok_or}
use gengis_mimi.Model.{Metric}
use gengis_mimi.Model.Query.{SearchHit}
use gengis_mimi.Model.Float.{Arithmetic, total_key}
use gengis_mimi.Slate.{Slate}
use gengis_mimi.Engine.Serde.{Serde}
use gengis_mimi.Engine.Read.{attributes_at}
use gengis_mimi.Search.Heap.{Order, retain}
use gengis_mimi.Search.Score.{distance_score}

-- A hit without its attributes: an ID and a score.
abbrev pub Hit : Type 0
Hit = Bytes × ℕ

-- `Ranked` orders by falling score, `total_cmp`, and then by rising ID.
unfoldable pub ranked_lt : Hit → Hit → Bool
ranked_lt a b =
    ltb (total_key b.1) (total_key a.1) || (total_key a.1 == total_key b.1) && bytes_lt a.0 b.0

pub ranked_lt_irrefl : (a : Hit) → ranked_lt a a ≡ false
unfolding ranked_lt
ranked_lt_irrefl a = ground (arith, bytes_lt_irrefl a.0)

pub ranked_lt_trans :
    (a b c : Hit) → ranked_lt a b ≡ true → ranked_lt b c ≡ true → ranked_lt a c ≡ true
unfolding ranked_lt
ranked_lt_trans a b c h k = ground (arith, bytes_lt_trans a.0 b.0 c.0)

pub ranked_lt_negative :
    (a b c : Hit) → ranked_lt a b ≡ true → ranked_lt c b ≡ false → ranked_lt a c ≡ true
unfolding ranked_lt
ranked_lt_negative a b c h k = ground (arith, bytes_lt_negative a.0 b.0 c.0)

abbrev pub ranked : Order Hit
ranked = record {
  lt = ranked_lt;
  lt_irrefl = ranked_lt_irrefl;
  lt_trans = ranked_lt_trans;
  lt_negative = ranked_lt_negative;
}

-- Every hit in turn.
unfoldable pub retain_all : ℕ → List Hit → List Hit → List Hit
retain_all k [] best = best
retain_all k (hit ∷ hits) best = retain_all k hits (retain ranked k hit best)

module _ (arithmetic : Arithmetic) where
  abbrev pub score_of : List ℕ → Metric → Bytes × List ℕ → Hit
  score_of query metric (id, vector) = (id, distance_score arithmetic query vector metric)

  unfoldable pub score_rows : List ℕ → Metric → ℕ → List (Bytes × List ℕ) → List Hit → List Hit
  unfolding retain_all
  score_rows query metric k rows best = retain_all k (map (score_of query metric) rows) best

module _ (s : Slate) {J : Type 0} (serde : Serde J) where
  unfoldable pub hydrate : s.Db → Bytes → List Hit → Result (List (SearchHit J))
  hydrate db name [] = ok []
  hydrate db name ((id, score) ∷ hits) = do
    found ← attributes_at s serde db name id
    document ← ok_or found Error.corrupt
    rest ← hydrate db name hits
    ok (record { id = id; score = score; attributes = document.attributes } ∷ rest)
