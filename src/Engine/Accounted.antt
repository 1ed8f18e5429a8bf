-- ===== src/Engine/Accounted.antt =====
-- The accounting of a namespace in a database's content: the recorded statistics are the counts
-- and sizes of its entries.
use gengis_mimi.Shared.{ℕ, ◌≡◌, refl, false, List, arith, ◌==◌}
use gengis_mimi.Shared.Bytes.{Bytes, bytes_eq, bytes_eq_refl, starts_with}
use gengis_mimi.Error.{Result, ok, ◌>>=◌, ok-injective}
use gengis_mimi.Model.{NamespaceStats, default_stats}
use gengis_mimi.Slate.Entries.{Entry, lookup, insert, lookup-insert}
use gengis_mimi.Slate.Sorted.{IsSorted, insert-IsSorted}
use gengis_mimi.Slate.Total.{counted, sized, total-insert}
use gengis_mimi.Engine.Serde.{Serde}
use gengis_mimi.Engine.Keys.{item_key, item_prefix, stats_key}
use gengis_mimi.Engine.Sums.{count_in, size_in, held-counted, held-sized}
use gengis_mimi.Engine.Read.{read_as, unwrap_or}
use gengis_mimi.Engine.Draft.Accounts.{IsAccurate}

module _ {J : Type 0} (serde : Serde J) (name : Bytes) where
  -- The statistics that the content records: `stats_at` of it.
  abbrev pub recorded : List Entry → Result NamespaceStats
  recorded es = do
    stats ← read_as serde.stats_from_slice (lookup (stats_key name) es)
    ok (unwrap_or default_stats stats)

  pub record IsAccounted (es : List Entry) : Type 0 where
    pub sorted : IsSorted es
    pub accurate : (stats : NamespaceStats) → recorded es ≡ ok stats → IsAccurate stats name es

stats_key_apart :
    (l : ℕ) (name other : Bytes)
    → (l == b's') ≡ false
    → starts_with (item_prefix l name) (stats_key other) ≡ false
unfolding starts_with
stats_key_apart l name other apart = rw apart

-- Statistics do not count themselves.
module _ (name other value : Bytes) (es : List Entry) (sorted : IsSorted es) (l : ℕ)
    (apart : (l == b's') ≡ false) where
  count_in-insert_stats : count_in l name (insert (stats_key other) value es) ≡ count_in l name es
  unfolding count_in
  count_in-insert_stats =
      let range = item_prefix l name in
      omega (
        arith,
        rw
            (
              held-counted range (stats_key other) (lookup (stats_key other) es),
              stats_key_apart l name other apart,
            )
            at (total-insert (counted range) (stats_key other) value es sorted),
      )

  size_in-insert_stats : size_in l name (insert (stats_key other) value es) ≡ size_in l name es
  unfolding size_in
  size_in-insert_stats =
      let range = item_prefix l name in
      omega (
        arith,
        rw
            (
              held-sized range (stats_key other) (lookup (stats_key other) es),
              stats_key_apart l name other apart,
            )
            at (total-insert (sized range) (stats_key other) value es sorted),
      )

item_lookup-insert_stats :
    (l : ℕ) (name other id value : Bytes) (es : List Entry)
    → (b's' == l) ≡ false
    → lookup (item_key l name id) (insert (stats_key other) value es)
      ≡ lookup (item_key l name id) es
unfolding bytes_eq
item_lookup-insert_stats l name other id value es apart = rw (lookup-insert, apart)

-- Statistics may be recorded anywhere without harm to the accounts that they belong to.
pub insert_stats-IsAccurate :
    (stats : NamespaceStats) (name other value : Bytes) (es : List Entry)
    → IsSorted es
    → IsAccurate stats name es
    → IsAccurate stats name (insert (stats_key other) value es)
insert_stats-IsAccurate stats name other value es sorted h = record {
  documents = rw (count_in-insert_stats name other value es sorted b'd' refl) h.documents;
  bytes =
      rw
        (
          size_in-insert_stats name other value es sorted b'd' refl,
          size_in-insert_stats name other value es sorted b'v' refl,
        )
        h.bytes;
  pending = rw (count_in-insert_stats name other value es sorted b'c' refl) h.pending;
  no_orphans = λ id.
      rw
        (
          item_lookup-insert_stats b'd' name other id value es refl,
          item_lookup-insert_stats b'v' name other id value es refl,
        )
        (h.no_orphans id);
}

module _ {J : Type 0} (serde : Serde J) where
  -- Recording the statistics of a content settles a namespace's accounts.
  pub insert_stats-IsAccounted :
      (stats : NamespaceStats) (name : Bytes) (es : List Entry)
      → IsSorted es
      → IsAccurate stats name es
      → IsAccounted serde name (insert (stats_key name) (serde.stats_to_vec stats) es)
  insert_stats-IsAccounted stats name es sorted h =
      let value = serde.stats_to_vec stats in
      record {
        sorted = insert-IsSorted (stats_key name) value es sorted;
        accurate = λ found e.
            rw
              (← ok-injective (
                rw
                  (
                    lookup-insert (stats_key name) (stats_key name) value es,
                    bytes_eq_refl (stats_key name),
                    serde.stats_round stats,
                  )
                  at e))
              (insert_stats-IsAccurate stats name name value es sorted h);
      }
