-- ===== src/Cluster.antt =====
-- src/cluster.rs: the choice of a namespace's shard.
pub mod Stable
pub mod Lease
use gengis_mimi.Shared.{ℕ, Option, none, some, List, [], ◌∷◌, ◌++◌, if◌then◌else◌}
use gengis_mimi.Shared.Bytes.{Bytes, bytes_lt}
use gengis_mimi.Config.{ShardConfig}
use gengis_mimi.Engine.Keys.{slash}
use gengis_mimi.Index.Keys.{digest}

module _ (sha256 : Bytes → Bytes) (namespace : Bytes) where
  -- format!("{namespace}/{}", shard.id), digested.
  unfoldable pub shard_key : ShardConfig → Bytes
  unfolding digest
  shard_key shard = digest sha256 (namespace ++ slash ∷ shard.id)

  -- `max_by_key`, which takes the last of equal ones.
  unfoldable pub max_from : ShardConfig → List ShardConfig → ShardConfig
  unfolding shard_key
  max_from best [] = best
  max_from best (shard ∷ shards) =
      max_from (if bytes_lt (shard_key shard) (shard_key best) then best else shard) shards

  unfoldable pub shard_for : List ShardConfig → Option ShardConfig
  unfolding max_from
  shard_for [] = none
  shard_for (shard ∷ shards) = some (max_from shard shards)
