-- ===== src/Examples/Configs.antt =====
-- The theorems on the configuration at a concrete one: a gateway to one shard of one worker.
use gengis_mimi.Shared.{◌≡◌, ◌↔◌, refl, false, true, Option, none, some, [], ◌∷◌}
use gengis_mimi.Shared.Bytes.{Bytes, bytes_eq, bytes_lt, starts_with}
use gengis_mimi.Error.{ok}
use gengis_mimi.Model.{validate_id, is_id_byte, contains}
use gengis_mimi.Config.{
  Config, StorageConfig, ClusterConfig, ShardConfig, default_server, default_database,
  default_index, default_limits, default_config,
}
use gengis_mimi.Config.Validate.{
  Url, http, slash, bad_url, bad_endpoint, split, validate_grants, validate_storage,
  validate_workers, validate_shards, validate_cluster, validate, read_config, load,
}
use gengis_mimi.Config.Accepted.{IsAccepted}
use gengis_mimi.Index.Keys.{digest, hex_bytes, to_hex}
use gengis_mimi.Cluster.{shard_key, max_from, shard_for}
use gengis_mimi.Cluster.Stable.{shard_for_stable}
use gengis_mimi.Config.Loading.{validate_iff}

abbrev parse_example : Bytes → Option Url
parse_example text = some (record {
  scheme = http;
  path = slash ∷ [];
  query = none;
  fragment = none;
  username = [];
  password = none;
})

abbrev gateway_example : Config
gateway_example = record {
  server = default_server;
  storage = StorageConfig.s3 (b'b' ∷ []) (b'r' ∷ []) none false;
  database = default_database;
  index = default_index;
  limits = default_limits;
  auth = record {
    grants = record { namespace = b'n' ∷ []; token_env = b'T' ∷ []; write = true } ∷ [];
  };
  cluster = some (
      ClusterConfig.gateway (record { id = b'a' ∷ []; workers = (b'w' ∷ []) ∷ [] } ∷ [])
        (b'U' ∷ []));
}

abbrev from_str_example : Bytes → Option Config
from_str_example text = some gateway_example

-- The defaults pass as well.
default_passes : validate parse_example default_config ≡ ok tt
unfolding validate validate_grants validate_storage split validate_id is_id_byte
default_passes = refl

gateway_run : load parse_example from_str_example (some (ok [])) ≡ ok gateway_example
unfolding load read_config validate validate_grants validate_storage validate_cluster
    validate_shards validate_workers bad_url bad_endpoint split contains validate_id is_id_byte
    bytes_eq starts_with
gateway_run = refl

validate_iff_example :
    (validate parse_example gateway_example ≡ ok tt) ↔ IsAccepted parse_example gateway_example
validate_iff_example = validate_iff parse_example gateway_example

abbrev shard_a : ShardConfig
shard_a = record { id = b'a' ∷ []; workers = [] }

abbrev shard_b : ShardConfig
shard_b = record { id = b'b' ∷ []; workers = [] }

abbrev identity : Bytes → Bytes
identity bytes = bytes

chosen_b : shard_for identity (b'n' ∷ []) (shard_a ∷ shard_b ∷ []) ≡ some shard_b
unfolding shard_for max_from shard_key digest hex_bytes to_hex bytes_lt
chosen_b = refl

other_key :
    bytes_eq (shard_key identity (b'n' ∷ []) shard_b) (shard_key identity (b'n' ∷ []) shard_a)
    ≡ false
unfolding shard_key digest hex_bytes to_hex bytes_eq
other_key = refl

shard_for_stable_example : shard_for identity (b'n' ∷ []) (shard_b ∷ []) ≡ some shard_b
shard_for_stable_example =
    shard_for_stable identity (b'n' ∷ []) [] (shard_b ∷ []) shard_a shard_b chosen_b other_key
