-- ===== src/Config.antt =====
-- src/config.rs: the configuration, its defaults, and what loads it.
-- A path and a socket address are the bytes of their text; the cluster's node list is src/cluster.rs.
pub mod Validate
pub mod Parts
pub mod Accepted
pub mod Complete
pub mod Loading
use gengis_mimi.Shared.{ℕ, ◌*◌, Bool, true, false, Option, none, some, List, [], ◌∷◌}
use gengis_mimi.Shared.Bytes.{Bytes}

-- The octets of an IP address, and a port.
pub record SocketAddr : Type 0 where
  pub ip : Bytes
  pub port : ℕ

pub record ServerConfig : Type 0 where
  pub bind : SocketAddr
  pub max_concurrent_queries : ℕ
  pub request_timeout_ms : ℕ

abbrev pub default_server : ServerConfig
default_server = record {
  bind = record { ip = 127 ∷ 0 ∷ 0 ∷ 1 ∷ []; port = 7878 };
  max_concurrent_queries = 4;
  request_timeout_ms = 30000;
}

pub data StorageConfig : Type 0 where
  local : (path : Bytes) → StorageConfig
  s3 : (bucket region : Bytes) (endpoint : Option Bytes) (allow_http : Bool) → StorageConfig

abbrev pub default_storage : StorageConfig
default_storage = StorageConfig.local (b'.' ∷ b'/' ∷ b'd' ∷ b'a' ∷ b't' ∷ b'a' ∷ [])

pub record DatabaseConfig : Type 0 where
  pub prefix : Bytes
  pub wal_flush_ms : ℕ
  pub cache_dir : Option Bytes
  pub cache_bytes : ℕ
  pub migrate : Bool
  pub l0_sst_bytes : ℕ

-- "gengis-mimi/v1"
abbrev pub default_prefix : Bytes
default_prefix =
    b'g' ∷ b'e' ∷ b'n' ∷ b'g' ∷ b'i' ∷ b's' ∷ b'-' ∷ b'm' ∷ b'i' ∷ b'm' ∷ b'i' ∷ b'/' ∷ b'v' ∷ b'1'
    ∷ []

abbrev pub default_database : DatabaseConfig
default_database = record {
  prefix = default_prefix;
  wal_flush_ms = 100;
  cache_dir = none;
  cache_bytes = 512 * 1024 * 1024;
  migrate = false;
  l0_sst_bytes = 16 * 1024 * 1024;
}

pub record IndexConfig : Type 0 where
  pub interval_ms : ℕ
  pub clusters : ℕ
  pub iterations : ℕ
  pub max_build_bytes : ℕ
  pub filter_scan_threshold : ℕ

abbrev pub default_index : IndexConfig
default_index = record {
  interval_ms = 5000;
  clusters = 32;
  iterations = 4;
  max_build_bytes = 512 * 1024 * 1024;
  filter_scan_threshold = 4096;
}

pub record LimitsConfig : Type 0 where
  pub max_documents : ℕ
  pub max_namespace_bytes : ℕ
  pub max_pending_documents : ℕ

abbrev pub default_limits : LimitsConfig
default_limits = record {
  max_documents = 1000000;
  max_namespace_bytes = 16 * 1024 * 1024 * 1024;
  max_pending_documents = 50000;
}

pub record GrantConfig : Type 0 where
  pub namespace : Bytes
  pub token_env : Bytes
  pub write : Bool

pub record AuthConfig : Type 0 where
  pub grants : List GrantConfig

pub record ShardConfig : Type 0 where
  pub id : Bytes
  pub workers : List Bytes

pub data ClusterConfig : Type 0 where
  worker : (node_id : Bytes) (lease_ms : ℕ) → ClusterConfig
  gateway : (shards : List ShardConfig) (upstream_token_env : Bytes) → ClusterConfig

pub record Config : Type 0 where
  pub server : ServerConfig
  pub storage : StorageConfig
  pub database : DatabaseConfig
  pub index : IndexConfig
  pub limits : LimitsConfig
  pub auth : AuthConfig
  pub cluster : Option ClusterConfig

abbrev pub default_config : Config
default_config = record {
  server = default_server;
  storage = default_storage;
  database = default_database;
  index = default_index;
  limits = default_limits;
  auth = record { grants = [] };
  cluster = none;
}
