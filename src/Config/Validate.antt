-- ===== src/Config/Validate.antt =====
-- `Config::validate`, `ClusterConfig::validate` and `Config::load` of src/config.rs.
-- Parameters: what `reqwest::Url::parse` makes of an address, and `toml::from_str` of a text.
use gengis_mimi.Shared.{
  ℕ, ◌*◌, Bool, true, false, not, ◌&&◌, ◌||◌, Option, none, some, List, [], ◌∷◌, ◌++◌, length, any,
  ltb, ◌==◌, in_range, if◌then◌else◌,
}
use gengis_mimi.Shared.Bytes.{Bytes, bytes_eq, starts_with}
use gengis_mimi.Error.{Error, Result, ok, err, ◌>>=◌, ◌>>◌, reject_if, ok_or}
use gengis_mimi.Model.{validate_id, contains}
use gengis_mimi.Config.{
  Config, StorageConfig, ClusterConfig, ShardConfig, GrantConfig, default_config,
}

pub record Url : Type 0 where
  pub scheme : Bytes
  pub path : Bytes
  pub query : Option Bytes
  pub fragment : Option Bytes
  pub username : Bytes
  pub password : Option Bytes

abbrev pub is_some : Option Bytes → Bool
is_some none = false
is_some (some text) = true

abbrev pub is_empty : Bytes → Bool
is_empty text = length text == 0

abbrev pub http : Bytes
http = b'h' ∷ b't' ∷ b't' ∷ b'p' ∷ []

abbrev pub https : Bytes
https = b'h' ∷ b't' ∷ b't' ∷ b'p' ∷ b's' ∷ []

abbrev pub slash : ℕ
slash = b'/'

-- The parts of a text between its slashes, with `part` read of the first: `split('/')`.
unfoldable pub split : Bytes → Bytes → List Bytes
split part [] = part ∷ []
split part (c ∷ text) = if c == slash then part ∷ split [] text else split (part ++ c ∷ []) text

abbrev pub is_err : Result (Unit {0}) → Bool
is_err (err e) = true
is_err (ok done) = false

-- Whether an address is not an HTTP(S) origin.
unfoldable pub bad_url : Url → Bool
bad_url url =
    not (bytes_eq url.scheme http || bytes_eq url.scheme https)
    || not (bytes_eq url.path (slash ∷ []))
    || is_some url.query
    || is_some url.fragment
    || not (is_empty url.username)
    || is_some url.password

unfoldable pub validate_grants : List GrantConfig → Result (Unit {0})
validate_grants [] = ok tt
validate_grants (grant ∷ grants) = do
  validate_id grant.namespace
  reject_if (is_empty grant.token_env) Error.config
  validate_grants grants

abbrev pub https_prefix : Bytes
https_prefix = b'h' ∷ b't' ∷ b't' ∷ b'p' ∷ b's' ∷ b':' ∷ b'/' ∷ b'/' ∷ []

abbrev pub http_prefix : Bytes
http_prefix = b'h' ∷ b't' ∷ b't' ∷ b'p' ∷ b':' ∷ b'/' ∷ b'/' ∷ []

-- `if let Some(endpoint) = endpoint && !(...)`
unfoldable pub bad_endpoint : Option Bytes → Bool → Bool
bad_endpoint none allow_http = false
bad_endpoint (some endpoint) allow_http =
    not (starts_with https_prefix endpoint || allow_http && starts_with http_prefix endpoint)

unfoldable pub validate_storage : StorageConfig → Result (Unit {0})
validate_storage (StorageConfig.local path) = ok tt
validate_storage (StorageConfig.s3 bucket region endpoint allow_http) = do
  reject_if (is_empty bucket || is_empty region) Error.config
  reject_if (bad_endpoint endpoint allow_http) Error.config

abbrev pub is_s3 : StorageConfig → Bool
is_s3 (StorageConfig.local path) = false
is_s3 (StorageConfig.s3 bucket region endpoint allow_http) = true

module _ (parse : Bytes → Option Url) where
  unfoldable pub validate_workers : List Bytes → Result (Unit {0})
  validate_workers [] = ok tt
  validate_workers (worker ∷ workers) = do
    url ← ok_or (parse worker) Error.config
    reject_if (bad_url url) Error.config
    validate_workers workers

  -- The loop over the shards, with the IDs that it has seen.
  unfoldable pub validate_shards : List Bytes → List ShardConfig → Result (Unit {0})
  validate_shards ids [] = ok tt
  validate_shards ids (shard ∷ shards) = do
    validate_id shard.id
    reject_if (contains shard.id ids || length shard.workers == 0 || ltb 8 (length shard.workers))
        Error.config
    validate_workers shard.workers
    validate_shards (shard.id ∷ ids) shards

  unfoldable pub validate_cluster : ClusterConfig → Result (Unit {0})
  validate_cluster (ClusterConfig.worker node_id lease_ms) = do
    validate_id node_id
    reject_if (not (in_range 3000 300000 lease_ms)) Error.config
  validate_cluster (ClusterConfig.gateway shards upstream_token_env) = do
    reject_if (length shards == 0 || ltb 128 (length shards) || is_empty upstream_token_env)
        Error.config
    validate_shards [] shards

  -- `if let Some(cluster) = &self.cluster`
  abbrev pub validate_deployment : Option ClusterConfig → StorageConfig → Result (Unit {0})
  validate_deployment none storage = ok tt
  validate_deployment (some cluster) storage = do
    validate_cluster cluster
    reject_if (not (is_s3 storage)) Error.config

  unfoldable pub validate : Config → Result (Unit {0})
  validate config = do
    reject_if (not (in_range 100 3600000 config.server.request_timeout_ms)) Error.config
    reject_if (not (in_range (64 * 1024) (256 * 1024 * 1024) config.database.l0_sst_bytes))
        Error.config
    validate_deployment config.cluster config.storage
    reject_if
        (config.index.clusters == 0
          || ltb 1024 config.index.clusters
          || config.index.iterations == 0
          || ltb 50 config.index.iterations
          || ltb config.index.max_build_bytes (1024 * 1024))
        Error.config
    reject_if
        (config.limits.max_documents == 0
          || config.limits.max_namespace_bytes == 0
          || config.limits.max_pending_documents == 0)
        Error.config
    validate_grants config.auth.grants
    reject_if (any (λ part. is_err (validate_id part)) (split [] config.database.prefix))
        Error.config
    reject_if (not (in_range 1 60000 config.database.wal_flush_ms)) Error.config
    reject_if (not (in_range 1 64 config.server.max_concurrent_queries)) Error.config
    reject_if
        (is_some config.database.cache_dir && ltb config.database.cache_bytes (4 * 1024 * 1024))
        Error.config
    validate_storage config.storage

  -- The configuration's file, if one is named, as it was read.
  module _ (from_str : Bytes → Option Config) where
    unfoldable pub read_config : Option (Result Bytes) → Result Config
    read_config none = ok default_config
    read_config (some file) = do text ← file; ok_or (from_str text) Error.config

    unfoldable pub load : Option (Result Bytes) → Result Config
    load path = do config ← read_config path; validate config; ok config
