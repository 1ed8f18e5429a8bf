-- ===== src/Config/Accepted.antt =====
-- What a configuration that `Config::validate` of src/config.rs accepts has.
use gengis_mimi.Shared.{
  ℕ, ◌*◌, ◌≤◌, ◌<◌, ◌≡◌, ◌⊎◌, refl, inl, inr, Bool, true, false, not, ◌&&◌, ◌||◌, Option, none,
  some, List, [], ◌∷◌, map, arith, All, length, ltb, ◌==◌, in_range,
}
use gengis_mimi.Shared.Bytes.{Bytes, starts_with}
use gengis_mimi.Error.{Error}
use gengis_mimi.Error.Ensures.{
  Ensures, returns, Ensures-bind, Ensures-bind_eq, Ensures-reject_if, Ensures-ok_or, Ensures-test,
  Ensures-mono,
}
use gengis_mimi.Model.{validate_id, contains}
use gengis_mimi.Model.Ids.{IsId, Distinct, Distinct-nil, Distinct-cons}
use gengis_mimi.Config.{
  Config, StorageConfig, ClusterConfig, ShardConfig, IndexConfig, LimitsConfig,
}
use gengis_mimi.Config.Validate.{
  Url, is_some, is_empty, bad_url, bad_endpoint, https_prefix, http_prefix, validate_storage, is_s3,
  validate_workers, validate_shards, validate_cluster, validate_deployment, validate,
}
use gengis_mimi.Config.Parts.{
  IsPath, IsGrant, IsOrigin, prefix-IsPath, grants-Ensures, good-IsOrigin, nonempty,
}

-- `lo ≤ n ≤ hi`
abbrev pub Between : ℕ → ℕ → ℕ → Type 0
Between lo hi n = (lo ≤ n) × (n ≤ hi)

pub in_range-Between : (lo hi n : ℕ) → not (in_range lo hi n) ≡ false → Between lo hi n
in_range-Between lo hi n h = ground arith

abbrev pub shard_ids : List ShardConfig → List Bytes
shard_ids = map (λ (shard : ShardConfig). shard.id)

-- An endpoint is secure, or of plain HTTP where that is allowed.
abbrev pub IsEndpoint : Option Bytes → Bool → Type 0
IsEndpoint none allow_http = Unit
IsEndpoint (some endpoint) allow_http =
    (starts_with https_prefix endpoint ≡ true)
    ⊎ ((allow_http ≡ true) × (starts_with http_prefix endpoint ≡ true))

abbrev pub IsStorage : StorageConfig → Type 0
IsStorage (StorageConfig.local path) = Unit
IsStorage (StorageConfig.s3 bucket region endpoint allow_http) =
    (0 < length bucket) × (0 < length region) × IsEndpoint endpoint allow_http

not_bad-IsEndpoint :
    (endpoint : Option Bytes) (allow_http : Bool)
    → bad_endpoint endpoint allow_http ≡ false
    → IsEndpoint endpoint allow_http
unfolding bad_endpoint
not_bad-IsEndpoint none allow_http h = tt
not_bad-IsEndpoint (some endpoint) allow_http h = ground arith

IsStorage-Ensures :
    (storage : StorageConfig) → Ensures (λ _. IsStorage storage) (validate_storage storage)
unfolding validate_storage
IsStorage-Ensures (StorageConfig.local path) = returns tt
IsStorage-Ensures (StorageConfig.s3 bucket region endpoint allow_http) =
    Ensures-reject_if (is_empty bucket || is_empty region) Error.config λ named.
      Ensures-test (bad_endpoint endpoint allow_http) Error.config λ good. (
        nonempty bucket (ground arith),
        nonempty region (ground arith),
        not_bad-IsEndpoint endpoint allow_http good,
      )

pub record IsIndex (index : IndexConfig) : Type 0 where
  pub clusters : Between 1 1024 index.clusters
  pub iterations : Between 1 50 index.iterations
  pub max_build_bytes : 1024 * 1024 ≤ index.max_build_bytes

pub record AreLimits (limits : LimitsConfig) : Type 0 where
  pub documents : 0 < limits.max_documents
  pub bytes : 0 < limits.max_namespace_bytes
  pub pending : 0 < limits.max_pending_documents

IsIndex-bounds :
    (index : IndexConfig)
    → (index.clusters == 0
        || ltb 1024 index.clusters
        || index.iterations == 0
        || ltb 50 index.iterations
        || ltb index.max_build_bytes (1024 * 1024))
      ≡ false
    → IsIndex index
IsIndex-bounds index h = record {
  clusters = ground arith;
  iterations = ground arith;
  max_build_bytes = ground arith;
}

limits_bounds :
    (limits : LimitsConfig)
    → (limits.max_documents == 0
        || limits.max_namespace_bytes == 0
        || limits.max_pending_documents == 0)
      ≡ false
    → AreLimits limits
limits_bounds limits h = record {
  documents = ground arith;
  bytes = ground arith;
  pending = ground arith;
}

cache_bound :
    (cache_dir : Option Bytes) (n : ℕ)
    → (is_some cache_dir && ltb n (4 * 1024 * 1024)) ≡ false
    → (cache_dir ≡ none) ⊎ (4 * 1024 * 1024 ≤ n)
cache_bound none n h = inl refl
cache_bound (some dir) n h = inr (ground arith)

module _ (parse : Bytes → Option Url) where
  -- Each address is one that the URL parser reads as an origin.
  abbrev pub IsAddress : Bytes → Type 0
  IsAddress worker = (url : Url) × (parse worker ≡ some url) × IsOrigin url

  pub record IsShard (shard : ShardConfig) : Type 0 where
    pub workers : Between 1 8 (length shard.workers)
    pub addresses : All IsAddress shard.workers

  pub record AreShards (seen : List Bytes) (shards : List ShardConfig) : Type 0 where
    pub ids : Distinct seen (shard_ids shards)
    pub each : All IsShard shards

  workers-Ensures :
      (workers : List Bytes) → Ensures (λ _. All IsAddress workers) (validate_workers parse workers)
  unfolding validate_workers
  workers-Ensures [] = returns tt
  workers-Ensures (worker ∷ workers) = Ensures-ok_or (parse worker) Error.config λ url parsed.
      Ensures-reject_if (bad_url url) Error.config λ good.
        Ensures-mono (workers-Ensures workers)
          λ _ more. ((url, parsed, good-IsOrigin url good), more)

  shards-Ensures :
      (seen : List Bytes) (shards : List ShardConfig)
      → Ensures (λ _. AreShards seen shards) (validate_shards parse seen shards)
  unfolding validate_shards
  shards-Ensures seen [] = returns (record { ids = Distinct-nil seen; each = tt })
  shards-Ensures seen (shard ∷ shards) = Ensures-bind_eq (validate_id shard.id) λ _ valid.
      Ensures-reject_if
        (contains shard.id seen || length shard.workers == 0 || ltb 8 (length shard.workers))
        Error.config
        λ good. Ensures-bind (workers-Ensures shard.workers) λ _ addresses.
          Ensures-mono (shards-Ensures (shard.id ∷ seen) shards) λ _ h. record {
            ids = Distinct-cons shard.id seen (shard_ids shards) valid (ground arith) h.ids;
            each = (record { workers = ground arith; addresses = addresses }, h.each);
          }

  abbrev pub IsCluster : ClusterConfig → Type 0
  IsCluster (ClusterConfig.worker node_id lease_ms) = IsId node_id × Between 3000 300000 lease_ms
  IsCluster (ClusterConfig.gateway shards upstream_token_env) =
      Between 1 128 (length shards) × (0 < length upstream_token_env) × AreShards [] shards

  IsCluster-Ensures :
      (cluster : ClusterConfig) → Ensures (λ _. IsCluster cluster) (validate_cluster parse cluster)
  unfolding validate_cluster
  IsCluster-Ensures (ClusterConfig.worker node_id lease_ms) =
      Ensures-bind_eq (validate_id node_id) λ _ valid.
        Ensures-test (not (in_range 3000 300000 lease_ms)) Error.config
          λ h. (valid, in_range-Between 3000 300000 lease_ms h)
  IsCluster-Ensures (ClusterConfig.gateway shards upstream_token_env) =
      Ensures-reject_if
        (length shards == 0 || ltb 128 (length shards) || is_empty upstream_token_env) Error.config
        λ good.
          Ensures-mono (shards-Ensures [] shards)
            λ _ h. (ground arith, nonempty upstream_token_env (ground arith), h)

  -- A deployment in a cluster keeps its data in S3.
  abbrev pub IsDeployment : Option ClusterConfig → StorageConfig → Type 0
  IsDeployment none storage = Unit
  IsDeployment (some cluster) storage = IsCluster cluster × (is_s3 storage ≡ true)

  IsDeployment-Ensures :
      (cluster : Option ClusterConfig) (storage : StorageConfig)
      → Ensures (λ _. IsDeployment cluster storage) (validate_deployment parse cluster storage)
  IsDeployment-Ensures none storage = returns tt
  IsDeployment-Ensures (some cluster) storage =
      Ensures-bind (IsCluster-Ensures cluster)
        λ _ h. Ensures-test (not (is_s3 storage)) Error.config λ remote. (h, ground arith)

  -- A configuration within the bounds.
  pub record IsAccepted (config : Config) : Type 0 where
    pub request_timeout : Between 100 3600000 config.server.request_timeout_ms
    pub queries : Between 1 64 config.server.max_concurrent_queries
    pub prefix : IsPath config.database.prefix
    pub wal_flush : Between 1 60000 config.database.wal_flush_ms
    pub l0_sst : Between (64 * 1024) (256 * 1024 * 1024) config.database.l0_sst_bytes
    pub cache : (config.database.cache_dir ≡ none) ⊎ (4 * 1024 * 1024 ≤ config.database.cache_bytes)
    pub index : IsIndex config.index
    pub limits : AreLimits config.limits
    pub grants : All IsGrant config.auth.grants
    pub deployment : IsDeployment config.cluster config.storage
    pub storage : IsStorage config.storage

  pub validate-Ensures :
      (config : Config) → Ensures (λ _. IsAccepted config) (validate parse config)
  unfolding validate
  validate-Ensures config = Ensures-reject_if _ Error.config λ timeout.
      Ensures-reject_if _ Error.config λ l0.
        Ensures-bind (IsDeployment-Ensures config.cluster config.storage) λ _ deployment.
          Ensures-reject_if _ Error.config λ index. Ensures-reject_if _ Error.config λ limits.
            Ensures-bind (grants-Ensures config.auth.grants) λ _ grants.
              Ensures-reject_if _ Error.config λ path. Ensures-reject_if _ Error.config λ wal.
                Ensures-reject_if _ Error.config λ queries.
                  Ensures-reject_if _ Error.config λ cache.
                    Ensures-mono (IsStorage-Ensures config.storage) λ _ storage. record {
                      request_timeout = in_range-Between _ _ _ timeout;
                      queries = in_range-Between _ _ _ queries;
                      prefix = prefix-IsPath config.database.prefix path;
                      wal_flush = in_range-Between _ _ _ wal;
                      l0_sst = in_range-Between _ _ _ l0;
                      cache =
                          cache_bound config.database.cache_dir config.database.cache_bytes cache;
                      index = IsIndex-bounds config.index index;
                      limits = limits_bounds config.limits limits;
                      grants = grants;
                      deployment = deployment;
                      storage = storage;
                    }
