-- ===== src/Config/Loading.antt =====
-- `Config::validate` and `Config::load` of src/config.rs against the bounds.
use gengis_mimi.Shared.{
  ℕ, ◌*◌, ◌≡◌, ◌⊎◌, ◌↔◌, refl, inl, inr, false, ◌&&◌, ◌||◌, Option, none, some, ltb, ◌==◌, arith,
  ◌≤◌,
}
use gengis_mimi.Shared.Bytes.{Bytes}
use gengis_mimi.Error.{Result, ok}
use gengis_mimi.Error.Ensures.{Ensures, returns, Ensures-bind, Ensures-bind_eq, Ensures-eq-ok}
use gengis_mimi.Config.{Config, IndexConfig, LimitsConfig}
use gengis_mimi.Config.Validate.{Url, is_some, validate, load, read_config}
use gengis_mimi.Config.Accepted.{IsIndex, AreLimits, IsAccepted, validate-Ensures}
use gengis_mimi.Config.Complete.{
  pass, follow, Between-in_range, path_passes, grants_pass, storage_passes, deployment_passes,
}

index_passes :
    (index : IndexConfig)
    → IsIndex index
    → (index.clusters == 0
        || ltb 1024 index.clusters
        || index.iterations == 0
        || ltb 50 index.iterations
        || ltb index.max_build_bytes (1024 * 1024))
      ≡ false
index_passes index h =
    let (a, b) = h.clusters in
    let (c, d) = h.iterations in let e = h.max_build_bytes in ground arith

limits_pass :
    (limits : LimitsConfig)
    → AreLimits limits
    → (limits.max_documents == 0
        || limits.max_namespace_bytes == 0
        || limits.max_pending_documents == 0)
      ≡ false
limits_pass limits h = let a = h.documents in let b = h.bytes in let c = h.pending in ground arith

cache_passes :
    (cache_dir : Option Bytes) (n : ℕ)
    → (cache_dir ≡ none) ⊎ (4 * 1024 * 1024 ≤ n)
    → (is_some cache_dir && ltb n (4 * 1024 * 1024)) ≡ false
cache_passes cache_dir n (inl e) = rw e refl
cache_passes none n (inr h) = refl
cache_passes (some dir) n (inr h) = ground arith

module _ (parse : Bytes → Option Url) where
  validate_complete : (config : Config) → IsAccepted parse config → validate parse config ≡ ok tt
  unfolding validate
  validate_complete config h = pass _ _ _ (Between-in_range 100 3600000 _ h.request_timeout) (
      pass _ _ _ (Between-in_range (64 * 1024) (256 * 1024 * 1024) _ h.l0_sst) (
        follow _ _ (deployment_passes parse config.cluster config.storage h.deployment) (
          pass _ _ _ (index_passes config.index h.index) (
            pass _ _ _ (limits_pass config.limits h.limits) (
              follow _ _ (grants_pass config.auth.grants h.grants) (
                pass _ _ _ (path_passes config.database.prefix h.prefix) (
                  pass _ _ _ (Between-in_range 1 60000 _ h.wal_flush) (
                    pass _ _ _ (Between-in_range 1 64 _ h.queries) (
                      pass _ _ _
                        (cache_passes config.database.cache_dir config.database.cache_bytes h.cache)
                        (storage_passes config.storage h.storage))))))))))

  -- The validation accepts a configuration exactly if it is within the bounds: a request timeout
  -- of 100 to 3600000 ms, 1 to 64 concurrent queries, a prefix that is a path of valid IDs, a
  -- flush of the log every 1 to 60000 ms, tables of 64 KiB to 256 MiB, a cache of at least 4 MiB
  -- where there is one, 1 to 1024 clusters, 1 to 50 iterations and at least 1 MiB for a build,
  -- positive limits, every grant with a valid namespace and a variable, S3 storage with a bucket,
  -- a region and an endpoint that is secure or allowed to be plain, and, in a cluster, S3 storage
  -- with a worker of a valid ID and a lease of 3000 to 300000 ms, or with a gateway that names the
  -- variable of its upstream token and has 1 to 128 shards of distinct valid IDs and 1 to 8
  -- workers each, all of them HTTP(S) origins.
  pub validate_iff : (config : Config) → (validate parse config ≡ ok tt) ↔ IsAccepted parse config
  validate_iff config =
      (λ e. Ensures-eq-ok (validate-Ensures parse config) e, validate_complete config)

  module _ (from_str : Bytes → Option Config) where
    load-Ensures :
        (path : Option (Result Bytes)) → Ensures (IsAccepted parse) (load parse from_str path)
    unfolding load
    load-Ensures path =
        Ensures-bind_eq (read_config parse from_str path)
          λ config _. Ensures-bind (validate-Ensures parse config) λ _ h. returns h

    pub load-IsAccepted :
        (path : Option (Result Bytes)) {config : Config}
        → load parse from_str path ≡ ok config
        → IsAccepted parse config
    load-IsAccepted path e = Ensures-eq-ok (load-Ensures path) e
