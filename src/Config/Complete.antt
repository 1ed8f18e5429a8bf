-- ===== src/Config/Complete.antt =====
-- The checks of src/config.rs pass on what is within the bounds.
use gengis_mimi.Shared.{
  ℕ, ◌<◌, ◌≡◌, ◌⊎◌, refl, ap, ◌∙◌, inl, inr, Bool, true, false, not, ◌||◌, Option, none, some, List,
  [], ◌∷◌, ◌++◌, append_assoc, append-nil, arith, All, length, any, in_range,
}
use gengis_mimi.Shared.Bytes.{Bytes, bytes_eq, bytes_eq_refl}
use gengis_mimi.Error.{Error, Result, ok, ◌>>◌, reject_if}
use gengis_mimi.Model.{validate_id}
use gengis_mimi.Model.Ids.{IsId, Distinct, Distinct-tail}
use gengis_mimi.Config.{StorageConfig, ClusterConfig, ShardConfig, GrantConfig}
use gengis_mimi.Config.Validate.{
  Url, is_empty, is_err, http, https, slash, split, bad_url, bad_endpoint, validate_grants,
  validate_storage, validate_workers, validate_shards, validate_cluster, validate_deployment,
}
use gengis_mimi.Config.Parts.{IsPath, IsGrant, IsOrigin, join}
use gengis_mimi.Config.Accepted.{
  Between, IsStorage, IsEndpoint, IsAddress, IsShard, IsCluster, IsDeployment, shard_ids,
}
use gengis_mimi.Engine.Keys.Separate.{NoSlash, validate_id-NoSlash}

-- A check that passes leaves what follows it.
pub pass :
    (b : Bool) (e : Error) (r : Result (Unit {0}))
    → b ≡ false
    → r ≡ ok tt
    → (reject_if b e >> r) ≡ ok tt
pass b e r h k = rw (h, k) refl

pub follow : (m r : Result (Unit {0})) → m ≡ ok tt → r ≡ ok tt → (m >> r) ≡ ok tt
follow m r h k = rw (h, k) refl

pub pass_last : (b : Bool) (e : Error) → b ≡ false → reject_if b e ≡ ok tt
pass_last b e h = rw h refl

pub Between-in_range : (lo hi n : ℕ) → Between lo hi n → not (in_range lo hi n) ≡ false
Between-in_range lo hi n (h, k) = ground arith

some_text : (text : Bytes) → 0 < length text → is_empty text ≡ false
some_text text h = ground arith

-- Parts without a slash come back from the text that joins them.
split_whole : (part text : Bytes) → NoSlash text → split part text ≡ (part ++ text) ∷ []
unfolding split
split_whole part [] h = rw (append-nil part) refl
split_whole part (c ∷ text) (p, h) =
    rw p (split_whole (part ++ c ∷ []) text h ∙ ap (λ l. l ∷ []) (append_assoc part (c ∷ []) text))

split_first :
    (part text rest : Bytes)
    → NoSlash text
    → split part (text ++ slash ∷ rest) ≡ (part ++ text) ∷ split [] rest
unfolding split
split_first part [] rest h = rw (append-nil part) refl
split_first part (c ∷ text) rest (p, h) = rw p (
    split_first (part ++ c ∷ []) text rest h
    ∙ ap (λ l. l ∷ split [] rest) (append_assoc part (c ∷ []) text))

split-join :
    (first : Bytes) (rest : List Bytes)
    → IsId first
    → All IsId rest
    → split [] (join first rest) ≡ first ∷ rest
split-join first [] h k = split_whole [] first (validate_id-NoSlash first h)
split-join first (next ∷ rest) h (p, k) =
    split_first [] first (join next rest) (validate_id-NoSlash first h)
    ∙ ap (λ l. first ∷ l) (split-join next rest p k)

no_errors :
    (parts : List Bytes) → All IsId parts → any (λ part. is_err (validate_id part)) parts ≡ false
no_errors [] h = refl
no_errors (part ∷ parts) (p, h) = rw (p, no_errors parts h) refl

pub path_passes :
    (path : Bytes) → IsPath path → any (λ part. is_err (validate_id part)) (split [] path) ≡ false
path_passes path h =
    rw (h.joined, split-join h.first h.rest h.first_valid h.rest_valid)
      (no_errors (h.first ∷ h.rest) (h.first_valid, h.rest_valid))

pub grants_pass : (grants : List GrantConfig) → All IsGrant grants → validate_grants grants ≡ ok tt
unfolding validate_grants
grants_pass [] h = refl
grants_pass (grant ∷ grants) (p, h) =
    follow _ _ p.namespace
      (pass _ _ _ (some_text grant.token_env p.token_env) (grants_pass grants h))

scheme_passes :
    (scheme : Bytes)
    → (scheme ≡ http) ⊎ (scheme ≡ https)
    → (bytes_eq scheme http || bytes_eq scheme https) ≡ true
scheme_passes scheme (inl e) = rw (e, bytes_eq_refl http) refl
scheme_passes scheme (inr e) = rw (e, bytes_eq_refl https) (ground arith)

url_passes : (url : Url) → IsOrigin url → bad_url url ≡ false
unfolding bad_url
url_passes url h =
    rw
      (
        scheme_passes url.scheme h.scheme,
        h.path,
        bytes_eq_refl (slash ∷ []),
        h.query,
        h.fragment,
        h.username,
        h.password,
      )
      refl

endpoint_passes :
    (endpoint : Option Bytes) (allow_http : Bool)
    → IsEndpoint endpoint allow_http
    → bad_endpoint endpoint allow_http ≡ false
unfolding bad_endpoint
endpoint_passes none allow_http h = refl
endpoint_passes (some endpoint) allow_http (inl e) = rw e refl
endpoint_passes (some endpoint) allow_http (inr (a, e)) = rw (a, e) (ground arith)

pub storage_passes :
    (storage : StorageConfig) → IsStorage storage → validate_storage storage ≡ ok tt
unfolding validate_storage
storage_passes (StorageConfig.local path) h = refl
storage_passes (StorageConfig.s3 bucket region endpoint allow_http) (b, r, e) =
    pass _ _ _ (rw (some_text bucket b, some_text region r) refl)
      (pass_last _ _ (endpoint_passes endpoint allow_http e))

module _ (parse : Bytes → Option Url) where
  workers_pass :
      (workers : List Bytes)
      → All (IsAddress parse) workers
      → validate_workers parse workers ≡ ok tt
  unfolding validate_workers
  workers_pass [] h = refl
  workers_pass (worker ∷ workers) ((url, parsed, good), h) =
      rw parsed (pass _ _ _ (url_passes url good) (workers_pass workers h))

  shards_pass :
      (seen : List Bytes) (shards : List ShardConfig)
      → Distinct seen (shard_ids shards)
      → All (IsShard parse) shards
      → validate_shards parse seen shards ≡ ok tt
  unfolding validate_shards
  shards_pass seen [] d h = refl
  shards_pass seen (shard ∷ shards) d (p, h) =
      let (new, more) = d.new in
      let (valid, rest) = d.valid in
      let (few, many) = p.workers in
      follow _ _ valid (
        pass _ _ _ (rw new (ground arith)) (
          follow _ _ (workers_pass shard.workers p.addresses) (
            shards_pass (shard.id ∷ seen) shards (Distinct-tail shard.id seen (shard_ids shards) d)
              h)))

  cluster_passes :
      (cluster : ClusterConfig) → IsCluster parse cluster → validate_cluster parse cluster ≡ ok tt
  unfolding validate_cluster
  cluster_passes (ClusterConfig.worker node_id lease_ms) (valid, h) =
      follow _ _ valid (pass_last _ _ (Between-in_range 3000 300000 lease_ms h))
  cluster_passes (ClusterConfig.gateway shards upstream_token_env) ((lo, hi), named, h) =
      pass _ _ _ (rw (some_text upstream_token_env named) (ground arith))
        (shards_pass [] shards h.ids h.each)

  pub deployment_passes :
      (cluster : Option ClusterConfig) (storage : StorageConfig)
      → IsDeployment parse cluster storage
      → validate_deployment parse cluster storage ≡ ok tt
  deployment_passes none storage h = refl
  deployment_passes (some cluster) storage (h, remote) =
      follow _ _ (cluster_passes cluster h) (pass_last _ _ (rw remote refl))
