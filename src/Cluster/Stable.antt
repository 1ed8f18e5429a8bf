-- ===== src/Cluster/Stable.antt =====
-- A namespace keeps its shard in src/cluster.rs when another shard joins or leaves.
use gengis_mimi.Shared.{
  ◌≡◌, refl, sym, ap, ◌∙◌, true, false, inl, inr, some, List, [], ◌∷◌, ◌++◌, Bool-cases,
  if◌then◌else◌,
}
use gengis_mimi.Shared.Bytes.{
  Bytes, bytes_eq, bytes_eq_refl, bytes_lt, bytes_lt_negative, bytes_lt_asym,
}
use gengis_mimi.Config.{ShardConfig}
use gengis_mimi.Cluster.{shard_key, max_from, shard_for}

not_below_trans :
    (y s b : Bytes) → bytes_lt s b ≡ false → bytes_lt y s ≡ false → bytes_lt y b ≡ false
not_below_trans y s b h k = elim (Bool-cases (bytes_lt y b)) [
  | inl below ↦ cc (bytes_lt_negative y b s below h)
  | inr other ↦ other
]

some_eq : {x y : ShardConfig} → some x ≡ some y → x ≡ y
some_eq h = cc

module _ (sha256 : Bytes → Bytes) (namespace : Bytes) where
  abbrev key_of : ShardConfig → Bytes
  key_of = shard_key sha256 namespace

  kept :
      (b y : ShardConfig) (shards : List ShardConfig)
      → bytes_lt (key_of y) (key_of b) ≡ true
      → max_from sha256 namespace b (y ∷ shards) ≡ max_from sha256 namespace b shards
  unfolding max_from
  kept b y shards h = ap (λ t. max_from sha256 namespace (if t then b else y) shards) h

  replaced :
      (b y : ShardConfig) (shards : List ShardConfig)
      → bytes_lt (key_of y) (key_of b) ≡ false
      → max_from sha256 namespace b (y ∷ shards) ≡ max_from sha256 namespace y shards
  unfolding max_from
  replaced b y shards h = ap (λ t. max_from sha256 namespace (if t then b else y) shards) h

  max_from_nil : (b : ShardConfig) → max_from sha256 namespace b [] ≡ b
  unfolding max_from
  max_from_nil b = refl

  alone :
      {X : Type 0} (s : ShardConfig)
      → bytes_eq (key_of (max_from sha256 namespace s [])) (key_of s) ≡ false
      → X
  alone s apart = let e = rw (max_from_nil s) at apart in cc (bytes_eq_refl (key_of s))

  -- A lower start makes no difference where the higher one is not chosen in the end.
  start_lower :
      (b s : ShardConfig) (shards : List ShardConfig)
      → bytes_lt (key_of s) (key_of b) ≡ false
      → bytes_eq (key_of (max_from sha256 namespace s shards)) (key_of s) ≡ false
      → max_from sha256 namespace b shards ≡ max_from sha256 namespace s shards
  start_lower b s [] h apart = alone s apart
  start_lower b s (y ∷ shards) h apart = elim (Bool-cases (bytes_lt (key_of y) (key_of s))) [
    | inl below ↦
        let same = kept s y shards below in
        let apart' = rw same at apart in
        elim (Bool-cases (bytes_lt (key_of y) (key_of b))) [
          | inl lower ↦ kept b y shards lower ∙ start_lower b s shards h apart' ∙ sym same
          | inr higher ↦
              replaced b y shards higher
              ∙ start_lower y s shards (bytes_lt_asym (key_of y) (key_of s) below) apart'
              ∙ sym same
        ]
    | inr above ↦
        replaced b y shards (not_below_trans (key_of y) (key_of s) (key_of b) h above)
        ∙ sym (replaced s y shards above)
  ]

  -- The same, where the shard stands further on.
  later :
      (b s : ShardConfig) (front back : List ShardConfig)
      → bytes_eq (key_of (max_from sha256 namespace b (front ++ s ∷ back))) (key_of s) ≡ false
      → max_from sha256 namespace b (front ++ back)
        ≡ max_from sha256 namespace b (front ++ s ∷ back)
  later b s [] back apart = elim (Bool-cases (bytes_lt (key_of s) (key_of b))) [
    | inl below ↦ sym (kept b s back below)
    | inr above ↦
        let same = replaced b s back above in
        start_lower b s back above (rw same at apart) ∙ sym same
  ]
  later b s (x ∷ front) back apart = elim (Bool-cases (bytes_lt (key_of x) (key_of b))) [
    | inl below ↦
        let same = kept b x (front ++ s ∷ back) below in
        kept b x (front ++ back) below ∙ later b s front back (rw same at apart) ∙ sym same
    | inr above ↦
        let same = replaced b x (front ++ s ∷ back) above in
        replaced b x (front ++ back) above ∙ later x s front back (rw same at apart) ∙ sym same
  ]

  first :
      (s : ShardConfig) (back : List ShardConfig)
      → bytes_eq (key_of (max_from sha256 namespace s back)) (key_of s) ≡ false
      → shard_for sha256 namespace back ≡ some (max_from sha256 namespace s back)
  unfolding shard_for
  first s [] apart = alone s apart
  first s (y ∷ back) apart = elim (Bool-cases (bytes_lt (key_of y) (key_of s))) [
    | inl below ↦
        let same = kept s y back below in
        ap some (
          start_lower y s back (bytes_lt_asym (key_of y) (key_of s) below) (rw same at apart)
          ∙ sym same)
    | inr above ↦ ap some (sym (replaced s y back above))
  ]

  -- Where a shard other than the chosen one, with another digest for the namespace, leaves the
  -- cluster, the namespace keeps its shard, wherever the two stand in the list.
  pub shard_for_stable :
      (front back : List ShardConfig) (s chosen : ShardConfig)
      → shard_for sha256 namespace (front ++ s ∷ back) ≡ some chosen
      → bytes_eq (shard_key sha256 namespace chosen) (shard_key sha256 namespace s) ≡ false
      → shard_for sha256 namespace (front ++ back) ≡ some chosen
  unfolding shard_for
  shard_for_stable [] back s chosen e apart = first s back (rw (← some_eq e) at apart) ∙ e
  shard_for_stable (x ∷ front) back s chosen e apart =
      ap some (later x s front back (rw (← some_eq e) at apart)) ∙ e
