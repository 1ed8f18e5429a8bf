-- ===== src/Engine/Keys/Separate.antt =====
-- A valid ID holds no slash, so the keys of one namespace stay out of another's range.
use gengis_mimi.Shared.{
  ℕ, ◌≡◌, refl, true, false, ◌&&◌, [], ◌∷◌, ◌++◌, arith, all, All, ◌==◌, ==_refl, &&-eq-true,
}
use gengis_mimi.Shared.Bytes.{Bytes, bytes_eq, starts_with}
use gengis_mimi.Error.{ok}
use gengis_mimi.Model.{validate_id, is_id_byte}
use gengis_mimi.Engine.Keys.{slash, item_prefix, item_key, stats_key}

abbrev pub NoSlash : Bytes → Type 0
NoSlash = All (λ (c : ℕ). (c == slash) ≡ false)

id_byte-ne-slash : (c : ℕ) → is_id_byte c ≡ true → (c == slash) ≡ false
unfolding is_id_byte
id_byte-ne-slash c h = ground arith

all-NoSlash : (id : Bytes) → all is_id_byte id ≡ true → NoSlash id
all-NoSlash [] h = tt
all-NoSlash (c ∷ id) h =
    let (p, q) = &&-eq-true (is_id_byte c) (all is_id_byte id) h in
    (id_byte-ne-slash c p, all-NoSlash id q)

all_id_bytes : (id : Bytes) → validate_id id ≡ ok tt → all is_id_byte id ≡ true
unfolding validate_id
all_id_bytes id h = ground arith

pub validate_id-NoSlash : (id : Bytes) → validate_id id ≡ ok tt → NoSlash id
validate_id-NoSlash id h = all-NoSlash id (all_id_bytes id h)

-- A name and the slash behind it are a prefix only of that name with a slash behind it.
pub starts_with_name :
    (name other rest : Bytes)
    → NoSlash name
    → NoSlash other
    → starts_with (name ++ slash ∷ []) (other ++ slash ∷ rest) ≡ bytes_eq name other
unfolding starts_with bytes_eq
starts_with_name [] [] rest h k = refl
starts_with_name [] (b ∷ other) rest h (p, k) = ground arith
starts_with_name (a ∷ name) [] rest (p, h) k = rw p
starts_with_name (a ∷ name) (b ∷ other) rest (p, h) (q, k) =
    rw (starts_with_name name other rest h k)

-- The key of an item lies in a namespace's range of a keyspace exactly if it is of that keyspace
-- and that namespace.
pub starts_with-item_key :
    (letter other_letter : ℕ) (name other id : Bytes)
    → NoSlash name
    → NoSlash other
    → starts_with (item_prefix letter name) (item_key other_letter other id)
      ≡ (letter == other_letter && bytes_eq name other)
unfolding starts_with
starts_with-item_key letter other_letter name other id h k = rw (starts_with_name name other id h k)

append_cancel : (name a b : Bytes) → bytes_eq (name ++ a) (name ++ b) ≡ bytes_eq a b
unfolding bytes_eq
append_cancel [] a b = refl
append_cancel (c ∷ name) a b = rw (==_refl c, append_cancel name a b)

-- Two items of one namespace have one key exactly if they have one ID in one keyspace.
pub bytes_eq-item_key :
    (letter other_letter : ℕ) (name id other : Bytes)
    → bytes_eq (item_key letter name id) (item_key other_letter name other)
      ≡ (letter == other_letter && bytes_eq id other)
unfolding bytes_eq
bytes_eq-item_key letter other_letter name id other =
    rw (append_cancel name (slash ∷ id) (slash ∷ other))

different_names :
    (name other a b : Bytes)
    → NoSlash name
    → NoSlash other
    → bytes_eq name other ≡ false
    → bytes_eq (name ++ slash ∷ a) (other ++ slash ∷ b) ≡ false
unfolding bytes_eq
different_names [] [] a b h k e = cc
different_names [] (c ∷ other) a b h (p, k) e = ground arith
different_names (c ∷ name) [] a b (p, h) k e = rw p
different_names (c ∷ name) (d ∷ other) a b (p, h) (q, k) e =
    ground (arith, different_names name other a b h k)

-- Items of two namespaces never share a key.
pub bytes_eq-item_key_names :
    (letter other_letter : ℕ) (name other a b : Bytes)
    → NoSlash name
    → NoSlash other
    → bytes_eq name other ≡ false
    → bytes_eq (item_key letter name a) (item_key other_letter other b) ≡ false
unfolding bytes_eq
bytes_eq-item_key_names letter other_letter name other a b h k e =
    ground (arith, different_names name other a b h k e)

slash_inside : (name id other : Bytes) → NoSlash other → bytes_eq (name ++ slash ∷ id) other ≡ false
unfolding bytes_eq
slash_inside [] id [] k = refl
slash_inside [] id (c ∷ other) (p, k) = ground arith
slash_inside (c ∷ name) id [] k = refl
slash_inside (c ∷ name) id (d ∷ other) (p, k) = ground (arith, slash_inside name id other k)

-- An item's key is no namespace's statistics.
pub bytes_eq-item_key_stats :
    (letter : ℕ) (name id other : Bytes)
    → NoSlash other
    → bytes_eq (item_key letter name id) (stats_key other) ≡ false
unfolding bytes_eq
bytes_eq-item_key_stats letter name id other k = ground (arith, slash_inside name id other k)

pub bytes_eq-stats_key :
    (name other : Bytes) → bytes_eq (stats_key name) (stats_key other) ≡ bytes_eq name other
unfolding bytes_eq
bytes_eq-stats_key name other = refl
