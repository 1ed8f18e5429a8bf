-- ===== src/Index/Keys.antt =====
-- The keys of src/index.rs: `root`, `digest`, `number_key`, and numbers as digits.
use gengis_mimi.Shared.{
  ℕ, zero, suc, ◌+◌, ◌-◌, ◌/◌, ◌%◌, ◌^◌, [], ◌∷◌, ◌++◌, length, ltb, ◌==◌, if◌then◌else◌,
}
use gengis_mimi.Shared.Bytes.{Bytes}
use gengis_mimi.Engine.Keys.{slash}

abbrev pub hex_digit : ℕ → ℕ
hex_digit d = if ltb d 10 then 48 + d else 87 + d

-- The low `w` hexadecimal digits.
unfoldable pub to_hex : ℕ → ℕ → Bytes
to_hex zero n = []
to_hex (suc w) n = to_hex w (n / 16) ++ hex_digit (n % 16) ∷ []

unfoldable pub hex_bytes : Bytes → Bytes
unfolding to_hex
hex_bytes [] = []
hex_bytes (b ∷ bs) = to_hex 2 b ++ hex_bytes bs

unfoldable pub digest : (Bytes → Bytes) → Bytes → Bytes
unfolding hex_bytes
digest sha256 value = hex_bytes (sha256 value)

-- A zero of either sign is the positive one.
abbrev pub number_bits : ℕ → ℕ
number_bits value = if value % 2 ^ 63 == 0 then 0 else value

-- `!bits`, or `bits ^ (1 << 63)`.
abbrev pub order_bits : ℕ → ℕ
order_bits bits = if bits / 2 ^ 63 == 1 then 2 ^ 64 - 1 - bits else (bits + 2 ^ 63) % 2 ^ 64

unfoldable pub number_key : ℕ → Bytes
unfolding to_hex
number_key value = to_hex 16 (order_bits (number_bits value))

-- Decimal digits; twenty are enough for a usize.
unfoldable pub decimal : ℕ → ℕ → Bytes
decimal zero n = []
decimal (suc fuel) n =
    let front = decimal fuel (n / 10) in
    if ltb n 10 then (48 + n) ∷ [] else front ++ (48 + n % 10) ∷ []

unfoldable pub zeros : ℕ → Bytes
zeros zero = []
zeros (suc n) = b'0' ∷ zeros n

-- `{n:0w}`
unfoldable pub padded : ℕ → ℕ → Bytes
unfolding decimal zeros
padded w n = zeros (w - length (decimal 20 n)) ++ decimal 20 n

-- format!("g/{namespace}/{generation}/")
unfoldable pub root : Bytes → Bytes → Bytes
root namespace generation = b'g' ∷ slash ∷ (namespace ++ slash ∷ (generation ++ slash ∷ []))

-- format!("{prefix}v/{cluster:04}/{block:08}")
unfoldable pub cluster_key : Bytes → ℕ → ℕ → Bytes
unfolding padded
cluster_key prefix cluster block =
    prefix ++ b'v' ∷ slash ∷ (padded 4 cluster ++ slash ∷ padded 8 block)

-- format!("{key}/{block:08}")
unfoldable pub block_key : Bytes → ℕ → Bytes
unfolding padded
block_key key block = key ++ slash ∷ padded 8 block

-- format!("{prefix}{letter}/{field}/{rest}") and, for a scan, with a slash behind it
abbrev pub field_key : Bytes → ℕ → Bytes → Bytes → Bytes
field_key prefix letter field rest = prefix ++ letter ∷ slash ∷ (field ++ slash ∷ rest)

abbrev pub field_prefix : Bytes → ℕ → Bytes → Bytes → Bytes
field_prefix prefix letter field rest =
    prefix ++ letter ∷ slash ∷ (field ++ slash ∷ (rest ++ slash ∷ []))

-- format!("{prefix}l/{id}")
abbrev pub length_key : Bytes → Bytes → Bytes
length_key prefix id = prefix ++ b'l' ∷ slash ∷ id
