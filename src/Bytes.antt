-- ===== src/Bytes.antt =====
-- common/wire.h and common/wire.cpp, the byte order helpers. A `uint8_t*` is the list of the
-- bytes from the place that it points at; `buf + n` is what `at_offset n` and `drop n` reach.
-- Words are natural numbers, with the wrap of each cast and shift written out. The order in which
-- the host keeps the bytes of a word is a parameter, `Endian`, of all that copies a struct.
pub mod Order
use fleetcore.Prelude.{
  ℕ, zero, suc, ◌+◌, ◌-◌, ◌*◌, ◌/◌, ◌%◌, ◌^◌, ◌<◌, List, [], ◌∷◌, ◌++◌, get_or, set, bit_or,
}

abbrev pub Bytes : Type 0
Bytes = List ℕ

abbrev pub AreBytes : Bytes → Type 0
AreBytes [] = Unit {0}
AreBytes (b ∷ bs) = (b < 256) × AreBytes bs

-- `p[i]`
abbrev pub byte_at : Bytes → ℕ → ℕ
byte_at p i = get_or p i 0

-- What a function that is handed `buf + n` does to the whole buffer.
abbrev pub at_offset : ℕ → (Bytes → Bytes) → Bytes → Bytes
at_offset zero f buf = f buf
at_offset (suc n) f [] = []
at_offset (suc n) f (b ∷ buf) = b ∷ at_offset n f buf

-- `memcpy(buf, src, size of src)`; the caller has checked that it fits.
abbrev pub memcpy : Bytes → Bytes → Bytes
memcpy [] buf = buf
memcpy (b ∷ src) [] = []
memcpy (b ∷ src) (x ∷ buf) = b ∷ memcpy src buf

unfoldable pub load_be16 : Bytes → ℕ
load_be16 p = bit_or (byte_at p 0 * 2 ^ 8) (byte_at p 1) % 2 ^ 16

unfoldable pub load_be32 : Bytes → ℕ
load_be32 p =
    bit_or
      (bit_or (bit_or (byte_at p 0 * 2 ^ 24 % 2 ^ 32) (byte_at p 1 * 2 ^ 16 % 2 ^ 32))
        (byte_at p 2 * 2 ^ 8 % 2 ^ 32))
      (byte_at p 3)

-- The loop of `load_be64`: `rounds` more bytes, from index `i` on.
unfoldable pub load_be64_loop : ℕ → ℕ → Bytes → ℕ → ℕ
load_be64_loop zero i p v = v
load_be64_loop (suc rounds) i p v =
    load_be64_loop rounds (suc i) p (bit_or (v * 2 ^ 8 % 2 ^ 64) (byte_at p i))

unfoldable pub load_be64 : Bytes → ℕ
unfolding load_be64_loop
load_be64 p = load_be64_loop 8 0 p 0

unfoldable pub store_be16 : ℕ → Bytes → Bytes
store_be16 v p = set (set p 0 (v / 2 ^ 8 % 256)) 1 (v % 256)

unfoldable pub store_be32 : ℕ → Bytes → Bytes
store_be32 v p =
    set (set (set (set p 0 (v / 2 ^ 24 % 256)) 1 (v / 2 ^ 16 % 256)) 2 (v / 2 ^ 8 % 256)) 3
      (v % 256)

unfoldable pub store_be64_loop : ℕ → ℕ → ℕ → Bytes → Bytes
store_be64_loop zero i v p = p
store_be64_loop (suc rounds) i v p =
    store_be64_loop rounds (suc i) v (set p i (v / 2 ^ (56 - 8 * i) % 256))

unfoldable pub store_be64 : ℕ → Bytes → Bytes
unfolding store_be64_loop
store_be64 v p = store_be64_loop 8 0 v p

-- The host's own order.
pub data Endian : Type 0 where
  little : Endian
  big : Endian

-- The `w` low bytes of a word, lowest first and highest first.
abbrev pub le_bytes : ℕ → ℕ → Bytes
le_bytes zero v = []
le_bytes (suc w) v = (v % 256) ∷ le_bytes w (v / 256)

abbrev pub be_bytes : ℕ → ℕ → Bytes
be_bytes zero v = []
be_bytes (suc w) v = (v / 256 ^ w % 256) ∷ be_bytes w v

abbrev pub le_value : Bytes → ℕ
le_value [] = 0
le_value (b ∷ bs) = b + 256 * le_value bs

abbrev pub be_value_from : ℕ → Bytes → ℕ
be_value_from v [] = v
be_value_from v (b ∷ bs) = be_value_from (v * 256 + b) bs

-- A word of `w` bytes as the host keeps it in memory, and such memory read as a word.
abbrev pub object : Endian → ℕ → ℕ → Bytes
object little w v = le_bytes w v
object big w v = be_bytes w v

abbrev pub word : Endian → Bytes → ℕ
word little bs = le_value bs
word big bs = be_value_from 0 bs
