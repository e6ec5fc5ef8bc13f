-- ===== src/Wire/Memory.antt =====
-- Unsigned integers in memory: `reinterpret_cast<const uint8_t*>`, `memcpy` into an integer,
-- and `htonl`/`ntohl`, on a host of either byte order.
use wire_send.Common.{
  ℕ, zero, suc, ◌+◌, ◌*◌, ◌/◌, ◌%◌, ◌^◌, ◌<◌, ◌≡◌, refl, ap, List, [], ◌∷◌, reverse, arith, length,
  All,
}

pub data ByteOrder : Type 0 where
  little big : ByteOrder

abbrev pub IsByte : ℕ → Type 0
IsByte b = b < 256

-- The `n` low bytes of a value, lowest first, and the value of such a list.
unfoldable pub le_bytes : ℕ → ℕ → List ℕ
le_bytes zero v = []
le_bytes (suc n) v = (v % 256) ∷ le_bytes n (v / 256)

unfoldable pub of_le_bytes : List ℕ → ℕ
of_le_bytes [] = 0
of_le_bytes (b ∷ bs) = b + 256 * of_le_bytes bs

-- The bytes of an unsigned integer of `n` bytes, as they lie in the host's memory.
abbrev pub stored : ByteOrder → ℕ → ℕ → List ℕ
stored little n v = le_bytes n v
stored big n v = reverse (le_bytes n v)

abbrev pub loaded : ByteOrder → List ℕ → ℕ
loaded little bs = of_le_bytes bs
loaded big bs = of_le_bytes (reverse bs)

-- `htonl` and `ntohl`: the identity on a big-endian host, a swap of the four bytes on the other.
unfoldable pub htonl : ByteOrder → ℕ → ℕ
unfolding le_bytes of_le_bytes
htonl little v = of_le_bytes (reverse (le_bytes 4 v))
htonl big v = v

abbrev pub ntohl : ByteOrder → ℕ → ℕ
ntohl = htonl

pub length-le_bytes : (n v : ℕ) → length (le_bytes n v) ≡ n
unfolding le_bytes
length-le_bytes zero v = refl
length-le_bytes (suc n) v = ap suc (length-le_bytes n (v / 256))

pub le_bytes-IsByte : (n v : ℕ) → All IsByte (le_bytes n v)
unfolding le_bytes
le_bytes-IsByte zero v = tt
le_bytes-IsByte (suc n) v = (omega arith, le_bytes-IsByte n (v / 256))

pub le_bytes-of_le_bytes :
    (bs : List ℕ) → All IsByte bs → le_bytes (length bs) (of_le_bytes bs) ≡ bs
unfolding le_bytes of_le_bytes
le_bytes-of_le_bytes [] h = refl
le_bytes-of_le_bytes (b ∷ bs) h = ground (arith, le_bytes-of_le_bytes bs h.1, quotient)
  where
    quotient : (b + 256 * of_le_bytes bs) / 256 ≡ of_le_bytes bs
    quotient = omega (arith, h.0)

-- Four and eight bytes hold a `uint32_t` and a `uint64_t`.
pub of_le_bytes-le_bytes_4 : (v : ℕ) → v < 2 ^ 32 → of_le_bytes (le_bytes 4 v) ≡ v
unfolding le_bytes of_le_bytes
of_le_bytes-le_bytes_4 v h = omega arith

pub of_le_bytes-le_bytes_8 : (v : ℕ) → v < 2 ^ 64 → of_le_bytes (le_bytes 8 v) ≡ v
unfolding le_bytes of_le_bytes
of_le_bytes-le_bytes_8 v h = omega arith
