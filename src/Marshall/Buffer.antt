-- ===== src/Marshall/Buffer.antt =====
-- What marshall.c takes for granted: memory as bytes, and the byte swaps of warpcore.
use quant.Base.{
  ℕ, zero, suc, ◌+◌, ◌-◌, ◌*◌, ◌/◌, ◌%◌, ◌^◌, ◌<◌, ◌≡◌, List, [], ◌∷◌, ◌++◌, Option, none, some,
  leb, length, if◌then◌else◌, IsByte,
}

-- `*pos` and `end` of an encoder: the bytes written so far and the room that is left.
pub record Writer : Type 0 where
  pub out : List ℕ
  pub room : ℕ

-- `memcpy(*pos, bytes, n); *pos += n` behind `assure(*pos + n <= end)`; `none` is a failed `assure`.
unfoldable pub put_bytes : Writer → List ℕ → Option Writer
put_bytes w bytes =
    if leb (length bytes) w.room
    then some (record w { out = w.out ++ bytes; room = w.room - length bytes })
    else none

-- The first `n` bytes of an integer as a little-endian host stores it, and the integer back.
abbrev pub le_bytes : ℕ → ℕ → List ℕ
le_bytes zero v = []
le_bytes (suc n) v = v % 256 ∷ le_bytes n (v / 256)

abbrev pub le_value : List ℕ → ℕ
le_value [] = 0
le_value (b ∷ bs) = b + 256 * le_value bs

-- `bswap16`, `bswap32` and `bswap64` of warpcore: they reverse the bytes of an integer.
pub record ByteSwap : Type 0 where
  pub bswap16 : ℕ → ℕ
  pub bswap32 : ℕ → ℕ
  pub bswap64 : ℕ → ℕ
  pub bswap16_lem : (a b : ℕ) → IsByte a → IsByte b → bswap16 (a + 256 * b) ≡ b + 256 * a
  pub bswap32_lem :
      (a b c d : ℕ)
      → IsByte a
      → IsByte b
      → IsByte c
      → IsByte d
      → bswap32 (a + 256 * (b + 256 * (c + 256 * d))) ≡ d + 256 * (c + 256 * (b + 256 * a))
  -- The two halves of a 64-bit integer are swapped, and each half by `bswap32`.
  pub bswap64_lem :
      (lo hi : ℕ)
      → lo < 2 ^ 32
      → hi < 2 ^ 32
      → bswap64 (lo + 2 ^ 32 * hi) ≡ bswap32 hi + 2 ^ 32 * bswap32 lo
