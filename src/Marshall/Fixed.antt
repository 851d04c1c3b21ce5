-- ===== src/Marshall/Fixed.antt =====
-- The fixed-width integers of lib/src/marshall.c: network byte order, and back.
use quant.Base.{
  ℕ, zero, suc, ◌+◌, ◌*◌, ◌/◌, ◌%◌, ◌^◌, ◌<◌, ◌≡◌, ap, ◌∙◌, List, [], ◌∷◌, ◌++◌, some, arith, IsU64,
}
use quant.Marshall.Buffer.{Writer, put_bytes, le_value, ByteSwap}
use quant.Marshall.Enc.{enc2, enc3, enc4, enc8}
use quant.Marshall.Dec.{dec2, dec3, dec4, dec8}

-- The `n` low bytes of a number, the highest first.
abbrev pub be_bytes : ℕ → ℕ → List ℕ
be_bytes zero v = []
be_bytes (suc n) v = v / 2 ^ (8 * n) % 256 ∷ be_bytes n v

abbrev IsU16 : ℕ → Type 0
IsU16 v = v < 2 ^ 16

abbrev IsU24 : ℕ → Type 0
IsU24 v = v < 2 ^ 24

abbrev IsU32 : ℕ → Type 0
IsU32 v = v < 2 ^ 32

module _ (sw : ByteSwap) where
  open sw use {bswap16, bswap32, bswap64, bswap16_lem, bswap32_lem, bswap64_lem}

  swap16 : (v : ℕ) → IsU16 v → bswap16 v ≡ v / 256 + 256 * (v % 256)
  swap16 v h = ap bswap16 (split v) ∙ bswap16_lem (v % 256) (v / 256) (omega arith) (omega arith)
    where
      split : (v : ℕ) → v ≡ v % 256 + 256 * (v / 256)
      split v = omega arith

  abbrev reversed : ℕ → ℕ
  reversed v = v / 2 ^ 24 + 256 * (v / 2 ^ 16 % 256 + 256 * (v / 2 ^ 8 % 256 + 256 * (v % 256)))

  swap32 : (v : ℕ) → IsU32 v → bswap32 v ≡ reversed v
  swap32 v h =
      ap bswap32 (split v)
      ∙ bswap32_lem (v % 256) (v / 2 ^ 8 % 256) (v / 2 ^ 16 % 256) (v / 2 ^ 24) (omega arith)
          (omega arith) (omega arith) (omega arith)
    where
      split :
          (v : ℕ)
          → v ≡ v % 256 + 256 * (v / 2 ^ 8 % 256 + 256 * (v / 2 ^ 16 % 256 + 256 * (v / 2 ^ 24)))
      split v = omega arith

  swap64 : (v : ℕ) → IsU64 v → bswap64 v ≡ reversed (v / 2 ^ 32) + 2 ^ 32 * reversed (v % 2 ^ 32)
  swap64 v h =
      ap bswap64 (split v)
      ∙ bswap64_lem (v % 2 ^ 32) (v / 2 ^ 32) (omega arith) (omega arith)
      ∙ omega (arith, swap32 (v / 2 ^ 32) (omega arith), swap32 (v % 2 ^ 32) (omega arith))
    where
      split : (v : ℕ) → v ≡ v % 2 ^ 32 + 2 ^ 32 * (v / 2 ^ 32)
      split v = omega arith

  pub enc2_lem : (w : Writer) (v : ℕ) → IsU16 v → enc2 sw w v ≡ put_bytes w (be_bytes 2 v)
  unfolding enc2
  enc2_lem w v h = rw (swap16 v h) (ground arith)

  enc3_lem : (w : Writer) (v : ℕ) → IsU24 v → enc3 sw w v ≡ put_bytes w (be_bytes 3 v)
  unfolding enc3
  enc3_lem w v h = rw (swap32 (v * 2 ^ 8 % 2 ^ 32) (omega arith)) (ground arith)

  pub enc4_lem : (w : Writer) (v : ℕ) → IsU32 v → enc4 sw w v ≡ put_bytes w (be_bytes 4 v)
  unfolding enc4
  enc4_lem w v h = rw (swap32 v h) (ground arith)

  enc8_lem : (w : Writer) (v : ℕ) → IsU64 v → enc8 sw w v ≡ put_bytes w (be_bytes 8 v)
  unfolding enc8
  enc8_lem w v h = rw (swap64 v h) (ground arith)

  -- Each fixed-width encoder writes the bytes of a value of its width in network byte order.
  pub enc-be_bytes :
      (w : Writer) (a b c d : ℕ)
      → IsU16 a
      → IsU24 b
      → IsU32 c
      → IsU64 d
      → (enc2 sw w a ≡ put_bytes w (be_bytes 2 a))
        × (enc3 sw w b ≡ put_bytes w (be_bytes 3 b))
        × (enc4 sw w c ≡ put_bytes w (be_bytes 4 c))
        × (enc8 sw w d ≡ put_bytes w (be_bytes 8 d))
  enc-be_bytes w a b c d ha hb hc hd =
      (enc2_lem w a ha, enc3_lem w b hb, enc4_lem w c hc, enc8_lem w d hd)

  dec2_lem : (v : ℕ) (rest : List ℕ) → IsU16 v → dec2 sw (be_bytes 2 v ++ rest) ≡ some (v, rest)
  unfolding dec2
  dec2_lem v rest h = ground (arith, bswap16_lem (v / 2 ^ 8 % 256) (v % 256))

  dec3_lem :
      (old v : ℕ) (rest : List ℕ)
      → IsU24 v
      → IsU32 old
      → dec3 sw old (be_bytes 3 v ++ rest) ≡ some (v, rest)
  unfolding dec3
  dec3_lem old v rest h k = ground (arith, swap32 (kept * 2 ^ 8 % 2 ^ 32) (omega arith))
    where
      kept : ℕ
      kept =
          v / 2 ^ 16 % 256
          + 256 * (v / 2 ^ 8 % 256 + 256 * (v / 2 ^ 0 % 256 + 256 * 0))
          + old / 2 ^ 24 * 2 ^ 24

  dec4_lem : (v : ℕ) (rest : List ℕ) → IsU32 v → dec4 sw (be_bytes 4 v ++ rest) ≡ some (v, rest)
  unfolding dec4
  dec4_lem v rest h =
      ground (arith, bswap32_lem (v / 2 ^ 24 % 256) (v / 2 ^ 16 % 256) (v / 2 ^ 8 % 256) (v % 256))

  swap32_back : (v : ℕ) → IsU32 v → bswap32 (reversed v) ≡ v
  swap32_back v h =
      bswap32_lem (v / 2 ^ 24) (v / 2 ^ 16 % 256) (v / 2 ^ 8 % 256) (v % 256) (omega arith)
        (omega arith) (omega arith) (omega arith)
      ∙ omega arith

  swap64_back :
      (v : ℕ) → IsU64 v → bswap64 (reversed (v / 2 ^ 32) + 2 ^ 32 * reversed (v % 2 ^ 32)) ≡ v
  swap64_back v h =
      bswap64_lem (reversed (v / 2 ^ 32)) (reversed (v % 2 ^ 32)) (omega arith) (omega arith)
      ∙ omega
          (arith, swap32_back (v / 2 ^ 32) (omega arith), swap32_back (v % 2 ^ 32) (omega arith))

  loaded8 :
      (v : ℕ)
      → IsU64 v
      → le_value (be_bytes 8 v) ≡ reversed (v / 2 ^ 32) + 2 ^ 32 * reversed (v % 2 ^ 32)
  loaded8 v h = omega arith

  dec8_lem : (v : ℕ) (rest : List ℕ) → IsU64 v → dec8 sw (be_bytes 8 v ++ rest) ≡ some (v, rest)
  unfolding dec8
  dec8_lem v rest h = rw (loaded8 v h, swap64_back v h) (ground arith)

  -- Each fixed-width decoder reads back a value of its width from its bytes in network byte order
  -- and leaves what follows; dec3 does so whatever its target held before.
  pub dec-be_bytes :
      (old a b c d : ℕ) (rest : List ℕ)
      → IsU32 old
      → IsU16 a
      → IsU24 b
      → IsU32 c
      → IsU64 d
      → (dec2 sw (be_bytes 2 a ++ rest) ≡ some (a, rest))
        × (dec3 sw old (be_bytes 3 b ++ rest) ≡ some (b, rest))
        × (dec4 sw (be_bytes 4 c ++ rest) ≡ some (c, rest))
        × (dec8 sw (be_bytes 8 d ++ rest) ≡ some (d, rest))
  dec-be_bytes old a b c d rest ho ha hb hc hd =
      (dec2_lem a rest ha, dec3_lem old b rest hb ho, dec4_lem c rest hc, dec8_lem d rest hd)
