-- ===== src/Marshall/Enc.antt =====
-- The encoders of lib/src/marshall.c. An argument of a C type narrower than its caller's value is
-- cast at the call, as in the source.
use quant.Base.{
  ℕ, ◌+◌, ◌*◌, ◌/◌, ◌%◌, ◌^◌, List, [], ◌∷◌, Option, none, some, bit_and, leb, ◌==◌, not, take,
  ◌>>=◌, if◌then◌else◌,
}
use quant.Marshall.Buffer.{Writer, put_bytes, le_bytes, ByteSwap}

abbrev pub varint_mask : ℕ
varint_mask = 0xc000_0000_0000_0000

abbrev pub varint_mask8 : ℕ
varint_mask8 = 0x3fff_ffff_c000_0000

abbrev pub varint_mask4 : ℕ
varint_mask4 = 0x0000_0000_3fff_c000

abbrev pub varint_mask2 : ℕ
varint_mask2 = 0x0000_0000_0000_3fc0

-- `none` is the failed `assure` on a value of more than 62 bits.
unfoldable pub varint_size : ℕ → Option ℕ
varint_size val =
    if not (bit_and val varint_mask == 0)
    then none
    else if not (bit_and val varint_mask8 == 0)
    then some 8
    else if not (bit_and val varint_mask4 == 0)
    then some 4
    else if not (bit_and val varint_mask2 == 0)
    then some 2
    else some 1

unfoldable pub enc1 : Writer → ℕ → Option Writer
enc1 w val = put_bytes w (val ∷ [])

-- `val >> k`
abbrev pub shr : ℕ → ℕ → ℕ
shr val k = val / 2 ^ k

unfoldable pub encv : Writer → ℕ → Option Writer
encv w val =
    if not (bit_and val varint_mask == 0)
    then none
    else if not (bit_and val varint_mask8 == 0)
    then put_bytes w (
        (bit_and (shr val 56) 0x3f + 0xc0)
        ∷ bit_and (shr val 48) 0xff
        ∷ bit_and (shr val 40) 0xff
        ∷ bit_and (shr val 32) 0xff
        ∷ bit_and (shr val 24) 0xff
        ∷ bit_and (shr val 16) 0xff
        ∷ bit_and (shr val 8) 0xff
        ∷ bit_and val 0xff
        ∷ [])
    else if not (bit_and val varint_mask4 == 0)
    then put_bytes w (
        (bit_and (shr val 24) 0x3f + 0x80)
        ∷ bit_and (shr val 16) 0xff
        ∷ bit_and (shr val 8) 0xff
        ∷ bit_and val 0xff
        ∷ [])
    else if not (bit_and val varint_mask2 == 0)
    then put_bytes w ((bit_and (shr val 8) 0x3f + 0x40) ∷ bit_and val 0xff ∷ [])
    else put_bytes w (bit_and val 0x3f ∷ [])

-- `val` is a buffer of at least `len` bytes.
unfoldable pub encb : Writer → List ℕ → ℕ → Option Writer
encb w val len = put_bytes w (take len val)

module _ (sw : ByteSwap) where
  open sw use {bswap16, bswap32, bswap64}

  unfoldable pub enc2 : Writer → ℕ → Option Writer
  enc2 w val = put_bytes w (le_bytes 2 (bswap16 val))

  -- Three of the four bytes of the swapped word.
  unfoldable pub enc3 : Writer → ℕ → Option Writer
  enc3 w val = put_bytes w (le_bytes 3 (bswap32 (val * 2 ^ 8 % 2 ^ 32)))

  unfoldable pub enc4 : Writer → ℕ → Option Writer
  enc4 w val = put_bytes w (le_bytes 4 (bswap32 val))

  unfoldable pub enc8 : Writer → ℕ → Option Writer
  enc8 w val = put_bytes w (le_bytes 8 (bswap64 val))

  -- The three ways to pad; any other length writes nothing.
  unfoldable pub enc_padded : Writer → ℕ → ℕ → Option Writer
  unfolding enc2 enc4
  enc_padded w val len =
      if len == 2
      then (do w1 ← enc1 w 0x40; enc1 w1 (val % 2 ^ 8))
      else if len == 4
      then (do w1 ← enc1 w 0x80; w2 ← enc1 w1 0x00; enc2 w2 (val % 2 ^ 16))
      else if len == 8
      then (do w1 ← enc1 w 0xc0; w2 ← enc1 w1 0x00; w3 ← enc2 w2 0x00; enc4 w3 (val % 2 ^ 32))
      else some w

  unfoldable pub encvl : Writer → ℕ → ℕ → Option Writer
  encvl w val len = do
    len_needed ← varint_size val
    if leb len_needed len
        then (if len_needed == len then encv w val else enc_padded w val len)
        else none
