-- ===== src/Marshall/Varint.antt =====
-- The variable-length integers of lib/src/marshall.c against plain arithmetic.
use quant.Base.{
  ℕ, ◌+◌, ◌-◌, ◌*◌, ◌/◌, ◌%◌, ◌^◌, ◌≤◌, ◌<◌, ◌≡◌, List, [], ◌∷◌, ◌++◌, none, some, bit_and, ltb,
  leb, length, All, if◌then◌else◌, arith, bit_and-ones, bit_and-run, IsByte, IsU64,
}
use quant.Marshall.Buffer.{Writer, put_bytes}
use quant.Marshall.Enc.{varint_mask, varint_mask8, varint_mask4, varint_mask2, varint_size, encv}

-- The length that RFC 9000 gives a value below 2 ^ 62.
abbrev pub size_class : ℕ → ℕ
size_class v = if ltb v 64 then 1 else if ltb v (2 ^ 14) then 2 else if ltb v (2 ^ 30) then 4 else 8

-- The bytes that RFC 9000 gives it: big-endian, with the length in the two top bits.
unfoldable pub varint_bytes : ℕ → List ℕ
varint_bytes v =
    if ltb v 64
    then v ∷ []
    else if ltb v (2 ^ 14)
    then (v / 2 ^ 8 + 64) ∷ v % 256 ∷ []
    else if ltb v (2 ^ 30)
    then (v / 2 ^ 24 + 128) ∷ v / 2 ^ 16 % 256 ∷ v / 2 ^ 8 % 256 ∷ v % 256 ∷ []
    else (v / 2 ^ 56 + 192)
      ∷ v / 2 ^ 48 % 256
      ∷ v / 2 ^ 40 % 256
      ∷ v / 2 ^ 32 % 256
      ∷ v / 2 ^ 24 % 256
      ∷ v / 2 ^ 16 % 256
      ∷ v / 2 ^ 8 % 256
      ∷ v % 256
      ∷ []

mask_top : (v : ℕ) → bit_and v varint_mask ≡ v / 2 ^ 62 % 4 * 2 ^ 62
mask_top = bit_and-run 62 2

mask8 : (v : ℕ) → bit_and v varint_mask8 ≡ v / 2 ^ 30 % 2 ^ 32 * 2 ^ 30
mask8 = bit_and-run 30 32

mask4 : (v : ℕ) → bit_and v varint_mask4 ≡ v / 2 ^ 14 % 2 ^ 16 * 2 ^ 14
mask4 = bit_and-run 14 16

mask2 : (v : ℕ) → bit_and v varint_mask2 ≡ v / 2 ^ 6 % 2 ^ 8 * 2 ^ 6
mask2 = bit_and-run 6 8

pub six_bits : (v : ℕ) → bit_and v 0x3f ≡ v % 64
six_bits = bit_and-ones 6

low_byte : (v : ℕ) → bit_and v 0xff ≡ v % 256
low_byte = bit_and-ones 8

-- varint_size gives the length of RFC 9000 for every value of at most 62 bits, and fails its
-- assertion for every other 64-bit value.
pub varint_size_lem :
    (v : ℕ) → IsU64 v → varint_size v ≡ (if ltb v (2 ^ 62) then some (size_class v) else none)
unfolding varint_size
varint_size_lem v h = ground (arith, mask_top v, mask8 v, mask4 v, mask2 v)

pub length-varint_bytes : (v : ℕ) → length (varint_bytes v) ≡ size_class v
unfolding varint_bytes
length-varint_bytes v = ground arith

pub varint_bytes-IsByte : (v : ℕ) → v < 2 ^ 62 → All IsByte (varint_bytes v)
unfolding varint_bytes
varint_bytes-IsByte v h = ground arith

pub encv_bytes : (w : Writer) (v : ℕ) → v < 2 ^ 62 → encv w v ≡ put_bytes w (varint_bytes v)
unfolding encv varint_bytes
encv_bytes w v h = simp (mask_top, mask8, mask4, mask2, six_bits, low_byte) (ground arith)

encv-none : (w : Writer) (v : ℕ) → IsU64 v → 2 ^ 62 ≤ v → encv w v ≡ none
unfolding encv
encv-none w v h k = simp (mask_top) (ground arith)

-- On every 64-bit value encv writes the bytes of RFC 9000 if the value has at most 62 bits and the
-- buffer has room for as many bytes as varint_size says, and otherwise fails an assertion.
pub encv_lem :
    (w : Writer) (v : ℕ)
    → IsU64 v
    → encv w v ≡ (
        if ltb v (2 ^ 62)
        then (if leb (size_class v) w.room
            then some (record w { out = w.out ++ varint_bytes v; room = w.room - size_class v })
            else none)
        else none)
unfolding put_bytes
encv_lem w v h = ground (arith, encv-none w v h, encv_bytes w v, length-varint_bytes v)
