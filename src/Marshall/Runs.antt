-- ===== src/Marshall/Runs.antt =====
-- The theorems about lib/src/marshall.c at concrete inputs, and runs of the code.
use quant.Base.{
  ℕ, ◌+◌, ◌*◌, ◌/◌, ◌%◌, ◌^◌, ◌<◌, ◌≡◌, ◌↔◌, refl, List, [], ◌∷◌, ◌++◌, some, none, arith, length,
}
use quant.Marshall.Buffer.{Writer, put_bytes, ByteSwap}
use quant.Marshall.Enc.{enc1, encv, encvl, enc_padded, varint_size}
use quant.Marshall.Dec.{decv, sum8}
use quant.Marshall.Varint.{encv_lem, varint_bytes}
use quant.Marshall.RoundTrip.{decv-encv, decv-encv_iff, decv_bounds}

swap2 : ℕ → ℕ
swap2 v = v % 256 * 256 + v / 256 % 256

swap4 : ℕ → ℕ
swap4 v = v % 256 * 2 ^ 24 + v / 2 ^ 8 % 256 * 2 ^ 16 + v / 2 ^ 16 % 256 * 2 ^ 8 + v / 2 ^ 24 % 256

swap8 : ℕ → ℕ
swap8 v = swap4 (v % 2 ^ 32) * 2 ^ 32 + swap4 (v / 2 ^ 32)

swap2_lem : (a b : ℕ) → a < 256 → b < 256 → swap2 (a + 256 * b) ≡ b + 256 * a
unfolding swap2
swap2_lem a b ha hb = omega arith

swap4_lem :
    (a b c d : ℕ)
    → a < 256
    → b < 256
    → c < 256
    → d < 256
    → swap4 (a + 256 * (b + 256 * (c + 256 * d))) ≡ d + 256 * (c + 256 * (b + 256 * a))
unfolding swap4
swap4_lem a b c d ha hb hc hd = omega arith

swap8_lem :
    (lo hi : ℕ)
    → lo < 2 ^ 32
    → hi < 2 ^ 32
    → swap8 (lo + 2 ^ 32 * hi) ≡ swap4 hi + 2 ^ 32 * swap4 lo
unfolding swap8
swap8_lem lo hi hl hh = ground (arith, low, high)
  where
    low : (lo + 2 ^ 32 * hi) % 2 ^ 32 ≡ lo
    low = omega arith

    high : (lo + 2 ^ 32 * hi) / 2 ^ 32 ≡ hi
    high = omega arith

-- Byte swaps that a compiler could have generated.
pub swaps : ByteSwap
swaps = record {
  bswap16 = swap2;
  bswap32 = swap4;
  bswap64 = swap8;
  bswap16_lem = swap2_lem;
  bswap32_lem = swap4_lem;
  bswap64_lem = swap8_lem;
}

abbrev pub room16 : Writer
room16 = record { out = 7 ∷ []; room = 16 }

encv_run : encv room16 15293 ≡ some (record { out = 7 ∷ 0x7b ∷ 0xbd ∷ []; room = 14 })
unfolding encv put_bytes
encv_run = refl

-- The eight-byte example of RFC 9000 is misread: its second byte counts twice.
decv_run :
    decv 0 (0xc2 ∷ 0x19 ∷ 0x7c ∷ 0x5e ∷ 0xff ∷ 0x14 ∷ 0xe8 ∷ 0x8c ∷ [])
    ≡ some (151288809941952652 + 0x19 * 2 ^ 48, [])
unfolding decv sum8
decv_run = refl

encv_lem_example : encv room16 15293 ≡ some (record { out = 7 ∷ 0x7b ∷ 0xbd ∷ []; room = 14 })
unfolding varint_bytes
encv_lem_example = encv_lem room16 15293 (omega arith)

decv-encv_example :
    (bytes : List ℕ) × (7 ∷ 0x7b ∷ 0xbd ∷ [] ≡ 7 ∷ bytes)
    × (decv 9 (bytes ++ 5 ∷ []) ≡ some (15293, 5 ∷ []))
decv-encv_example = decv-encv room16 _ 9 15293 (5 ∷ []) (omega arith) encv_run

wide_run :
    encv (record { out = []; room = 8 }) (2 ^ 48)
    ≡ some (record { out = 0xc0 ∷ 1 ∷ 0 ∷ 0 ∷ 0 ∷ 0 ∷ 0 ∷ 0 ∷ []; room = 0 })
unfolding encv put_bytes
wide_run = refl

decv-encv_iff_example :
    (decv 0 (0xc0 ∷ 1 ∷ 0 ∷ 0 ∷ 0 ∷ 0 ∷ 0 ∷ 0 ∷ []) ≡ some (2 ^ 48, [])) ↔ (◌≡◌ {A = ℕ} 1 0)
decv-encv_iff_example = decv-encv_iff _ 0 (2 ^ 48) 8 [] (omega arith) wide_run

decv_bounds_example :
    ((decv 0 (0x80 ∷ 1 ∷ []) ≡ none) ↔ (2 < 4))
    × ((v : ℕ) (rest : List ℕ) → decv 0 (0x80 ∷ 1 ∷ []) ≡ some (v, rest) → length rest + 4 ≡ 2)
decv_bounds_example = decv_bounds 0 (0x80 ∷ 1 ∷ []) (omega arith)

padded_run : encvl swaps room16 5 4 ≡ some (record { out = 7 ∷ 0x80 ∷ 0 ∷ 0 ∷ 5 ∷ []; room = 12 })
unfolding encvl varint_size enc_padded enc1 put_bytes swaps swap2
padded_run = refl
