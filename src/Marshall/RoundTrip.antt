-- ===== src/Marshall/RoundTrip.antt =====
-- What decv reads of what encv and encvl wrote, and how the two fail.
use quant.Base.{
  ℕ, ◌+◌, ◌*◌, ◌/◌, ◌%◌, ◌^◌, ◌<◌, ◌≡◌, ◌↔◌, List, [], ◌∷◌, ◌++◌, Option, none, some, bit_and, ltb,
  length, get_or, if◌then◌else◌, arith, bit_and-run, IsByte, drop, length-drop,
}
use quant.Marshall.Buffer.{Writer}
use quant.Marshall.Enc.{encv}
use quant.Marshall.Dec.{decv, sum8, sum4, sum2}
use quant.Marshall.Varint.{varint_bytes, six_bits, encv_lem}

top_bits : (b : ℕ) → bit_and b 0xc0 ≡ b / 64 % 4 * 64
top_bits = bit_and-run 6 2

-- What the eight-byte case adds to the value: its second byte once more.
abbrev pub second_byte : ℕ → ℕ
second_byte v = v / 2 ^ 48 % 256 * 2 ^ 48

pub decv1 : (past b : ℕ) (rest : List ℕ) → b < 64 → decv past (b ∷ rest) ≡ some (b, rest)
unfolding decv
decv1 past b rest h = simp (top_bits, six_bits) (ground arith)

pub decv2 :
    (past a b : ℕ) (rest : List ℕ)
    → a < 64
    → decv past ((a + 64) ∷ b ∷ rest) ≡ some (a * 2 ^ 8 + b, rest)
unfolding decv sum2
decv2 past a b rest h = simp (top_bits, six_bits) (ground arith)

pub decv4 :
    (past a b c d : ℕ) (rest : List ℕ)
    → a < 64
    → decv past ((a + 128) ∷ b ∷ c ∷ d ∷ rest)
      ≡ some (a * 2 ^ 24 + b * 2 ^ 16 + c * 2 ^ 8 + d, rest)
unfolding decv sum4
decv4 past a b c d rest h = simp (top_bits, six_bits) (ground arith)

pub decv8 :
    (past a b c d e f g h : ℕ) (rest : List ℕ)
    → a < 64
    → decv past ((a + 192) ∷ b ∷ c ∷ d ∷ e ∷ f ∷ g ∷ h ∷ rest)
      ≡ some (
        (a * 2 ^ 56
              + b * 2 ^ 48
              + b * 2 ^ 48
              + c * 2 ^ 40
              + d * 2 ^ 32
              + e * 2 ^ 24
              + f * 2 ^ 16
              + g * 2 ^ 8
              + h)
            % 2 ^ 64,
        rest,
      )
unfolding decv sum8
decv8 past a b c d e f g h rest lt = simp (top_bits, six_bits) (ground arith)

pub decv-varint_bytes :
    (past v : ℕ) (rest : List ℕ)
    → v < 2 ^ 62
    → decv past (varint_bytes v ++ rest)
      ≡ some ((if ltb v (2 ^ 30) then v else v + second_byte v), rest)
unfolding varint_bytes
decv-varint_bytes past v rest h = ground (
  arith,
  decv1 past v rest,
  decv2 past (v / 2 ^ 8) (v % 256) rest,
  decv4 past (v / 2 ^ 24) (v / 2 ^ 16 % 256) (v / 2 ^ 8 % 256) (v % 256) rest,
  decv8 past (v / 2 ^ 56) (v / 2 ^ 48 % 256) (v / 2 ^ 40 % 256) (v / 2 ^ 32 % 256)
      (v / 2 ^ 24 % 256) (v / 2 ^ 16 % 256) (v / 2 ^ 8 % 256) (v % 256) rest,
)

pub encv-out :
    (w w' : Writer) (v : ℕ) → v < 2 ^ 62 → encv w v ≡ some w' → w'.out ≡ w.out ++ varint_bytes v
encv-out w w' v h e = ground (arith, encv_lem w v)

-- Whatever encv wrote behind the bytes already in the buffer, decv reads back as the same value,
-- and it leaves what follows, for every value below 2 ^ 48.
pub decv-encv :
    (w w' : Writer) (past v : ℕ) (rest : List ℕ)
    → v < 2 ^ 48
    → encv w v ≡ some w'
    → (bytes : List ℕ) × (w'.out ≡ w.out ++ bytes) × (decv past (bytes ++ rest) ≡ some (v, rest))
decv-encv w w' past v rest h e =
    (varint_bytes v, encv-out w w' v (omega arith) e, ground (arith, decv-varint_bytes past v rest))

-- For all 62-bit values the round trip through an empty buffer holds exactly when bits 48 to 55 of
-- the value are zero, because decv adds the second byte of the eight-byte form twice.
pub decv-encv_iff :
    (w' : Writer) (past v room : ℕ) (rest : List ℕ)
    → v < 2 ^ 62
    → encv (record { out = []; room = room }) v ≡ some w'
    → (decv past (w'.out ++ rest) ≡ some (v, rest)) ↔ (v / 2 ^ 48 % 256 ≡ 0)
decv-encv_iff w' past v room rest h e =
    rw (encv-out _ w' v h e, decv-varint_bytes past v rest h) (ground arith)

-- The number of bytes that the first byte announces.
abbrev pub announced : ℕ → ℕ
announced b = if ltb b 64 then 1 else if ltb b 128 then 2 else if ltb b 192 then 4 else 8

-- The four cases in one, each with the sum that it computes.
decv_form :
    (past : ℕ) (inp : List ℕ)
    → IsByte (get_or inp 0 past)
    → decv past inp ≡ (
        if ltb (length inp) (announced (get_or inp 0 past))
        then none
        else some (
          (if ltb (get_or inp 0 past) 64
              then bit_and (get_or inp 0 0) 0x3f
              else if ltb (get_or inp 0 past) 128
              then sum2 inp
              else if ltb (get_or inp 0 past) 192
              then sum4 inp
              else sum8 inp),
          drop (announced (get_or inp 0 past)) inp,
        ))
unfolding decv
decv_form past inp h = ground (arith, top_bits (get_or inp 0 past))

-- A decoder that takes `n` bytes for the value `x`, or fails.
abbrev taken : List ℕ → ℕ → ℕ → Option (ℕ × List ℕ)
taken inp n x = if ltb (length inp) n then none else some (x, drop n inp)

taken_bounds :
    (inp : List ℕ) (n x : ℕ)
    → ((taken inp n x ≡ none) ↔ (length inp < n))
      × ((v : ℕ) (rest : List ℕ) → taken inp n x ≡ some (v, rest) → length rest + n ≡ length inp)
taken_bounds inp n x = ground (arith, length-drop n inp)

-- On every input of bytes decv fails exactly when fewer bytes are left than the first one
-- announces, and it never moves past that many; if no byte is left it fails whatever byte it finds
-- at the end.
pub decv_bounds :
    (past : ℕ) (inp : List ℕ)
    → IsByte (get_or inp 0 past)
    → ((decv past inp ≡ none) ↔ (length inp < announced (get_or inp 0 past)))
      × ((v : ℕ) (rest : List ℕ)
          → decv past inp ≡ some (v, rest)
          → length rest + announced (get_or inp 0 past) ≡ length inp)
decv_bounds past inp h = rw (decv_form past inp h) (taken_bounds inp _ _)
