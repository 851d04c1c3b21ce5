-- ===== src/Marshall/Dec.antt =====
-- The decoders of lib/src/marshall.c. A decoder reads the bytes from `*pos` up to `end`; it returns
-- the value and the bytes left, or `none` where the C function returns false and moves nothing.
use quant.Base.{
  ℕ, ◌+◌, ◌*◌, ◌/◌, ◌%◌, ◌^◌, List, Option, none, some, bit_and, ltb, ◌==◌, length, take, drop,
  get_or, if◌then◌else◌,
}
use quant.Marshall.Buffer.{le_value, ByteSwap}

unfoldable pub dec1 : List ℕ → Option (ℕ × List ℕ)
dec1 inp = if ltb (length inp) 1 then none else some (get_or inp 0 0, drop 1 inp)

-- `(uint64_t)b << k`
abbrev pub shl : ℕ → ℕ → ℕ
shl b k = b * 2 ^ k

-- The sum of the eight-byte case, as the source writes it.
unfoldable pub sum8 : List ℕ → ℕ
sum8 inp =
    (shl (bit_and (get_or inp 0 0) 0x3f) 56
      + shl (get_or inp 1 0) 48
      + shl (get_or inp 1 0) 48
      + shl (get_or inp 2 0) 40
      + shl (get_or inp 3 0) 32
      + shl (get_or inp 4 0) 24
      + shl (get_or inp 5 0) 16
      + shl (get_or inp 6 0) 8
      + shl (get_or inp 7 0) 0)
    % 2 ^ 64

unfoldable pub sum4 : List ℕ → ℕ
sum4 inp =
    shl (bit_and (get_or inp 0 0) 0x3f) 24
    + shl (get_or inp 1 0) 16
    + shl (get_or inp 2 0) 8
    + shl (get_or inp 3 0) 0

unfoldable pub sum2 : List ℕ → ℕ
sum2 inp = shl (bit_and (get_or inp 0 0) 0x3f) 8 + get_or inp 1 0

-- `past` is the byte at `end`: `**pos` is read before any bound is checked.
unfoldable pub decv : ℕ → List ℕ → Option (ℕ × List ℕ)
decv past inp =
    let top = bit_and (get_or inp 0 past) 0xc0 in
    if top == 0xc0
    then (if ltb (length inp) 8 then none else some (sum8 inp, drop 8 inp))
    else if top == 0x80
    then (if ltb (length inp) 4 then none else some (sum4 inp, drop 4 inp))
    else if top == 0x40
    then (if ltb (length inp) 2 then none else some (sum2 inp, drop 2 inp))
    else if top == 0x00
    then (if ltb (length inp) 1 then none else some (bit_and (get_or inp 0 0) 0x3f, drop 1 inp))
    else none

unfoldable pub decb : ℕ → List ℕ → Option (List ℕ × List ℕ)
decb len inp = if ltb (length inp) len then none else some (take len inp, drop len inp)

module _ (sw : ByteSwap) where
  open sw use {bswap16, bswap32, bswap64}

  unfoldable pub dec2 : List ℕ → Option (ℕ × List ℕ)
  dec2 inp = if ltb (length inp) 2 then none else some (bswap16 (le_value (take 2 inp)), drop 2 inp)

  -- `old` is what `*val` held: `memcpy` replaces its three low bytes only.
  unfoldable pub dec3 : ℕ → List ℕ → Option (ℕ × List ℕ)
  dec3 old inp =
      if ltb (length inp) 3
      then none
      else some
          (bswap32 ((le_value (take 3 inp) + old / 2 ^ 24 * 2 ^ 24) * 2 ^ 8 % 2 ^ 32), drop 3 inp)

  unfoldable pub dec4 : List ℕ → Option (ℕ × List ℕ)
  dec4 inp = if ltb (length inp) 4 then none else some (bswap32 (le_value (take 4 inp)), drop 4 inp)

  unfoldable pub dec8 : List ℕ → Option (ℕ × List ℕ)
  dec8 inp = if ltb (length inp) 8 then none else some (bswap64 (le_value (take 8 inp)), drop 8 inp)
