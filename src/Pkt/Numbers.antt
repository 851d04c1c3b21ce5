-- ===== src/Pkt/Numbers.antt =====
-- Packet numbers on the wire: `needed_pkt_nr_len`, the part of `enc_pkt` that writes the number and
-- the part of `undo_hp` that reads it, without the mask, of lib/src/pkt.c.
use quant.Base.{
  ℕ, ◌+◌, ◌-◌, ◌*◌, ◌/◌, ◌%◌, ◌^◌, ◌&&◌, Option, some, List, [], ◌∷◌, ltb, leb, ◌==◌, if◌then◌else◌,
  ◌>>=◌, uint_t_max, add64, sub64, mul64,
}
use quant.Diet.Tree.{Diet, Ival, flatten}
use quant.Marshall.Buffer.{Writer, ByteSwap}
use quant.Marshall.Enc.{enc1, enc2, enc3, enc4}
use quant.Marshall.Dec.{dec1, dec2, dec3, dec4}

unfoldable pub needed_pkt_nr_len : ℕ → ℕ → ℕ
needed_pkt_nr_len lg_acked n =
    let d = mul64 (sub64 n (if lg_acked == uint_t_max then 0 else lg_acked)) 2 in
    if leb d 0xff
    then 1
    else if leb d 0xffff
    then 2
    else if leb d (0xffffffff / 2 ^ 8)
    then 3
    else 4

-- The end of the last interval; 0 for an empty diet.
abbrev pub last_hi : List Ival → ℕ
last_hi [] = 0
last_hi (i ∷ []) = i.hi
last_hi (i ∷ j ∷ is) = last_hi (j ∷ is)

unfoldable pub diet_max : Diet → ℕ
diet_max d = last_hi (flatten d.root)

-- The number whose low bits, as many as the window has, are `nr`, made from the expected one.
unfoldable pub restore_nr : ℕ → ℕ → ℕ → ℕ
restore_nr expected_pn pnl low =
    let pn_win = 2 ^ (pnl * 8) in
    let pn_hwin = pn_win / 2 in
    let nr = low + expected_pn / pn_win * pn_win in
    if leb (add64 nr pn_hwin) expected_pn && ltb (add64 nr pn_hwin) (2 ^ 62)
    then add64 nr pn_win
    else if ltb (add64 expected_pn pn_hwin) nr && leb pn_win nr
    then nr - pn_win
    else nr

module _ (sw : ByteSwap) where
  -- The low bytes of the number.
  unfoldable pub enc_pkt_nr : Writer → ℕ → ℕ → Option Writer
  unfolding enc1 enc2 enc3 enc4
  enc_pkt_nr w pnl nr =
      if pnl == 1
      then enc1 w (nr % 2 ^ 8)
      else if pnl == 2
      then enc2 sw w (nr % 2 ^ 16)
      else if pnl == 3
      then enc3 sw w (nr % 2 ^ 24)
      else enc4 sw w (nr % 2 ^ 32)

  -- `old` is what the variable of the three-byte form holds before.
  unfoldable pub dec_low : ℕ → ℕ → List ℕ → Option (ℕ × List ℕ)
  unfolding dec1 dec2 dec3 dec4
  dec_low old pnl inp =
      if pnl == 1
      then dec1 inp
      else if pnl == 2
      then dec2 sw inp
      else if pnl == 3
      then dec3 sw old inp
      else dec4 sw inp

  unfoldable pub dec_pkt_nr : ℕ → Diet → ℕ → List ℕ → Option (ℕ × List ℕ)
  unfolding dec_low restore_nr diet_max
  dec_pkt_nr old recv pnl inp =
      dec_low old pnl inp >>= (λ r. some (restore_nr (add64 (diet_max recv) 1) pnl r.0, r.1))
