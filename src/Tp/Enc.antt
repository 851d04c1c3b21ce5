-- ===== src/Tp/Enc.antt =====
-- init_tp of lib/src/tls.c: which transport parameters an end announces, in which order, and how they
-- are written. `none` is a failed check.
use quant.Base.{
  ℕ, zero, suc, ◌+◌, ◌>>=◌, Bool, true, false, not, ◌&&◌, Option, none, some, List, [], ◌∷◌, ◌==◌,
  if◌then◌else◌, drop, get_or, bit_and,
}
use quant.Cid.Lists.{Cid}
use quant.Cid.Deref.{deref_cid}
use quant.Conn.State.{Conn, TransportParams, PrefAddr}
use quant.Marshall.Buffer.{Writer}
use quant.Marshall.Enc.{varint_size, encv, enc1, encb}
use quant.Frame.Paths.{srt_len}
use quant.Ack.Ops.{def_ack_del_exp}
use quant.Recovery.Congestion.{min_ini_len}
use quant.Tp.Params.{
  Param, dcid_o, idto, srt, mups, imd, imsd_bl, imsd_br, imsd_u, imsb, imsu, ade, mad, dmig, prfa,
  acil, scid_i, scid_r, param_nr, param_of, tp_qbg, tp_qr, no_len, cid_of_len,
}

unfoldable pub enc_tp : Writer → ℕ → ℕ → Option Writer
unfolding encv varint_size
enc_tp w tp val = do w1 ← encv w tp; n ← varint_size val; w2 ← encv w1 n; encv w2 val

unfoldable pub enc_tp_empty : Writer → ℕ → Option Writer
unfolding encv
enc_tp_empty w tp = do w1 ← encv w tp; encv w1 0

-- Without a value, only the number and the length are written.
unfoldable pub encb_tp : Writer → ℕ → Option (List ℕ) → ℕ → Option Writer
unfolding encv encb
encb_tp w tp val len = do
  w1 ← encv w tp
  w2 ← encv w1 len
  elim val [ none ↦ some w2 | some bytes ↦ encb w2 bytes len ]

abbrev pub def_max_ack_del : ℕ
def_max_ack_del = 25

-- The member of the own parameters that is announced under a number.
unfoldable pub mine : Param → TransportParams → ℕ
mine imsu tp = tp.max_strms_uni
mine imsd_u tp = tp.max_strm_data_uni
mine imsb tp = tp.max_strms_bidi
mine idto tp = tp.max_idle_to
mine imsd_br tp = tp.max_strm_data_bidi_remote
mine imsd_bl tp = tp.max_strm_data_bidi_local
mine imd tp = tp.max_data
mine ade tp = tp.ack_del_exp
mine mad tp = tp.max_ack_del
mine mups tp = tp.max_ups
mine acil tp = tp.act_cid_lim
mine _ tp = 0

-- Whether it is announced: not, where the peer assumes the value anyway.
unfoldable pub is_sent : Param → TransportParams → Bool
is_sent imsu tp = not (tp.max_strms_uni == 0)
is_sent imsd_u tp = not (tp.max_strm_data_uni == 0)
is_sent imsb tp = true
is_sent idto tp = not (tp.max_idle_to == 0)
is_sent imsd_br tp = true
is_sent imsd_bl tp = true
is_sent imd tp = true
is_sent ade tp = not (tp.ack_del_exp == def_ack_del_exp)
is_sent mad tp = not (tp.max_ack_del == def_max_ack_del)
is_sent mups tp = true
is_sent acil tp = not tp.disable_active_migration
is_sent _ tp = false

-- The parameters with a number.
unfoldable pub put_num : Writer → Param → TransportParams → Option Writer
unfolding enc_tp mine is_sent param_nr
put_num w p tp = if is_sent p tp then enc_tp w (param_nr p) (mine p tp) else some w

unfoldable pub put_pref_addr : Writer → PrefAddr → Option Writer
unfolding encb_tp encb enc1 param_nr
put_pref_addr w pa = do
  w1 ← encb_tp w (param_nr prfa) none (4 + 2 + 16 + 2 + 1 + pa.cid.len + srt_len)
  w2 ← encb w1 pa.ip4 4
  w3 ← encb w2 pa.port4 2
  w4 ← encb w3 pa.ip6 16
  w5 ← encb w4 pa.port6 2
  w6 ← enc1 w5 pa.cid.len
  w7 ← encb w6 pa.cid.id pa.cid.len
  encb w7 pa.cid.srt srt_len

-- The connection IDs of a server's token, and what is random.
pub record TpExtra : Type 0 where
  pub odcid : Cid
  pub rtry_scid : Cid
  pub grease_type : ℕ
  pub grease : List ℕ

-- A null pointer for the connection ID of a server stops the program.
unfoldable pub put_srt : Writer → Conn → Option Writer
unfolding deref_cid encb_tp param_nr
put_srt w c =
    if c.is_clnt
    then some w
    else (do k ← c.scid; id ← deref_cid c.scids k; encb_tp w (param_nr srt) (some id.srt) srt_len)

unfoldable pub put_dcid_o : Writer → Conn → TpExtra → Option Writer
unfolding encb_tp param_nr
put_dcid_o w c x =
    if c.is_clnt
    then some w
    else (let id = if not (x.odcid.len == no_len) then x.odcid else c.odcid in
        encb_tp w (param_nr dcid_o) (some id.id) id.len)

-- `c->scid ? c->scid : &zero_len_cid`
unfoldable pub own_cid : Conn → Option Cid
unfolding deref_cid
own_cid c = elim c.scid [ none ↦ some (cid_of_len 0) | some k ↦ deref_cid c.scids k ]

unfoldable pub put_scid_i : Writer → Conn → Option Writer
unfolding encb_tp param_nr own_cid
put_scid_i w c = do id ← own_cid c; encb_tp w (param_nr scid_i) (some id.id) id.len

unfoldable pub put_scid_r : Writer → Conn → TpExtra → Option Writer
unfolding encb_tp param_nr
put_scid_r w c x =
    if not c.is_clnt && not (x.rtry_scid.len == no_len)
    then encb_tp w (param_nr scid_r) (some x.rtry_scid.id) x.rtry_scid.len
    else some w

unfoldable pub put_prfa : Writer → Conn → Option Writer
unfolding put_pref_addr
put_prfa w c =
    if not c.is_clnt && not (c.tp_mine.pref_addr.cid.seq == 0)
    then put_pref_addr w c.tp_mine.pref_addr
    else some w

unfoldable pub put_dmig : Writer → Conn → Option Writer
unfolding enc_tp_empty param_nr
put_dmig w c = if c.tp_mine.disable_active_migration then enc_tp_empty w (param_nr dmig) else some w

unfoldable pub put_param : Writer → Conn → TpExtra → Param → Option Writer
unfolding put_num put_srt put_dcid_o put_scid_i put_scid_r put_prfa put_dmig
put_param w c x srt = put_srt w c
put_param w c x dcid_o = put_dcid_o w c x
put_param w c x scid_i = put_scid_i w c
put_param w c x scid_r = put_scid_r w c x
put_param w c x prfa = put_prfa w c
put_param w c x dmig = put_dmig w c
put_param w c x p = put_num w p c.tp_mine

-- `len` bytes of the letter Q.
abbrev pub letters : ℕ → List ℕ
letters zero = []
letters (suc n) = 0x51 ∷ letters n

unfoldable pub put_other : Writer → Conn → TpExtra → ℕ → Option Writer
unfolding encb_tp enc_tp_empty
put_other w c x tp =
    if tp == x.grease_type
    then encb_tp w x.grease_type (some (drop 1 x.grease)) (bit_and (get_or x.grease 0 0) 0x0f)
    else if tp == tp_qr
    then (if c.do_qr_test then encb_tp w tp_qr (some (letters min_ini_len)) min_ini_len else some w)
    else if tp == tp_qbg
    then (if c.tp_mine.grease_quic_bit then enc_tp_empty w tp_qbg else some w)
    else none

-- The switch, with what `param_of` says of the number.
unfoldable pub put_tp : Writer → Conn → TpExtra → ℕ → Option Param → Option Writer
unfolding put_param put_other
put_tp w c x tp none = put_other w c x tp
put_tp w c x tp (some p) = put_param w c x p

-- The loop over the order.
unfoldable pub put_tps : Writer → Conn → TpExtra → List ℕ → Option Writer
unfolding put_tp param_of
put_tps w c x [] = some w
put_tps w c x (tp ∷ tps) = put_tp w c x tp (param_of tp) >>= λ w1. put_tps w1 c x tps
