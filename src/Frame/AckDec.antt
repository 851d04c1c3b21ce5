-- ===== src/Frame/AckDec.antt =====
-- `dec_ack_frame` of lib/src/frame.c. What `on_pkt_acked` and the bookkeeping of ECN do with a
-- connection is not modelled: any two functions can stand for them.
use quant.Base.{
  ℕ, zero, suc, ◌+◌, ◌-◌, ◌*◌, ◌^◌, Bool, true, false, not, ◌&&◌, ◌||◌, Option, none, some, List,
  [], ◌∷◌, ltb, leb, ◌==◌, if◌then◌else◌, is_some, add64, sub64, mul64, uint_t_max, ◌>>=◌,
}
use quant.Diet.Tree.{Ival, SplayOps, flatten}
use quant.Diet.Ops.{diet_find}
use quant.Conn.Packets.{PktMeta, PnType}
use quant.Conn.State.{Conn, get_pn, set_pn}
use quant.Conn.Close.{err_close}
use quant.Pn.Sent.{find_sent_pkt, no_frames}
use quant.Recovery.Rtt.{on_ack_received_1}
use quant.Recovery.Detect.{detect_lost_pkts}
use quant.Recovery.Timer.{set_ld_timer}
use quant.Frame.{frm_ace}
use quant.Frame.Handled.{
  Handled, ok, failed, died, fail_frm, decv_chk, err_fram_enc, err_pv, err_intl,
}
use quant.Frame.Data.{lh_init, lh_hshk}

-- The upper end of the first interval.
abbrev pub cum_ack_of : List Ival → Option ℕ
cum_ack_of [] = none
cum_ack_of (i ∷ is) = some i.hi

abbrev pub is_cum : Option ℕ → ℕ → Bool
is_cum none ack = false
is_cum (some cum) ack = not (cum == uint_t_max) && leb ack cum

-- What a range comes to: the connection, with the packets that are newly acknowledged, the last one
-- first; a packet that was never sent; or a failed check.
pub data AckRun : Type 0 where
  went : Conn → List PktMeta → AckRun
  unsent : Conn → AckRun
  dead : AckRun

abbrev pub got_new_ack : List PktMeta → Bool
got_new_ack [] = false
got_new_ack (m ∷ ms) = true

abbrev pub def_ack_del_exp : ℕ
def_ack_del_exp = 3

-- Initial and Handshake packets use the default exponent.
abbrev pub ack_del_of : Conn → PktMeta → ℕ → ℕ
ack_del_of c m raw = mul64 raw (
    2
    ^ (if m.hdr_type == lh_init || m.hdr_type == lh_hshk
        then def_ack_del_exp
        else c.tp_peer.ack_del_exp))

-- What dec_ack_frame needs besides: the times that `w_now` returns at the end, a condition on the TLS
-- state, and the two functions.
pub record AckEnv : Type 0 where
  pub now3 : ℕ
  pub now4 : ℕ
  pub hshk_done : Bool
  pub on_acked : ℕ → Conn → PktMeta → Option Conn
  pub on_ecn : Conn → List PktMeta → ℕ → ℕ → ℕ → Conn

module _ (ops : SplayOps) (w_max default_ups now now2 : ℕ) (env : AckEnv) where
  -- The numbers of a range, from the largest down; the rest of it is skipped at the first number up to
  -- which all were acknowledged before the frame.
  unfoldable pub ack_down :
      (type lg_in_frm ack_delay : ℕ) (cum : Option ℕ) (p : PnType)
      → ℕ
      → ℕ
      → Conn
      → List PktMeta
      → AckRun
  unfolding diet_find find_sent_pkt on_ack_received_1
  ack_down type lg delay cum p zero ack c acked = went c acked
  ack_down type lg delay cum p (suc n) ack c acked =
      let pn = get_pn c p in
      let (d, found) = diet_find ops pn.acked_or_lost ack in
      let c1 = set_pn c p (record pn { acked_or_lost = d }) in
      let next = λ (c' : Conn) (acked' : List PktMeta).
        if ack == 0 then went c' acked' else ack_down type lg delay cum p n (ack - 1) c' acked' in
      if is_cum cum ack
      then went c acked
      else if is_some found
      then next c1 acked
      else elim (find_sent_pkt pn ack) [
        | none ↦ unsent (err_close c1 err_pv type)
        | some m ↦
            (let c2 = if ack == lg then on_ack_received_1 now c1 m delay else c1 in
              elim (env.on_acked type c2 m) [ none ↦ dead | some c3 ↦ next c3 (m ∷ acked) ])
      ]

  unfoldable pub on_ack_received_2 : Conn → PnType → Option Conn
  unfolding detect_lost_pkts set_ld_timer
  on_ack_received_2 c p = detect_lost_pkts ops w_max default_ups now2 env.now3 c p true >>= λ r.
      some (
        set_ld_timer env.hshk_done env.now4
          (record (r.0) { rec = record (r.0.rec) { pto_cnt = 0 } }))

  -- What follows the ECN counters.
  unfoldable pub end_ack : Conn → PnType → List PktMeta → List ℕ → Handled
  unfolding on_ack_received_2
  end_ack c p acked rest = elim (if got_new_ack acked then on_ack_received_2 c p else some c) [
    | none ↦ died
    | some c1 ↦ ok (set_pn c1 p (record (get_pn c1 p) { tx_frames = no_frames })) rest
  ]

  module _ (past : ℕ) where
    unfoldable pub dec_ecn : ℕ → Conn → PnType → List PktMeta → List ℕ → Handled
    unfolding end_ack
    dec_ecn type c p acked inp =
        if type == frm_ace
        then decv_chk past c type inp (λ ect0 r1. decv_chk past c type r1 (λ ect1 r2.
          decv_chk past c type r2 (λ ce r3.
            end_ack (if got_new_ack acked then env.on_ecn c acked ect0 ect1 ce else c) p acked r3)))
        else end_ack c p acked inp

    -- The loop over the ranges, with `n` of them left.
    unfoldable pub dec_ack_rngs :
        (type lg_in_frm ack_delay : ℕ) (cum : Option ℕ) (p : PnType)
        → ℕ
        → ℕ
        → Conn
        → List PktMeta
        → List ℕ
        → Handled
    unfolding ack_down dec_ecn
    dec_ack_rngs type lg_in_frm delay cum p zero lg c acked inp = dec_ecn type c p acked inp
    dec_ack_rngs type lg_in_frm delay cum p (suc n) lg c acked inp =
        decv_chk past c type inp (λ rng r1.
          if ltb (0xffff * 2 ^ 4) rng
          then fail_frm c err_intl type
          else if ltb lg rng
          then fail_frm c err_fram_enc type
          else elim (ack_down type lg_in_frm delay cum p (rng + 1) lg c acked) [
            | dead ↦ died
            | unsent c1 ↦ failed c1
            | went c1 acked1 ↦
                (if n == 0
                  then dec_ecn type c1 p acked1 r1
                  else decv_chk past c1 type r1 (λ gap r2.
                    if ltb (lg - rng) (add64 gap 2)
                    then fail_frm c1 err_pv type
                    else dec_ack_rngs type lg_in_frm delay cum p n
                        (sub64 lg (add64 rng (add64 gap 2))) c1 acked1 r2))
          ])

    unfoldable pub dec_ack_frame : ℕ → Conn → PktMeta → List ℕ → Handled
    unfolding dec_ack_rngs
    dec_ack_frame type c m inp = decv_chk past c type inp (λ lg r1.
        decv_chk past c type r1 (λ raw r2. decv_chk past c type r2 (λ cnt r3.
          dec_ack_rngs type lg (ack_del_of c m raw)
            (cum_ack_of (flatten (get_pn c m.pn).acked_or_lost.root)) m.pn (add64 cnt 1) lg c []
            r3)))
