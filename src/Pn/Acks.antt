-- ===== src/Pn/Acks.antt =====
-- `needs_ack` of lib/src/pn.c.
use quant.Base.{
  ◌↔◌, ◌⊎◌, ◌<◌, ◌≡◌, Bool, true, false, not, ◌&&◌, ◌||◌, ltb, leb, if◌then◌else◌, arith,
}
use quant.Diet.Tree.{Diet, Tree, leaf, node}
use quant.Conn.State.{Conn}
use quant.Conn.Packets.{PnSpace, PnType, pn_data}
use quant.Frame.{is_ack_eliciting, frm_cry}

pub data Ack : Type 0 where
  no_ack grat_ack del_ack imm_ack : Ack

abbrev pub is_pn_data : PnType → Bool
is_pn_data pn_data = true
is_pn_data _ = false

abbrev pub is_leaf : Tree → Bool
is_leaf leaf = true
is_leaf (node l x r) = false

abbrev pub diet_empty : Diet → Bool
diet_empty d = is_leaf d.root

unfoldable pub needs_ack : Conn → PnSpace → Ack
needs_ack c pn =
    if pn.imm_ack
    then imm_ack
    else if not (
        ltb 0 pn.pkts_rxed_since_last_ack_tx
        || (ltb 0 pn.pkts_lost_since_last_ack_tx || ltb 0 c.rec.pto_cnt)
          && not (diet_empty pn.recv_all))
    then no_ack
    else if not (is_ack_eliciting pn.rx_frames)
    then grat_ack
    else if not (is_pn_data pn.type) || pn.rx_frames frm_cry
    then imm_ack
    else if leb 2 pn.pkts_rxed_since_last_ack_tx || ltb 0 pn.pkts_lost_since_last_ack_tx
    then imm_ack
    else del_ack

-- The acknowledgement is delayed exactly if none is forced, the received frames are ack-eliciting
-- and without CRYPTO, the space is that of application data, nothing was lost since the last one
-- was sent, and one packet was received since, or none, while a probe timed out and packets had
-- been received before.
pub needs_ack_delays :
    (c : Conn) (pn : PnSpace)
    → (needs_ack c pn ≡ del_ack) ↔ (
        (pn.imm_ack ≡ false)
        × (is_ack_eliciting pn.rx_frames ≡ true)
        × (pn.rx_frames frm_cry ≡ false)
        × (is_pn_data pn.type ≡ true)
        × (pn.pkts_lost_since_last_ack_tx ≡ 0)
        × ((pn.pkts_rxed_since_last_ack_tx ≡ 1)
            ⊎ ((pn.pkts_rxed_since_last_ack_tx ≡ 0)
                × (0 < c.rec.pto_cnt)
                × (diet_empty pn.recv_all ≡ false))))
unfolding needs_ack
needs_ack_delays c pn = ground arith

-- No acknowledgement is due when none is forced, and nothing was received, nothing lost and no probe
-- timed out since the last one.
pub needs_ack_none :
    (c : Conn) (pn : PnSpace)
    → pn.imm_ack ≡ false
    → pn.pkts_rxed_since_last_ack_tx ≡ 0
    → pn.pkts_lost_since_last_ack_tx ≡ 0
    → c.rec.pto_cnt ≡ 0
    → needs_ack c pn ≡ no_ack
unfolding needs_ack
needs_ack_none c pn i r l p = ground arith
