-- ===== src/Pn/Runs.antt =====
-- Concrete packet number spaces.
use quant.Base.{
  ℕ, ◌≡◌, ◌<◌, ◌↔◌, ◌⊎◌, refl, true, false, not, ◌&&◌, some, ◌∷◌, [], ◌==◌, is_some, arith,
}
use quant.Diet.Tree.{node, leaf}
use quant.Diet.Ops.{mk_diet}
use quant.Diet.Span.{covers}
use quant.Diet.Runs.Rebuild.{rebuild, rebuild-IsSplay}
use quant.Conn.Packets.{PnSpace, pn_data}
use quant.Conn.Sample.{conn, pn_of, pkt}
use quant.Frame.{is_ack_eliciting, frm_cry}
use quant.Pn.Sent.{
  find_sent_pkt, pm_by_nr_ins, pm_by_nr_del, InSync, pm_by_nr_ins_lem, pm_by_nr_del_lem,
}
use quant.Pn.Acks.{needs_ack, del_ack, is_pn_data, diet_empty, needs_ack_delays}

-- The empty space, and that with packet 7.
empty_InSync : InSync (pn_of pn_data)
unfolding find_sent_pkt covers
empty_InSync = record { diet = record { span = omega arith; count = refl }; same = λ nr. refl }

abbrev one_pkt : PnSpace
one_pkt = record (pn_of pn_data) {
  sent_pkts = pkt 7 ∷ [];
  sent_pkt_nrs = mk_diet (node leaf (record { lo = 7; hi = 7; t = 0 }) leaf) 1;
}

one_pkt-InSync : InSync one_pkt
unfolding find_sent_pkt covers
one_pkt-InSync = record {
  diet = record { span = omega arith; count = refl };
  same = λ nr. ground arith;
}

pm_by_nr_ins_lem_example :
    (pn' : PnSpace) × (pm_by_nr_ins rebuild (pn_of pn_data) (pkt 7) ≡ some pn')
    × InSync pn'
    × (find_sent_pkt pn' 7 ≡ some (pkt 7))
unfolding find_sent_pkt
pm_by_nr_ins_lem_example =
    pm_by_nr_ins_lem rebuild rebuild-IsSplay (pn_of pn_data) (pkt 7) empty_InSync (omega arith) refl

pm_by_nr_del_lem_example :
    (pn' : PnSpace) × (pm_by_nr_del rebuild one_pkt (pkt 7) ≡ some pn')
    × InSync pn'
    × ((k : ℕ)
        → is_some (find_sent_pkt pn' k) ≡ (not (k == 7) && is_some (find_sent_pkt one_pkt k)))
unfolding find_sent_pkt
pm_by_nr_del_lem_example =
    pm_by_nr_del_lem rebuild rebuild-IsSplay one_pkt (pkt 7) (pkt 7) one_pkt-InSync (omega arith)
      refl

needs_ack_delays_example : (needs_ack conn (pn_of pn_data) ≡ del_ack) ↔ (
    ((pn_of pn_data).imm_ack ≡ false)
    × (is_ack_eliciting (pn_of pn_data).rx_frames ≡ true)
    × ((pn_of pn_data).rx_frames frm_cry ≡ false)
    × (is_pn_data pn_data ≡ true)
    × ((pn_of pn_data).pkts_lost_since_last_ack_tx ≡ 0)
    × (((pn_of pn_data).pkts_rxed_since_last_ack_tx ≡ 1)
        ⊎ (((pn_of pn_data).pkts_rxed_since_last_ack_tx ≡ 0)
            × (0 < conn.rec.pto_cnt)
            × (diet_empty (pn_of pn_data).recv_all ≡ false))))
needs_ack_delays_example = needs_ack_delays conn (pn_of pn_data)
