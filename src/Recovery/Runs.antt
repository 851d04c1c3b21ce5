-- ===== src/Recovery/Runs.antt =====
-- Loss recovery of a concrete connection.
use quant.Base.{
  ℕ, ◌⊎◌, ◌-◌, ◌<◌, min, ◌+◌, ◌*◌, ◌/◌, ◌≤◌, max, ◌≡◌, refl, true, not, ◌&&◌, ◌||◌, some, [], ◌∷◌,
  arith, ltb, leb, ◌==◌, if◌then◌else◌, is_some,
}
use quant.Diet.Tree.{node, leaf, flatten}
use quant.Diet.Ops.{mk_diet}
use quant.Diet.Span.{covers}
use quant.Diet.Adding.{IsWf}
use quant.Diet.Runs.Rebuild.{rebuild-IsSplay}
use quant.Conn.Sample.{pn_of}
use quant.Conn.Packets.{pn_data}
use quant.Conn.Packets.{PnSpace}
use quant.Pn.Sent.{find_sent_pkt, InSync}
use quant.Recovery.Detect.{Scan, scan_pkts, scan_start, unacked}
use quant.Recovery.Losing.{is_fresh, is_overdue, scan_pkts_lem}
use quant.Diet.Runs.Rebuild.{rebuild}
use quant.Conn.Packets.{PktMeta}
use quant.Conn.State.{Conn}
use quant.Conn.Flow.{has_pval_wnd}
use quant.Conn.Sample.{conn, pkt}
use quant.Pn.Sent.{find_sent_pkt}
use quant.Recovery.Congestion.{
  congestion_event, congestion_event_lem, grow_cwnd, grow_cwnd_lem, min_ini_len,
}
use quant.Recovery.Rtt.{
  update_rtt, update_rtt_bounds, update_rtt_ignores_delay, ns_per_s, ns_per_ms,
}
use quant.Recovery.Timer.{
  set_ld_timer, set_ld_timer_lem, within, earliest_pn, peer_completed_addr_val,
}
use quant.Recovery.Flight.{on_pkt_sent, IsBalanced}
use quant.Recovery.Balance.{on_pkt_sent-IsBalanced}

congestion_event_lem_example :
    let c' = congestion_event 200 conn 150 in
    (c'.rec.cur.cwnd ≡ max (12000 / 2) (2 * 1200))
    × (c'.rec.cur.cwnd ≤ 12000)
    × (c'.rec.cur.ssthresh ≡ c'.rec.cur.cwnd)
    × (c'.rec.cur.in_flight ≡ conn.rec.cur.in_flight)
    × (c'.rec.rec_start_t ≡ 200)
    × (congestion_event 300 c' 180 ≡ c')
congestion_event_lem_example =
    congestion_event_lem 200 150 300 180 conn (omega arith) (omega arith) (omega arith)

grow_cwnd_lem_example :
    let w' = (grow_cwnd conn 150 1200).rec.cur.cwnd in
    (12000 ≤ w')
    × (w' ≡ (
        if leb 150 conn.rec.rec_start_t
        then 12000
        else if ltb 12000 conn.rec.cur.ssthresh
        then 12000 + 1200
        else 12000 + 1200 * 1200 / 12000))
grow_cwnd_lem_example =
    grow_cwnd_lem conn 150 1200 (omega arith) (omega arith) (omega arith) (omega arith)

update_rtt_bounds_example :
    let r' = (update_rtt conn 25).rec.cur in
    let delay = min 25 conn.tp_peer.max_ack_del * ns_per_ms in
    (r'.min_rtt ≡ min 40000 48000)
    × ((sample : ℕ) × (sample ≤ 48000)
        × (r'.min_rtt ≤ sample)
        × (((r'.min_rtt + delay < 48000) × (sample + delay ≡ 48000))
            ⊎ ((48000 ≤ r'.min_rtt + delay) × (sample ≡ 48000)))
        × (r'.srtt ≡ 7 * 40000 / 8 + sample / 8)
        × (r'.rttvar ≡ 3 * conn.rec.cur.rttvar / 4 + (max 40000 sample - min 40000 sample) / 4))
    × (7 * 40000 / 8 ≤ r'.srtt)
    × (r'.srtt ≤ max 40000 48000)
update_rtt_bounds_example =
    update_rtt_bounds conn 25 (omega arith) (omega arith) (omega arith) (omega arith) (omega arith)

update_rtt_ignores_delay_example : update_rtt conn 25 ≡ update_rtt conn 0
update_rtt_ignores_delay_example =
    update_rtt_ignores_delay conn 25 (omega arith) (omega arith) (omega arith) (omega arith)

-- The connection with a loss time in the space of application data.
abbrev waiting : Conn
waiting = record conn { pns_data = record (conn.pns_data) { loss_t = 900 } }

set_ld_timer_lem_example :
    let c' = set_ld_timer true 500 conn in
    (within (8 * ns_per_s) c'.rec.ld_alarm ≡ true)
    × (is_some c'.rec.ld_alarm ≡ (
        (conn.is_clnt || has_pval_wnd conn min_ini_len)
        && not (conn.rec.ae_in_flight == 0 && peer_completed_addr_val true conn)))
unfolding earliest_pn
set_ld_timer_lem_example = set_ld_timer_lem true 500 conn (omega arith) refl refl

on_pkt_sent-IsBalanced_example :
    (r : Conn × PktMeta) × (on_pkt_sent rebuild 700 conn (pkt 7) ≡ some r) × IsBalanced r.0
unfolding find_sent_pkt
on_pkt_sent-IsBalanced_example =
    on_pkt_sent-IsBalanced rebuild 700 conn (pkt 7) refl (omega arith) (omega arith) refl

-- Packet 7 is in flight, and 10 is acknowledged.
abbrev behind : PnSpace
behind = record (pn_of pn_data) {
  sent_pkts = pkt 7 ∷ [];
  sent_pkt_nrs = mk_diet (node leaf (record { lo = 7; hi = 7; t = 0 }) leaf) 1;
  lg_acked = 10;
}

behind-InSync : InSync behind
unfolding find_sent_pkt covers
behind-InSync = record {
  diet = record { span = omega arith; count = refl };
  same = λ nr. ground arith;
}

behind_fresh : (k : ℕ) → is_fresh (find_sent_pkt behind k) ≡ true
unfolding find_sent_pkt
behind_fresh k = ground arith

scan_pkts_lem_example :
    (s : Scan) × (scan_pkts rebuild 5000 0
        (unacked (flatten behind.sent_pkt_nrs.root) 10)
        (scan_start behind)
      ≡ some s)
    × IsWf s.lost
    × ((k : ℕ)
        → covers k (flatten s.lost.root) ≡ (ltb k 10 && is_overdue 0 10 (find_sent_pkt behind k)))
scan_pkts_lem_example =
    scan_pkts_lem rebuild rebuild-IsSplay 5000 0 behind behind-InSync behind_fresh (omega arith)
      (omega arith)
