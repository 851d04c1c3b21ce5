-- ===== src/Recovery/Balance.antt =====
-- The bytes in flight as a sum over the sent packets, for `on_pkt_sent` of lib/src/recovery.c.
use quant.Base.{
  ℕ, ◌+◌, ◌^◌, ◌<◌, ◌≡◌, ◌∙◌, inl, inr, none, some, if◌then◌else◌, add64, arith, Bool-cases,
}
use quant.Diet.Tree.{SplayOps}
use quant.Conn.Packets.{PktMeta, PnSpace, PnType, pn_init, pn_hshk, pn_data}
use quant.Conn.State.{Conn, get_pn, set_pn}
use quant.Pn.Sent.{find_sent_pkt, pm_by_nr_ins, inserted_pn}
use quant.Recovery.Flight.{
  on_pkt_sent, stamp, ae_sent, padded_len, flight_bytes, IsBalanced, with_in_flight,
}

more-IsBalanced :
    (c : Conn) (p : PnType) (pn : PnSpace) (k pkts : ℕ)
    → IsBalanced c
    → flight_bytes pn.sent_pkts ≡ k + flight_bytes (get_pn c p).sent_pkts
    → IsBalanced (with_in_flight (set_pn c p pn) (c.rec.cur.in_flight + k) pkts)
more-IsBalanced c pn_init pn k pkts b e = omega arith
more-IsBalanced c pn_hshk pn k pkts b e = omega arith
more-IsBalanced c pn_data pn k pkts b e = omega arith

same-IsBalanced :
    (c : Conn) (p : PnType) (pn : PnSpace)
    → IsBalanced c
    → flight_bytes pn.sent_pkts ≡ flight_bytes (get_pn c p).sent_pkts
    → IsBalanced (set_pn c p pn)
same-IsBalanced c pn_init pn b e = omega arith
same-IsBalanced c pn_hshk pn b e = omega arith
same-IsBalanced c pn_data pn b e = omega arith

padded_len_u16 : (m : PktMeta) → m.udp_len < 2 ^ 16 → padded_len m < 2 ^ 16
padded_len_u16 m h = ground arith

ae_bytes :
    (now : ℕ) (m : PktMeta) (pn : PnSpace)
    → flight_bytes (ae_sent now m pn).sent_pkts ≡ flight_bytes pn.sent_pkts
ae_bytes now m pn = ground arith

module _ (ops : SplayOps) where
  -- Sending a packet with a new number and a length of 16 bits works, and keeps the count of
  -- bytes in flight, if below 2 ^ 63 before, equal to the lengths of the sent packets that count,
  -- Initial packets at their padded length.
  pub on_pkt_sent-IsBalanced :
      (now : ℕ) (c : Conn) (m : PktMeta)
      → IsBalanced c
      → c.rec.cur.in_flight < 2 ^ 63
      → m.udp_len < 2 ^ 16
      → find_sent_pkt (get_pn c m.pn) m.nr ≡ none
      → (r : Conn × PktMeta) × (on_pkt_sent ops now c m ≡ some r) × IsBalanced r.0
  unfolding on_pkt_sent pm_by_nr_ins
  on_pkt_sent-IsBalanced now c m b h l f =
      let m1 = stamp now m in
      let pn1 = inserted_pn ops (get_pn c m.pn) m1 in
      let n = padded_len_u16 m l in
      elim (Bool-cases m1.in_flight) [
        | inl e ↦ (
          (
            with_in_flight (set_pn c m.pn (ae_sent now m1 pn1)) (c.rec.cur.in_flight + padded_len m)
                (if m1.ack_eliciting then add64 c.rec.ae_in_flight 1 else c.rec.ae_in_flight),
            m1,
          ),
          (let q : add64 c.rec.cur.in_flight (padded_len m1) ≡ c.rec.cur.in_flight + padded_len m =
                omega arith in
              rw (on_pkt_sent, pm_by_nr_ins, f, e, q)),
          more-IsBalanced c m.pn (ae_sent now m1 pn1) (padded_len m)
              (if m1.ack_eliciting then add64 c.rec.ae_in_flight 1 else c.rec.ae_in_flight) b
              (ae_bytes now m1 pn1 ∙ ground arith),
        )
        | inr e ↦ (
          (set_pn c m.pn pn1, m1),
          rw (on_pkt_sent, pm_by_nr_ins, f, e),
          same-IsBalanced c m.pn pn1 b (ground arith),
        )
      ]
