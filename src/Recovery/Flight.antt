-- ===== src/Recovery/Flight.antt =====
-- Bytes in flight: packets that are sent, and packets that leave, in lib/src/recovery.c.
use quant.Base.{
  ℕ, ◌+◌, ◌-◌, ◌≡◌, refl, ap, subst, inl, inr, Bool, true, false, ◌||◌, Option, none, some, List,
  [], ◌∷◌, ltb, ◌==◌, if◌then◌else◌, add64, sub64, arith, Bool-cases,
}
use quant.Diet.Tree.{SplayOps}
use quant.Conn.Packets.{PktMeta, PnSpace, PnType, pn_init}
use quant.Conn.State.{Conn, get_pn, set_pn}
use quant.Frame.{frm_pad}
use quant.Pn.Sent.{find_nr, del_nr, pm_by_nr_ins}
use quant.Recovery.Congestion.{min_ini_len, grow_cwnd}

abbrev pub is_pn_init : PnType → Bool
is_pn_init pn_init = true
is_pn_init _ = false

abbrev pub padded_len : PktMeta → ℕ
padded_len m = if is_pn_init m.pn then min_ini_len else m.udp_len

abbrev pub with_in_flight : Conn → ℕ → ℕ → Conn
with_in_flight c bytes pkts = record c {
  rec = record (c.rec) { ae_in_flight = pkts; cur = record (c.rec.cur) { in_flight = bytes } };
}

-- The time of the last ack-eliciting packet is forgotten with the last of them in flight.
abbrev pub forget_ae_time : Conn → PnType → Conn
forget_ae_time c p =
    if c.rec.ae_in_flight == 0 then set_pn c p (record (get_pn c p) { last_ae_tx_t = 0 }) else c

-- `none` is the failed assertion that the packet's bytes are in flight.
unfoldable pub remove_from_in_flight : Conn → PktMeta → Option Conn
remove_from_in_flight c m =
    if ltb c.rec.cur.in_flight (padded_len m)
    then none
    else if m.ack_eliciting
    then some (
        forget_ae_time
          (with_in_flight c (c.rec.cur.in_flight - padded_len m) (sub64 c.rec.ae_in_flight 1)) m.pn)
    else some (with_in_flight c (c.rec.cur.in_flight - padded_len m) c.rec.ae_in_flight)

abbrev pub stamp : ℕ → PktMeta → PktMeta
stamp now m = record m { txed = true; t = now; in_flight = m.ack_eliciting || m.frms frm_pad }

abbrev pub ae_sent : ℕ → PktMeta → PnSpace → PnSpace
ae_sent now m pn = if m.ack_eliciting then record pn { last_ae_tx_t = now } else pn

module _ (ops : SplayOps) where
  unfoldable pub on_pkt_sent : ℕ → Conn → PktMeta → Option (Conn × PktMeta)
  on_pkt_sent now c m0 =
      let m = stamp now m0 in
      elim (pm_by_nr_ins ops (get_pn c m.pn) m) [
        | none ↦ none
        | some pn ↦
            (if m.in_flight
              then some (
                with_in_flight (set_pn c m.pn (ae_sent now m pn))
                    (add64 c.rec.cur.in_flight (padded_len m))
                    (if m.ack_eliciting then add64 c.rec.ae_in_flight 1 else c.rec.ae_in_flight),
                m,
              )
              else some (set_pn c m.pn pn, m))
      ]

unfoldable pub on_pkt_acked_cc : Conn → PktMeta → Option Conn
unfolding remove_from_in_flight
on_pkt_acked_cc c m = elim (remove_from_in_flight c m) [
  | none ↦ none
  | some c1 ↦ some (grow_cwnd c1 m.t m.udp_len)
]

-- What a packet adds to the bytes in flight.
abbrev pub flight_len : PktMeta → ℕ
flight_len m = if m.in_flight then padded_len m else 0

abbrev pub flight_bytes : List PktMeta → ℕ
flight_bytes [] = 0
flight_bytes (m ∷ ms) = flight_len m + flight_bytes ms

-- The count of bytes in flight is what the packets in the three tables of sent packets come to.
abbrev pub IsBalanced : Conn → Type 0
IsBalanced c =
    c.rec.cur.in_flight
    ≡ flight_bytes c.pns_init.sent_pkts
      + flight_bytes c.pns_hshk.sent_pkts
      + flight_bytes c.pns_data.sent_pkts

-- No two packets of the list have one number.
abbrev pub IsKeyed : List PktMeta → Type 0
IsKeyed [] = Unit
IsKeyed (m ∷ ms) = (find_nr ms m.nr ≡ none) × IsKeyed ms

pub flight_bytes-absent :
    (ms : List PktMeta) (nr : ℕ)
    → find_nr ms nr ≡ none
    → flight_bytes (del_nr ms nr) ≡ flight_bytes ms
flight_bytes-absent [] nr h = refl
flight_bytes-absent (m ∷ ms) nr h = ground (arith, flight_bytes-absent ms nr)

abbrev opt_len : Option PktMeta → Option ℕ
opt_len none = none
opt_len (some m) = some (flight_len m)

pub flight_bytes-del_nr :
    (ms : List PktMeta) (nr : ℕ) (m : PktMeta)
    → IsKeyed ms
    → find_nr ms nr ≡ some m
    → flight_bytes (del_nr ms nr) + flight_len m ≡ flight_bytes ms
flight_bytes-del_nr [] nr m k h = ground arith
flight_bytes-del_nr (x ∷ ms) nr m k h = elim (Bool-cases (x.nr == nr)) [
  | inl e ↦
      (let r : find_nr ms nr ≡ none = subst (λ n. find_nr ms n ≡ none) (ground arith) k.0 in
        let x_m : some (flight_len x) ≡ some (flight_len m) =
          ap (opt_len) (subst (λ b. (if b then some x else find_nr ms nr) ≡ some m) e h) in
        let a = flight_bytes-absent ms nr r in ground arith)
  | inr e ↦ (let r = flight_bytes-del_nr ms nr m k.1 (ground arith) in ground arith)
]
