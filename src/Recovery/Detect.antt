-- ===== src/Recovery/Detect.antt =====
-- Which sent packets are lost: `detect_lost_pkts`, `detect_all_lost_pkts` and `maybe_open_wnd` of
-- lib/src/recovery.c. `in_persistent_cong` is constantly false there.
use quant.Base.{
  ℕ, zero, suc, ◌+◌, ◌-◌, ◌/◌, min, max, Bool, true, false, not, ◌&&◌, ◌||◌, Option, none, some,
  List, [], ◌∷◌, ◌++◌, ltb, leb, ◌==◌, if◌then◌else◌, ◌>>=◌, uint_t_max, add64, sub64, mul64,
}
use quant.Diet.Tree.{Diet, Ival, SplayOps, flatten}
use quant.Diet.Ops.{diet_insert}
use quant.Conn.Packets.{PktMeta, PnSpace, PnType, pn_init, pn_hshk, pn_data}
use quant.Conn.State.{Conn, get_pn, set_pn}
use quant.Conn.Flow.{has_wnd}
use quant.Pn.Sent.{find_sent_pkt, diet_init}
use quant.Recovery.Congestion.{congestion_event}
use quant.Recovery.Timer.{granularity}
use quant.Recovery.Rtt.{ns_per_us}
use quant.Recovery.Lost.{on_pkt_lost}

-- `w_max` is what `w_max_udp_payload` returns.
unfoldable pub maybe_open_wnd : ℕ → Conn → Conn
unfolding has_wnd
maybe_open_wnd w_max c =
    if has_wnd c w_max
    then record c { no_wnd = false; needs_tx = true }
    else record c { no_wnd = true }

abbrev pub packet_threshold : ℕ
packet_threshold = 3

-- The time after which a packet is lost, in nanoseconds.
unfoldable pub loss_del : Conn → ℕ
loss_del c =
    max granularity (mul64 (mul64 ns_per_us 9) (max c.rec.cur.latest_rtt c.rec.cur.srtt) / 8)

-- `n` numbers from `lo` on.
abbrev pub count_up : ℕ → ℕ → List ℕ
count_up lo zero = []
count_up lo (suc n) = lo ∷ count_up (lo + 1) n

-- The numbers of an interval up to a bound.
abbrev pub upto : Ival → ℕ → List ℕ
upto i bound = count_up i.lo (bound + 1 - i.lo)

-- The numbers that the two loops over sent packets come by.
abbrev pub unacked : List Ival → ℕ → List ℕ
unacked [] lg_acked = []
unacked (i ∷ is) lg_acked =
    if ltb lg_acked i.lo then [] else upto i (min i.hi (sub64 lg_acked 1)) ++ unacked is lg_acked

-- What the loop keeps: the variables of the function, and the packet number space.
pub record Scan : Type 0 where
  pub pn : PnSpace
  pub lost : Diet
  pub lg_lost : ℕ
  pub lg_lost_tx_t : ℕ
  pub in_flight_lost : Bool

-- "Mark packet as lost, or set time when it should be marked."
abbrev pub is_deemed_lost : ℕ → ℕ → PktMeta → Bool
is_deemed_lost lost_send_t lg_acked m =
    leb m.t lost_send_t || leb (add64 m.nr packet_threshold) lg_acked

abbrev pub mark_lost : List PktMeta → ℕ → List PktMeta
mark_lost [] nr = []
mark_lost (m ∷ ms) nr = if m.nr == nr then record m { lost = true } ∷ ms else m ∷ mark_lost ms nr

abbrev pub earlier_loss : ℕ → ℕ → ℕ
earlier_loss loss_t t = if loss_t == 0 then t else min loss_t t

abbrev pub lost_more : Scan → PktMeta → Bool
lost_more s m = s.lg_lost == uint_t_max || ltb s.lg_lost m.nr

abbrev pub scan_kept : ℕ → Scan → PktMeta → Scan
scan_kept del s m = record s {
  pn = record (s.pn) { loss_t = earlier_loss s.pn.loss_t (add64 m.t del) };
}

abbrev pub all_nrs : List Ival → List ℕ
all_nrs [] = []
all_nrs (i ∷ is) = upto i i.hi ++ all_nrs is

abbrev pub scan_start : PnSpace → Scan
scan_start pn = record {
  pn = record pn { loss_t = 0 };
  lost = diet_init;
  lg_lost = uint_t_max;
  lg_lost_tx_t = 0;
  in_flight_lost = false;
}

-- What follows the loops; the result tells also whether a transmission is scheduled.
unfoldable pub after_loss : ℕ → ℕ → Bool → Scan → Conn → Conn × Bool
unfolding maybe_open_wnd congestion_event
after_loss w_max now do_cc s c =
    let c1 = if do_cc && s.in_flight_lost then congestion_event now c s.lg_lost_tx_t else c in
    (maybe_open_wnd w_max c1, not (s.lg_lost == uint_t_max))

module _ (ops : SplayOps) where
  abbrev pub scan_lost : Scan → PktMeta → Scan
  scan_lost s m = record s {
    pn = record (s.pn) { sent_pkts = mark_lost s.pn.sent_pkts m.nr };
    lost = (diet_insert ops s.lost m.nr 0).0;
    in_flight_lost = s.in_flight_lost || m.in_flight;
    lg_lost = if lost_more s m then m.nr else s.lg_lost;
    lg_lost_tx_t = if lost_more s m then m.t else s.lg_lost_tx_t;
  }

  -- The body of the loop for one number; `none` is a failed assertion.
  abbrev pub scan_pkt : ℕ → ℕ → Scan → Option PktMeta → Option Scan
  scan_pkt del lost_send_t s none = none
  scan_pkt del lost_send_t s (some m) =
      if m.acked || m.lost
      then none
      else if is_deemed_lost lost_send_t s.pn.lg_acked m
      then some (scan_lost s m)
      else some (scan_kept del s m)

  unfoldable pub scan_pkts : ℕ → ℕ → List ℕ → Scan → Option Scan
  unfolding find_sent_pkt
  scan_pkts del lost_send_t [] s = some s
  scan_pkts del lost_send_t (nr ∷ nrs) s =
      scan_pkt del lost_send_t s (find_sent_pkt s.pn nr) >>= scan_pkts del lost_send_t nrs

  -- "OnPacketsLost"; a packet that is not in the table would be a null pointer.
  unfoldable pub lose_pkts : ℕ → PnType → List ℕ → Conn → Option Conn
  unfolding on_pkt_lost find_sent_pkt
  lose_pkts default_ups p [] c = some c
  lose_pkts default_ups p (nr ∷ nrs) c =
      (find_sent_pkt (get_pn c p) nr >>= (λ m. on_pkt_lost ops default_ups c m true))
      >>= (λ r. lose_pkts default_ups p nrs r.0)

  -- `now` and `now2` are the times that `w_now` returns here and in `congestion_event`.
  unfoldable pub detect_lost_pkts :
      (w_max default_ups now now2 : ℕ) → Conn → PnType → Bool → Option (Conn × Bool)
  unfolding loss_del scan_pkts lose_pkts after_loss
  detect_lost_pkts w_max default_ups now now2 c p do_cc =
      let pn = get_pn c p in
      if pn.abandoned
      then some (c, false)
      else scan_pkts (loss_del c) (sub64 now (loss_del c))
          (unacked (flatten pn.sent_pkt_nrs.root) pn.lg_acked) (scan_start pn)
        >>= (λ s.
            lose_pkts default_ups p (all_nrs (flatten s.lost.root)) (set_pn c p s.pn)
            >>= (λ c1. some (after_loss w_max now2 do_cc s c1)))

  -- One packet number space of `detect_all_lost_pkts`, after what came before it.
  abbrev pub detect_next :
      (w_max default_ups now now2 : ℕ) → Bool → PnType → Conn × Bool → Option (Conn × Bool)
  unfolding detect_lost_pkts
  detect_next w_max default_ups now now2 do_cc p (c, tx) =
      detect_lost_pkts w_max default_ups now now2 c p do_cc >>= (λ r. some (r.0, tx || r.1))

  unfoldable pub detect_all_lost_pkts :
      (w_max default_ups now now2 : ℕ) → Conn → Bool → Option (Conn × Bool)
  unfolding detect_next
  detect_all_lost_pkts w_max default_ups now now2 c do_cc =
      let next = detect_next w_max default_ups now now2 do_cc in
      (next pn_init (c, false) >>= next pn_hshk) >>= next pn_data
