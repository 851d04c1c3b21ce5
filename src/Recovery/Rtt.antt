-- ===== src/Recovery/Rtt.antt =====
-- The round-trip time estimate: `update_rtt` and `on_ack_received_1` of lib/src/recovery.c.
use quant.Base.{
  ℕ, ◌⊎◌, ◌+◌, ◌-◌, ◌*◌, ◌/◌, ◌^◌, ◌≤◌, ◌<◌, ◌≡◌, ltb, ◌==◌, if◌then◌else◌, add64, sub64, mul64,
  min, max, uint_t_max, arith,
}
use quant.Conn.Packets.{PktMeta}
use quant.Conn.State.{Conn, CcState, get_pn, set_pn}
use quant.Frame.{is_ack_eliciting}
use quant.Pn.Acks.{is_pn_data}

abbrev pub ns_per_us : ℕ
ns_per_us = 1000

abbrev pub ns_per_ms : ℕ
ns_per_ms = 1000 * 1000

abbrev pub us_per_ms : ℕ
us_per_ms = 1000

abbrev pub ns_per_s : ℕ
ns_per_s = 1000 * 1000 * 1000

-- `llabs` of the difference of two numbers below 2 ^ 63.
abbrev pub abs_diff : ℕ → ℕ → ℕ
abs_diff a b = if ltb a b then b - a else a - b

abbrev pub set_cur : Conn → CcState → Conn
set_cur c s = record c { rec = record (c.rec) { cur = s } }

-- The acknowledgement delay that is subtracted: the smaller of the two, times NS_PER_MS.
abbrev pub scaled_ack_del : Conn → ℕ → ℕ
scaled_ack_del c ack_del = mul64 (min ack_del c.tp_peer.max_ack_del) ns_per_ms

abbrev pub adj_rtt : ℕ → ℕ → ℕ → ℕ
adj_rtt latest least ack_del =
    if ltb (add64 least ack_del) latest then sub64 latest ack_del else latest

unfoldable pub update_rtt : Conn → ℕ → Conn
update_rtt c ack_del =
    let r = c.rec.cur in
    if r.srtt == 0
    then set_cur c
        (record r { min_rtt = r.latest_rtt; srtt = r.latest_rtt; rttvar = r.latest_rtt / 2 })
    else (let least = min r.min_rtt r.latest_rtt in
        let adj = adj_rtt r.latest_rtt least (scaled_ack_del c ack_del) in
        set_cur c (record r {
          min_rtt = least;
          rttvar = add64 (mul64 3 r.rttvar / 4) (abs_diff r.srtt adj / 4);
          srtt = add64 (mul64 7 r.srtt / 8) (adj / 8);
        }))

-- The packet is the one with the largest number that an ACK frame acknowledges.
unfoldable pub on_ack_received_1 : ℕ → Conn → PktMeta → ℕ → Conn
unfolding update_rtt
on_ack_received_1 now c lg_ack ack_del =
    let pn = get_pn c lg_ack.pn in
    let acked = if pn.lg_acked == uint_t_max then lg_ack.nr else max pn.lg_acked lg_ack.nr in
    let c1 = set_pn c lg_ack.pn (record pn { lg_acked = acked }) in
    if is_ack_eliciting pn.tx_frames
    then update_rtt
        (set_cur c1 (record (c1.rec.cur) { latest_rtt = sub64 now lg_ack.t / ns_per_us }))
        (if is_pn_data pn.type then ack_del else 0)
    else c1

-- From the second sample on, with times below 2 ^ 56 and a delay limit below 2 ^ 14: the least value
-- is the smaller of the old one and the sample. The sample counts less the scaled delay, if that does
-- not take it below the least value, and as it is if it does. The smoothed value is seven eighths of
-- the old one and an eighth of that, the variation three quarters of the old one and a quarter of the
-- distance between that and the old smoothed value, each part rounded down; so the smoothed value
-- stays between seven eighths of the old one and the larger of the old one and the sample.
pub update_rtt_bounds :
    (c : Conn) (ack_del : ℕ)
    → 0 < c.rec.cur.srtt
    → c.rec.cur.srtt < 2 ^ 56
    → c.rec.cur.rttvar < 2 ^ 56
    → c.rec.cur.latest_rtt < 2 ^ 56
    → c.tp_peer.max_ack_del < 2 ^ 14
    → let r = c.rec.cur in
      let r' = (update_rtt c ack_del).rec.cur in
      let delay = min ack_del c.tp_peer.max_ack_del * ns_per_ms in
      (r'.min_rtt ≡ min r.min_rtt r.latest_rtt)
      × ((sample : ℕ) × (sample ≤ r.latest_rtt)
          × (r'.min_rtt ≤ sample)
          × (((r'.min_rtt + delay < r.latest_rtt) × (sample + delay ≡ r.latest_rtt))
              ⊎ ((r.latest_rtt ≤ r'.min_rtt + delay) × (sample ≡ r.latest_rtt)))
          × (r'.srtt ≡ 7 * r.srtt / 8 + sample / 8)
          × (r'.rttvar ≡ 3 * r.rttvar / 4 + (max r.srtt sample - min r.srtt sample) / 4))
      × (7 * r.srtt / 8 ≤ r'.srtt)
      × (r'.srtt ≤ max r.srtt r.latest_rtt)
unfolding update_rtt
update_rtt_bounds c ack_del p h v k m =
    let r = c.rec.cur in
    (
      ground arith,
      (
        adj_rtt r.latest_rtt (min r.min_rtt r.latest_rtt) (scaled_ack_del c ack_del),
        ground arith,
        ground arith,
        ground arith,
        ground arith,
        ground arith,
      ),
      ground arith,
      ground arith,
    )

-- The round-trip times are in microseconds, the delay is multiplied as if they were nanoseconds: so
-- no delay is ever subtracted from a sample that is within a second of the least one.
pub update_rtt_ignores_delay :
    (c : Conn) (ack_del : ℕ)
    → c.rec.cur.min_rtt < 2 ^ 56
    → c.rec.cur.latest_rtt < 2 ^ 56
    → c.tp_peer.max_ack_del < 2 ^ 14
    → c.rec.cur.latest_rtt ≤ min c.rec.cur.min_rtt c.rec.cur.latest_rtt + ns_per_s / 1000
    → update_rtt c ack_del ≡ update_rtt c 0
unfolding update_rtt
update_rtt_ignores_delay c ack_del h k m l = ground arith
