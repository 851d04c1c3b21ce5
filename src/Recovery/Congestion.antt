-- ===== src/Recovery/Congestion.antt =====
-- The congestion window of lib/src/recovery.c: its start, its growth on acknowledgements and its
-- reduction on loss. `now` is what `w_now` returns.
use quant.Base.{
  ℕ, ◌+◌, ◌*◌, ◌/◌, ◌^◌, ◌≤◌, ◌<◌, ◌≡◌, Bool, none, leb, ltb, if◌then◌else◌, add64, mul64, min, max,
  uint_t_max, mul_u16, div_le, arith,
}
use quant.Conn.State.{Conn}

abbrev pub min_ini_len : ℕ
min_ini_len = 1200

abbrev pub initial_window : ℕ → ℕ
initial_window max_ups = min (10 * max_ups) (max (2 * max_ups) 14720)

abbrev pub minimum_window : ℕ → ℕ
minimum_window max_ups = 2 * max_ups

abbrev pub loss_reduction_divisor : ℕ
loss_reduction_divisor = 2

-- The literal of `struct cc_state` sets the members that it does not name to 0.
unfoldable pub init_rec : Conn → Conn
init_rec c = record c {
  rec = record (c.rec) {
    ld_alarm = none;
    pto_cnt = 0;
    max_ups = min_ini_len;
    cur = record {
      latest_rtt = 0;
      min_rtt = uint_t_max;
      rttvar = 0;
      srtt = 0;
      cwnd = initial_window min_ini_len;
      in_flight = 0;
      ssthresh = uint_t_max;
    };
  };
}

unfoldable pub in_cong_recovery : Conn → ℕ → Bool
in_cong_recovery c sent_t = leb sent_t c.rec.rec_start_t

unfoldable pub congestion_event : ℕ → Conn → ℕ → Conn
unfolding in_cong_recovery
congestion_event now c sent_t =
    if in_cong_recovery c sent_t
    then c
    else (let w = max (c.rec.cur.cwnd / loss_reduction_divisor) (minimum_window c.rec.max_ups) in
        record c {
          rec = record (c.rec) {
            rec_start_t = now;
            cur = record (c.rec.cur) { cwnd = w; ssthresh = w };
          };
        })

-- The growth of the window in `on_pkt_acked_cc`, for a packet of `udp_len` bytes sent at `t`.
unfoldable pub grow_cwnd : Conn → ℕ → ℕ → Conn
unfolding in_cong_recovery
grow_cwnd c t udp_len =
    if in_cong_recovery c t
    then c
    else if ltb c.rec.cur.cwnd c.rec.cur.ssthresh
    then record c {
      rec = record (c.rec) { cur = record (c.rec.cur) { cwnd = add64 c.rec.cur.cwnd udp_len } };
    }
    else record c {
      rec = record (c.rec) {
        cur = record (c.rec.cur) {
          cwnd = add64 c.rec.cur.cwnd (mul64 c.rec.max_ups udp_len / c.rec.cur.cwnd);
        };
      };
    }

-- The loss of a packet that was sent after the last reduction starts a recovery period: the window
-- becomes half of what it was, rounded down, but two full datagrams at least; slow start is over; and
-- the loss of a packet that was sent at a time up to now then changes nothing. So a window of at
-- least two datagrams never grows by a loss.
pub congestion_event_lem :
    (now sent_t now' t : ℕ) (c : Conn)
    → 2 * c.rec.max_ups ≤ c.rec.cur.cwnd
    → c.rec.rec_start_t < sent_t
    → t ≤ now
    → let c' = congestion_event now c sent_t in
      (c'.rec.cur.cwnd ≡ max (c.rec.cur.cwnd / 2) (2 * c.rec.max_ups))
      × (c'.rec.cur.cwnd ≤ c.rec.cur.cwnd)
      × (c'.rec.cur.ssthresh ≡ c'.rec.cur.cwnd)
      × (c'.rec.cur.in_flight ≡ c.rec.cur.in_flight)
      × (c'.rec.rec_start_t ≡ now)
      × (congestion_event now' c' t ≡ c')
unfolding congestion_event in_cong_recovery
congestion_event_lem now sent_t now' t c h k l = ground arith

-- An acknowledgement never shrinks a positive window below 2 ^ 62, for lengths of 16 bits: a
-- packet that was sent before the last reduction leaves it; in slow start it grows by the length
-- of the packet, and else by the product of the datagram size and that length over the window.
pub grow_cwnd_lem :
    (c : Conn) (t udp_len : ℕ)
    → c.rec.cur.cwnd < 2 ^ 62
    → 0 < c.rec.cur.cwnd
    → c.rec.max_ups < 2 ^ 16
    → udp_len < 2 ^ 16
    → let w = c.rec.cur.cwnd in
      let w' = (grow_cwnd c t udp_len).rec.cur.cwnd in
      (w ≤ w')
      × (w' ≡ (
          if leb t c.rec.rec_start_t
          then w
          else if ltb w c.rec.cur.ssthresh
          then w + udp_len
          else w + c.rec.max_ups * udp_len / w))
unfolding grow_cwnd in_cong_recovery
grow_cwnd_lem c t udp_len h p k l =
    let b = mul_u16 c.rec.max_ups udp_len k l in
    let d = div_le (c.rec.max_ups * udp_len) c.rec.cur.cwnd p in
    let e : mul64 c.rec.max_ups udp_len ≡ c.rec.max_ups * udp_len = omega arith in ground (arith, e)
