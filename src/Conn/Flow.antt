-- ===== src/Conn/Flow.antt =====
-- `do_conn_fc` of lib/src/conn.c, and `has_pval_wnd` and `has_wnd` of lib/src/conn.h.
use quant.Base.{
  ℕ, ◌+◌, ◌^◌, ◌<◌, ◌≡◌, Bool, true, false, not, ◌&&◌, ◌||◌, ltb, leb, ◌==◌, if◌then◌else◌, add64,
  mul64, arith,
}
use quant.Conn.State.{Conn, ConnState, conn_clsg, conn_drng}

abbrev pub is_ending : ConnState → Bool
is_ending conn_clsg = true
is_ending conn_drng = true
is_ending _ = false

-- `len` is a `uint16_t`.
unfoldable pub do_conn_fc : Conn → ℕ → Conn
do_conn_fc c len =
    if is_ending c.state
    then c
    else (let c1 =
          if not (len == 0)
            && ltb c.tp_peer.max_data (add64 (add64 c.out_data_str len) c.rec.max_ups)
          then record c { blocked = true }
          else c in
        if ltb c1.tp_mine.max_data (mul64 c1.in_data_str 4)
        then record c1 {
          tx_max_data = true;
          tp_mine = record (c1.tp_mine) { max_data = mul64 c1.tp_mine.max_data 4 };
        }
        else c1)

unfoldable pub has_pval_wnd : Conn → ℕ → Bool
has_pval_wnd c len = if leb c.path_val_win (add64 c.rec.cur.in_flight len) then false else true

unfoldable pub has_wnd : Conn → ℕ → Bool
unfolding has_pval_wnd
has_wnd c len =
    if c.blocked
    then false
    else if leb c.rec.cur.cwnd (add64 c.rec.cur.in_flight len)
    then false
    else if c.is_clnt
    then true
    else has_pval_wnd c len

-- With fewer than 2 ^ 63 bytes in flight and a length of 16 bits, sending is allowed exactly if
-- the connection is not blocked, the congestion window exceeds the bytes in flight and the
-- datagram together, and, for a server, the path validation window does.
pub has_wnd_lem :
    (c : Conn) (len : ℕ)
    → c.rec.cur.in_flight < 2 ^ 63
    → len < 2 ^ 16
    → has_wnd c len ≡ (
        not c.blocked
        && (ltb (c.rec.cur.in_flight + len) c.rec.cur.cwnd
            && (c.is_clnt || ltb (c.rec.cur.in_flight + len) c.path_val_win)))
unfolding has_wnd
has_wnd_lem c len h k = ground arith
