-- ===== src/Stream/Fc.antt =====
-- Flow control of one stream: `do_stream_fc`, the counters, `apply_stream_limits` and
-- `reset_stream` of lib/src/stream.c.
use quant.Base.{
  ℕ, ◌+◌, ◌*◌, ◌^◌, ◌<◌, ◌≡◌, Bool, true, not, ◌||◌, ltb, if◌then◌else◌, add64, mul64, arith,
}
use quant.Conn.Packets.{StrmId}
use quant.Conn.State.{Conn, Strm, TransportParams}
use quant.Stream.Ids.{is_uni, is_srv_ini, is_numbered, same_bool}
use quant.Stream.Store.{need_ctrl_update, needs_ctrl, IsMarked, need_ctrl_update_lem}

-- The stream after the two tests of `do_stream_fc`; `len` is a `uint16_t`.
unfoldable pub fc_strm : Strm → ℕ → Strm
fc_strm s len =
    let used = ltb s.in_data_max (mul64 s.in_data 4) in
    record s {
      blocked = ltb s.out_data_max (add64 s.out_data len);
      tx_max_strm_data = if used then true else s.tx_max_strm_data;
      in_data_max = if used then mul64 s.in_data_max 4 else s.in_data_max;
    }

unfoldable pub do_stream_fc : Conn → Strm → ℕ → Conn × Strm
unfolding fc_strm
do_stream_fc c s len =
    let s1 = fc_strm s len in
    if not (same_bool s.blocked s1.blocked)
      || not (same_bool s.tx_max_strm_data s1.tx_max_strm_data)
    then need_ctrl_update c s1
    else (c, s1)

unfoldable pub track_bytes_in : Conn → Strm → ℕ → Conn × Strm
track_bytes_in c s n = (
  if is_numbered s.id then record c { in_data_str = add64 c.in_data_str n } else c,
  record s { in_data = add64 s.in_data n },
)

unfoldable pub track_bytes_out : Conn → Strm → ℕ → Conn × Strm
track_bytes_out c s n = (
  if is_numbered s.id then record c { out_data_str = add64 c.out_data_str n } else c,
  record s { out_data = add64 s.out_data n },
)

-- The windows that a stream of this kind begins with, from one side's transport parameters.
abbrev pub initial_max : Bool → TransportParams → StrmId → ℕ
initial_max remote tp id =
    if is_uni id
    then tp.max_strm_data_uni
    else (if remote then tp.max_strm_data_bidi_remote else tp.max_strm_data_bidi_local)

unfoldable pub apply_stream_limits : Conn → Strm → Conn × Strm
unfolding do_stream_fc
apply_stream_limits c s =
    let remote = same_bool (is_srv_ini s.id) c.is_clnt in
    let s1 = record s {
      in_data_max = initial_max remote c.tp_mine s.id;
      out_data_max = initial_max remote c.tp_peer s.id;
    } in
    if is_numbered s.id then do_stream_fc c s1 0 else (c, s1)

-- The marks on the stream that the two calls agree on: those of its list, and that it is on the
-- list exactly if it needs a control frame.
abbrev pub IsListed : Conn → Strm → Type 0
IsListed c s = IsMarked c s × (s.in_ctrl ≡ needs_ctrl s)

-- With counters below 2 ^ 60 and a length of 16 bits: the stream is blocked exactly if the bytes
-- to send would pass the peer's limit; the receive window grows fourfold, and its announcement is
-- scheduled, exactly if more than a quarter of it was used; and a stream that is on the list of
-- those that need a control frame, once, exactly if it needs one stays so.
pub do_stream_fc_lem :
    (c : Conn) (s : Strm) (len : ℕ)
    → IsListed c s
    → s.out_data < 2 ^ 60
    → s.in_data < 2 ^ 60
    → s.in_data_max < 2 ^ 60
    → len < 2 ^ 16
    → let (c', s') = do_stream_fc c s len in
      IsListed c' s'
      × (s'.blocked ≡ ltb s.out_data_max (s.out_data + len))
      × (s'.in_data_max
          ≡ (if ltb s.in_data_max (4 * s.in_data) then 4 * s.in_data_max else s.in_data_max))
      × (s'.tx_max_strm_data ≡ (ltb s.in_data_max (4 * s.in_data) || s.tx_max_strm_data))
unfolding do_stream_fc fc_strm need_ctrl_update
do_stream_fc_lem c s len h a b d l =
    let r = need_ctrl_update_lem c (fc_strm s len) h.0 in ground arith
