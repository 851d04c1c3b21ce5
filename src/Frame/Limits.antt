-- ===== src/Frame/Limits.antt =====
-- The frames that move limits: MAX_DATA, MAX_STREAM_DATA, MAX_STREAMS, DATA_BLOCKED,
-- STREAM_DATA_BLOCKED, STREAMS_BLOCKED, STOP_SENDING and RESET_STREAM (lib/src/frame.c). API calls
-- that these wake are left out.
use quant.Base.{ℕ, ◌^◌, max, Bool, true, false, none, some, List, ltb, ◌==◌, if◌then◌else◌}
use quant.Diet.Tree.{SplayOps}
use quant.Conn.State.{Conn, Strm, strm_clsd}
use quant.Conn.Flow.{do_conn_fc}
use quant.Stream.Store.{need_ctrl_update, put_stream, strm_to_state}
use quant.Stream.Fc.{do_stream_fc}
use quant.Stream.IdFc.{do_stream_id_fc}
use quant.Frame.{frm_rst, frm_stp, frm_mcd, frm_msd, frm_msu, frm_cdb, frm_sdb, frm_sbb}
use quant.Frame.Handled.{Handled, ok, fail_frm, decv_chk, get_and_validate_strm, err_pv}

-- A stream changed together with its connection.
abbrev pub put_pair : Conn × Strm → Conn
put_pair (c, s) = put_stream c s

-- The stream after a larger limit.
unfoldable pub raise_strm_data : Conn → Strm → ℕ → Conn
unfolding need_ctrl_update
raise_strm_data c s max =
    if ltb s.out_data_max max
    then (if s.blocked
        then put_pair (
            need_ctrl_update (record c { needs_tx = true })
              (record s { out_data_max = max; blocked = false }))
        else put_stream c (record s { out_data_max = max }))
    else c

unfoldable pub raise_max_data : Conn → ℕ → Conn
raise_max_data c max =
    if ltb c.tp_peer.max_data max
    then record c { tp_peer = record (c.tp_peer) { max_data = max }; blocked = false }
    else c

unfoldable pub raise_max_strms : Conn → ℕ → Bool → Conn
raise_max_strms c max uni =
    if uni
    then (if ltb c.tp_peer.max_strms_uni max
        then record c { tp_peer = record (c.tp_peer) { max_strms_uni = max } }
        else c)
    else if ltb c.tp_peer.max_strms_bidi max
    then record c { tp_peer = record (c.tp_peer) { max_strms_bidi = max } }
    else c

module _ (past : ℕ) where
  unfoldable pub dec_max_data_frame : Conn → List ℕ → Handled
  unfolding raise_max_data
  dec_max_data_frame c inp =
      decv_chk past c frm_mcd inp (λ max rest. ok (raise_max_data c max) rest)

  unfoldable pub dec_max_strms_frame : Conn → ℕ → List ℕ → Handled
  unfolding raise_max_strms
  dec_max_strms_frame c type inp = decv_chk past c type inp (λ max rest.
      if ltb (2 ^ 60) max
      then fail_frm c err_pv type
      else ok (raise_max_strms c max (type == frm_msu)) rest)

  unfoldable pub dec_data_blocked_frame : Conn → List ℕ → Handled
  unfolding do_conn_fc
  dec_data_blocked_frame c inp =
      decv_chk past c frm_cdb inp
        (λ off rest. ok (record (do_conn_fc c 0) { tx_max_data = true }) rest)

  unfoldable pub dec_streams_blocked_frame : Conn → ℕ → List ℕ → Handled
  unfolding do_stream_id_fc
  dec_streams_blocked_frame c type inp = decv_chk past c frm_sbb inp (λ max rest.
      if ltb (2 ^ 60) max
      then fail_frm c err_pv type
      else ok (do_stream_id_fc c max (type == frm_sbb) false) rest)

  module _ (ops : SplayOps) where
    -- The rest of a decoder, with the stream that the frame names; without one, it is done.
    abbrev with_strm : Conn → ℕ → ℕ → Bool → List ℕ → (Conn → Strm → Conn) → Handled
    with_strm c sid frm ok_when_writer rest k =
        let (c1, found) = get_and_validate_strm ops c sid frm ok_when_writer in
        elim found [ none ↦ ok c1 rest | some s ↦ ok (k c1 s) rest ]

    unfoldable pub dec_max_strm_data_frame : Conn → List ℕ → Handled
    unfolding get_and_validate_strm raise_strm_data
    dec_max_strm_data_frame c inp = decv_chk past c frm_msd inp (λ sid rest.
        decv_chk past c frm_msd rest
          (λ max rest'. with_strm c sid frm_msd true rest' (λ c1 s. raise_strm_data c1 s max)))

    unfoldable pub dec_strm_data_blocked_frame : Conn → List ℕ → Handled
    unfolding get_and_validate_strm do_stream_fc
    dec_strm_data_blocked_frame c inp = decv_chk past c frm_sdb inp (λ sid rest.
        decv_chk past c frm_sdb rest (λ off rest'.
          with_strm c sid frm_sdb false rest' (λ c1 s. put_pair (do_stream_fc c1 s 0))))

    unfoldable pub dec_stop_sending_frame : Conn → List ℕ → Handled
    unfolding get_and_validate_strm
    dec_stop_sending_frame c inp = decv_chk past c frm_stp inp (λ sid rest.
        decv_chk past c frm_stp rest
          (λ err_code rest'. with_strm c sid frm_stp true rest' (λ c1 s. c1)))

    unfoldable pub dec_reset_stream_frame : Conn → List ℕ → Handled
    unfolding get_and_validate_strm strm_to_state
    dec_reset_stream_frame c inp = decv_chk past c frm_rst inp (λ sid rest.
        decv_chk past c frm_rst rest (λ err_code rest'. decv_chk past c frm_rst rest' (λ off rest''.
          with_strm c sid frm_rst false rest''
            (λ c1 s. put_stream c1 (strm_to_state s strm_clsd)))))
