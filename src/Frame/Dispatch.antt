-- ===== src/Frame/Dispatch.antt =====
-- The loop over the frames of a received packet: `dec_frames` of lib/src/frame.c. The bytes are those
-- of the payload. `env` stands for what `dec_ack_frame` calls that is not modelled.
use quant.Base.{
  ℕ, zero, suc, Bool, true, false, not, ◌&&◌, ◌||◌, Option, none, some, List, [], ◌∷◌, ltb, ◌==◌,
  if◌then◌else◌, is_some,
}
use quant.Diet.Tree.{SplayOps}
use quant.Conn.Packets.{PktMeta, numbered, pn_hshk, Epoch, ep_init, ep_0rtt, ep_hshk, ep_data}
use quant.Conn.State.{Conn, get_pn, set_pn}
use quant.Conn.Close.{err_close}
use quant.Pn.Sent.{no_frames}
use quant.Pn.Abandon.{abandon_pn}
use quant.Frame.AckDec.{AckEnv, dec_ack_frame}
use quant.Frame.{
  frm_pad, frm_png, frm_ack, frm_ace, frm_rst, frm_stp, frm_cry, frm_tok, frm_str, frm_str_09,
  frm_str_0a, frm_str_0b, frm_str_0c, frm_str_0d, frm_str_0e, frm_str_0f, frm_mcd, frm_msd, frm_msb,
  frm_msu, frm_cdb, frm_sdb, frm_sbb, frm_sbu, frm_cid, frm_rtr, frm_pcl, frm_prp, frm_clq, frm_cla,
  frm_hsd, frm_max, any_frm,
}
use quant.Frame.Handled.{Handled, err_pv, err_fram_enc}
use quant.Frame.Data
use quant.Frame.Data.{StrmFrame, epoch_for_pkt_type, dec_stream_or_crypto_frame, is_cry}
use quant.Frame.Limits.{
  dec_max_data_frame, dec_max_strms_frame, dec_data_blocked_frame, dec_streams_blocked_frame,
  dec_max_strm_data_frame, dec_strm_data_blocked_frame, dec_stop_sending_frame,
  dec_reset_stream_frame,
}
use quant.Frame.Paths.{
  dec_path_challenge_frame, dec_path_response_frame, dec_new_cid_frame, dec_retire_cid_frame,
  dec_new_token_frame, dec_close_frame,
}
use quant.Frame.Enc.{track_frame}

abbrev pub one_of : ℕ → List ℕ → Bool
one_of type [] = false
one_of type (t ∷ ts) = type == t || one_of type ts

abbrev hshk_frames : List ℕ
hshk_frames = frm_pad ∷ frm_png ∷ frm_cry ∷ frm_clq ∷ frm_ack ∷ frm_ace ∷ []

abbrev str_frames : List ℕ → List ℕ
str_frames ts =
    frm_str ∷ frm_str_09 ∷ frm_str_0a ∷ frm_str_0b ∷ frm_str_0c ∷ frm_str_0d ∷ frm_str_0e
    ∷ frm_str_0f ∷ ts

abbrev limit_frames : List ℕ → List ℕ
limit_frames ts = frm_mcd ∷ frm_msd ∷ frm_msb ∷ frm_msu ∷ frm_cdb ∷ frm_sdb ∷ frm_sbb ∷ frm_sbu ∷ ts

-- `frame_ok`: the types that a packet may hold, by its epoch.
unfoldable pub frame_ok : Epoch → List ℕ
frame_ok ep_init = hshk_frames
frame_ok ep_hshk = hshk_frames
frame_ok ep_0rtt =
    frm_pad ∷ frm_png ∷ frm_rst ∷ frm_stp ∷ str_frames (limit_frames (frm_cid ∷ frm_pcl ∷ []))
frame_ok ep_data =
    frm_pad
    ∷ frm_png
    ∷ frm_cry
    ∷ frm_clq
    ∷ frm_cla
    ∷ frm_ack
    ∷ frm_ace
    ∷ frm_rst
    ∷ frm_stp
    ∷ frm_tok
    ∷ str_frames (limit_frames (frm_cid ∷ frm_rtr ∷ frm_pcl ∷ frm_prp ∷ frm_hsd ∷ []))

unfoldable pub is_allowed : PktMeta → ℕ → Bool
unfolding frame_ok epoch_for_pkt_type
is_allowed m type = one_of type (frame_ok (epoch_for_pkt_type m.hdr_type))

-- The type behind a range of padding, and the bytes behind it; `none` is the end of the packet.
unfoldable pub skip_pad : List ℕ → Option (ℕ × List ℕ)
skip_pad [] = none
skip_pad (b ∷ bs) = if b == frm_pad then skip_pad bs else some (b, bs)

-- What the switch comes to: the flag `ok`, the type that is tracked, and the bytes that are left; or
-- it returned after an error; or a check fails and the program stops.
pub data Switched : Type 0 where
  done : Conn → PktMeta → Bool → ℕ → List ℕ → Switched
  closed : Conn → Switched
  died : Switched

abbrev pub of_handled : PktMeta → ℕ → Handled → Switched
of_handled m type (Handled.ok c rest) = done c m true type rest
of_handled m type (Handled.failed c) = done c m false type []
of_handled m type Handled.died = died

abbrev pub of_strm : PktMeta → ℕ → StrmFrame → Switched
of_strm m type (Data.taken c m1 rest) = done c m1 true type rest
of_strm m type (Data.failed c) = done c m false type []
of_strm m type Data.died = died

-- The meta data of the copy that is made for a second frame with data.
abbrev pub dup_meta : PktMeta → PktMeta
dup_meta m = record m {
  frms = no_frames;
  strm = none;
  max_strm_data_sid = numbered 0;
  max_strm_data = 0;
  max_data = 0;
  strm_data_blocked = 0;
  data_blocked = 0;
  min_cid_seq = 0;
  retire_cid_seq = 0;
  strm_off = 0;
  strm_data_len = 0;
}

abbrev pub is_str : ℕ → Bool
is_str type = one_of type (str_frames [])

-- What no case takes.
abbrev pub or_unknown : Conn → PktMeta → ℕ → Option Handled → Switched
or_unknown c m type none = closed (err_close c err_fram_enc type)
or_unknown c m type (some h) = of_handled m type h

-- What a packet comes to.
pub data Decoded : Type 0 where
  decoded : Conn → PktMeta → Decoded
  refused : Conn → Decoded
  stopped : Decoded

-- The end of dec_frames.
unfoldable pub end_frames : Conn → PktMeta → Decoded
end_frames c m =
    if not (any_frm frm_max m.frms)
    then refused (err_close c err_pv 0)
    else (let pn = get_pn c m.pn in
        decoded (set_pn c m.pn (record pn { rx_frames = λ i. pn.rx_frames i || m.frms i })) m)

-- What is left of the loop: a frame to handle, with the meta data that has the padding in front of
-- it; the end; or an error.
pub data Next : Type 0 where
  handle : PktMeta → ℕ → List ℕ → Next
  end : PktMeta → Next
  forbid : ℕ → Next

-- The test of the type and the padding. A type that is the last byte behind padding is dropped.
unfoldable pub next_frame : PktMeta → ℕ → List ℕ → Next
unfolding is_allowed skip_pad track_frame
next_frame m type rest =
    if ltb type frm_max && not (is_allowed m type)
    then forbid type
    else if type == frm_pad
    then (let m1 = track_frame m frm_pad in
        elim (skip_pad rest) [
          | none ↦ end m1
          | some (t, []) ↦ end m1
          | some (t, b ∷ bs) ↦ handle m1 t (b ∷ bs)
        ])
    else handle m type rest

module _ (ops : SplayOps) (w_max default_ups now now2 past : ℕ) (srt_new can_dup : List ℕ → Bool)
    (env : AckEnv) where
  -- STREAM and CRYPTO: without memory for the copy, the frame is left where it is. `ok` is the flag
  -- that the frame before it left.
  unfoldable pub data_frame : Conn → PktMeta → Bool → ℕ → List ℕ → Switched
  unfolding dec_stream_or_crypto_frame
  data_frame c m ok type rest =
      let again = (m.frms frm_cry || m.frms frm_str) && is_some m.strm in
      if again && not (can_dup rest)
      then done c m ok type rest
      else (let m1 = if again then dup_meta m else m in
          of_strm m1 (if is_cry type then frm_cry else frm_str)
            (dec_stream_or_crypto_frame ops w_max default_ups now now2 past type c m1 rest))

  -- HANDSHAKE_DONE ends the handshake packet number space of a client.
  unfoldable pub done_frame : Conn → PktMeta → List ℕ → Switched
  unfolding abandon_pn
  done_frame c m rest =
      if not c.is_clnt
      then closed (err_close c err_pv frm_hsd)
      else if c.pns_hshk.abandoned
      then done c m true frm_hsd rest
      else elim (abandon_pn ops w_max c pn_hshk) [
        | none ↦ died
        | some c1 ↦ done c1 m true frm_hsd rest
      ]

  -- The frames on streams and limits.
  unfoldable pub limit_frame : Conn → ℕ → List ℕ → Option Handled
  unfolding dec_max_data_frame dec_max_strms_frame dec_data_blocked_frame dec_streams_blocked_frame
      dec_max_strm_data_frame dec_strm_data_blocked_frame dec_stop_sending_frame
      dec_reset_stream_frame
  limit_frame c type rest =
      if type == frm_rst
      then some (dec_reset_stream_frame past ops c rest)
      else if type == frm_msd
      then some (dec_max_strm_data_frame past ops c rest)
      else if type == frm_msb || type == frm_msu
      then some (dec_max_strms_frame past c type rest)
      else if type == frm_mcd
      then some (dec_max_data_frame past c rest)
      else if type == frm_sdb
      then some (dec_strm_data_blocked_frame past ops c rest)
      else if type == frm_cdb
      then some (dec_data_blocked_frame past c rest)
      else if type == frm_sbb || type == frm_sbu
      then some (dec_streams_blocked_frame past c type rest)
      else if type == frm_stp
      then some (dec_stop_sending_frame past ops c rest)
      else none

  -- The frames on paths and connection IDs.
  unfoldable pub path_frame : Conn → PktMeta → ℕ → List ℕ → Option Handled
  unfolding dec_path_challenge_frame dec_path_response_frame dec_new_cid_frame dec_retire_cid_frame
      dec_new_token_frame dec_close_frame
  path_frame c m type rest =
      if type == frm_clq || type == frm_cla
      then some (dec_close_frame past c type rest)
      else if type == frm_pcl
      then some (dec_path_challenge_frame c rest)
      else if type == frm_prp
      then some (dec_path_response_frame c m rest)
      else if type == frm_cid
      then some (dec_new_cid_frame past srt_new c rest)
      else if type == frm_tok
      then some (dec_new_token_frame past c rest)
      else if type == frm_rtr
      then some (dec_retire_cid_frame past c rest)
      else none

  unfoldable pub or_path : Conn → PktMeta → ℕ → List ℕ → Option Handled → Switched
  unfolding path_frame
  or_path c m type rest none = or_unknown c m type (path_frame c m type rest)
  or_path c m type rest (some h) = of_handled m type h

  -- The switch.
  unfoldable pub dec_frame : Conn → PktMeta → Bool → ℕ → List ℕ → Switched
  unfolding data_frame done_frame limit_frame or_path dec_ack_frame
  dec_frame c m ok type rest =
      if is_cry type || is_str type
      then data_frame c m ok type rest
      else if type == frm_ace || type == frm_ack
      then of_handled m frm_ack
          (dec_ack_frame ops w_max default_ups now now2 env past type c m rest)
      else if type == frm_png
      then done c m true type rest
      else if type == frm_hsd
      then done_frame c m rest
      else or_path c m type rest (limit_frame c type rest)

  -- The loop; `none` is there that the fuel ran out.
  unfoldable pub dec_frames : ℕ → Conn → PktMeta → Bool → List ℕ → Option Decoded
  unfolding next_frame dec_frame end_frames track_frame
  dec_frames fuel c m ok [] = some (end_frames c m)
  dec_frames zero c m ok (type ∷ rest) = none
  dec_frames (suc fuel) c m ok (type ∷ rest) = elim (next_frame m type rest) [
    | forbid t ↦ some (refused (err_close c err_pv t))
    | end m1 ↦ some (end_frames c m1)
    | handle m1 t r ↦ elim (dec_frame c m1 ok t r) [
      | died ↦ some stopped
      | closed c1 ↦ some (refused c1)
      | done c1 m2 false t1 r1 ↦ some (refused (err_close c1 err_fram_enc t1))
      | done c1 m2 true t1 r1 ↦ dec_frames fuel c1 (track_frame m2 t1) true r1
    ]
  ]
