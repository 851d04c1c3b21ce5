-- ===== src/Frame/Data.antt =====
-- STREAM and CRYPTO frames: `dec_stream_or_crypto_frame` of lib/src/frame.c, with the packet types of
-- lib/src/pkt.h.
use quant.Base.{
  ℕ, ◌-◌, ◌/◌, ◌%◌, ◌^◌, Bool, true, false, not, ◌&&◌, ◌||◌, Option, none, some, List, ltb, ◌==◌,
  if◌then◌else◌, is_some, ◌>>=◌, length, drop, sub64,
}
use quant.Diet.Tree.{SplayOps}
use quant.Diet.Ops.{diet_find}
use quant.Conn.Packets.{
  PktMeta, StrmId, cry_init, cry_hshk, cry_data, numbered, Epoch, ep_init, ep_0rtt, ep_hshk,
  ep_data, Seg,
}
use quant.Conn.State.{Conn, Strm}
use quant.Conn.Close.{err_close}
use quant.Marshall.Dec.{decv}
use quant.Recovery.Detect.{detect_all_lost_pkts}
use quant.Stream.Ids.{is_srv_ini, same_bool, max_sid}
use quant.Stream.Store.{get_stream, put_stream, deref_strm}
use quant.Stream.Life.{new_stream}
use quant.Stream.Reassembly.{
  Placed, placed, refused, sdt_seq, sdt_ooo, sdt_dup, sdt_ign, place_data, right_edge, trimmed,
}
use quant.Frame.{frm_cry}
use quant.Frame.Handled.{err_fram_enc, err_strm_stat, err_strm_limt, err_fc}

abbrev pub lh_init : ℕ
lh_init = 0x00

abbrev pub lh_0rtt : ℕ
lh_0rtt = 0x10

abbrev pub lh_hshk : ℕ
lh_hshk = 0x20

abbrev pub lh_rtry : ℕ
lh_rtry = 0x30

unfoldable pub epoch_for_pkt_type : ℕ → Epoch
epoch_for_pkt_type type =
    if type == lh_init || type == lh_rtry
    then ep_init
    else if type == lh_0rtt
    then ep_0rtt
    else if type == lh_hshk
    then ep_hshk
    else ep_data

-- The crypto stream of an epoch; there is none for 0-RTT.
abbrev pub crpt_strm_id : Epoch → Option StrmId
crpt_strm_id ep_init = some cry_init
crpt_strm_id ep_0rtt = none
crpt_strm_id ep_hshk = some cry_hshk
crpt_strm_id ep_data = some cry_data

-- `F_STREAM_FIN`, `F_STREAM_LEN` and `F_STREAM_OFF`, bits 0, 1 and 2 of the type.
abbrev pub has_fin : ℕ → Bool
has_fin type = type % 2 == 1

abbrev pub has_len : ℕ → Bool
has_len type = type / 2 % 2 == 1

abbrev pub has_off : ℕ → Bool
has_off type = type / 4 % 2 == 1

abbrev pub is_cry : ℕ → Bool
is_cry type = type == frm_cry

-- The frame was taken, with the packet's meta data and the bytes that are left; or the connection was
-- closed with an error; or a check fails and the program stops.
pub data StrmFrame : Type 0 where
  taken : Conn → PktMeta → List ℕ → StrmFrame
  failed : Conn → StrmFrame
  died : StrmFrame

abbrev pub fail_strm : Conn → ℕ → ℕ → StrmFrame
fail_strm c code type = failed (err_close c code type)

-- `decv_chk`.
abbrev pub strm_chk : Conn → ℕ → Option (ℕ × List ℕ) → (ℕ → List ℕ → StrmFrame) → StrmFrame
strm_chk c type none k = fail_strm c err_fram_enc type
strm_chk c type (some (v, rest)) k = k v rest

abbrev pub seg_of : PktMeta → Seg
seg_of m = record { off = m.strm_off; len = m.strm_data_len; fin = m.is_fin }

-- What follows the label `done`.
unfoldable pub finish_strm : ℕ → Conn → PktMeta → Option Strm → Bool → List ℕ → StrmFrame
finish_strm type c m s ignore rest =
    let over : Bool = elim s [
      | none ↦ false
      | some t ↦ not (is_cry type) && ltb (sub64 t.in_data_max 1) (right_edge (seg_of m))
    ] in
    if over
    then fail_strm c err_fc type
    else taken c (if ignore then record m { strm = none } else m) (drop m.strm_data_len rest)

-- The meta data of a packet whose data was trimmed.
abbrev pub trim_meta : Strm → PktMeta → PktMeta
unfolding trimmed
trim_meta s m = let g = trimmed s (seg_of m) in record m { strm_off = g.off; strm_data_len = g.len }

-- The bytes that the trimming passes over are no longer in front of what is left.
abbrev pub trim_rest : Strm → PktMeta → List ℕ → List ℕ
trim_rest s m rest =
    drop (if ltb m.strm_off s.in_data_off then s.in_data_off - m.strm_off else 0) rest

module _ (ops : SplayOps) (w_max default_ups now now2 : ℕ) where
  -- After the data was placed.
  unfoldable pub after_place : ℕ → PktMeta → Strm → List ℕ → Placed → StrmFrame
  unfolding finish_strm detect_all_lost_pkts trim_meta
  after_place type m s rest (refused c t) = failed (put_stream c t)
  after_place type m s rest (placed sdt_seq c t) =
      finish_strm type (put_stream c t) (trim_meta s m) (some t) false (trim_rest s m rest)
  after_place type m s rest (placed sdt_ooo c t) =
      finish_strm type (put_stream c t) m (some t) false rest
  after_place type m s rest (placed sdt_ign c t) =
      finish_strm type (put_stream c t) m (some t) true rest
  after_place type m s rest (placed sdt_dup c t) =
      if not c.is_clnt && m.hdr_type == lh_init
      then elim (detect_all_lost_pkts ops w_max default_ups now now2 (put_stream c t) false) [
        | none ↦ died
        | some (c1, tx) ↦ finish_strm type c1 m (some t) true rest
      ]
      else finish_strm type (put_stream c t) m (some t) true rest

  unfoldable pub place_strm : ℕ → Conn → PktMeta → Strm → List ℕ → StrmFrame
  unfolding after_place place_data
  place_strm type c m s rest =
      after_place type m s rest (place_data type (is_cry type) m.pn c s (seg_of m))

  -- The stream is not open: it was closed, or the peer opens it.
  unfoldable pub open_strm : ℕ → Conn → PktMeta → ℕ → List ℕ → StrmFrame
  unfolding place_strm finish_strm new_stream diet_find
  open_strm type c m sid rest =
      let (clsd, found) = diet_find ops c.clsd_strms sid in
      let c1 = record c { clsd_strms = clsd } in
      if is_some found
      then finish_strm type c1 m none true rest
      else if not (same_bool (is_srv_ini (numbered sid)) c.is_clnt)
      then fail_strm c1 err_strm_stat type
      else elim (new_stream c1 (numbered sid)) [
        | none ↦ died
        | some (c2, s) ↦ place_strm type c2 (record m { strm = some s.id }) s rest
      ]

  -- "deliver data into stream"; `sid` is the number of a stream that is not a crypto stream.
  unfoldable pub deliver : ℕ → Conn → PktMeta → Option Strm → ℕ → List ℕ → StrmFrame
  unfolding open_strm place_strm finish_strm
  deliver type c m s sid rest =
      if m.strm_data_len == 0 && not m.is_fin
      then finish_strm type c m s true rest
      else elim s [ none ↦ open_strm type c m sid rest | some t ↦ place_strm type c m t rest ]

  module _ (past : ℕ) where
    -- The offset, if the frame has one.
    abbrev pub read_off : ℕ → Conn → List ℕ → (ℕ → List ℕ → StrmFrame) → StrmFrame
    read_off type c inp k =
        if has_off type || is_cry type then strm_chk c type (decv past inp) k else k 0 inp

    -- The length: without one, the data extends to the end of the packet.
    abbrev pub read_len : ℕ → Conn → List ℕ → (ℕ → List ℕ → StrmFrame) → StrmFrame
    read_len type c inp k =
        if has_len type || is_cry type
        then strm_chk c type (decv past inp)
            (λ l rest. if ltb (length rest) l then fail_strm c err_fram_enc type else k l rest)
        else k (length inp % 2 ^ 16) inp

    unfoldable pub read_data : ℕ → Conn → PktMeta → Option Strm → Option ℕ → List ℕ → StrmFrame
    unfolding deliver
    read_data type c m s sid inp = read_off type c inp (λ off r1. read_len type c r1 (λ l r2.
        let m1 = record m { strm_off = off; strm_data_len = l % 2 ^ 16 } in
        let n : ℕ = elim sid [ none ↦ 0 | some x ↦ x ] in
        if is_some sid && ltb (max_sid n c) n
        then fail_strm c err_strm_limt type
        else deliver type c m1 s n r2))

    unfoldable pub dec_stream_or_crypto_frame : ℕ → Conn → PktMeta → List ℕ → StrmFrame
    unfolding read_data get_stream epoch_for_pkt_type max_sid
    dec_stream_or_crypto_frame type c m inp =
        if is_cry type
        then elim (crpt_strm_id (epoch_for_pkt_type m.hdr_type) >>= deref_strm c) [
          | none ↦ fail_strm c err_strm_stat type
          | some s ↦ read_data type c (record m { strm = some s.id }) (some s) none inp
        ]
        else strm_chk c type (decv past inp) (λ sid rest.
          let s = get_stream c (numbered sid) in
          read_data type c
            (record m { is_fin = has_fin type; strm = elim s [ none ↦ none | some t ↦ some t.id ] })
            s (some sid) rest)
