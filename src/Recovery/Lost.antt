-- ===== src/Recovery/Lost.antt =====
-- A sent packet that is lost: `on_pkt_lost` of lib/src/recovery.c.
use quant.Base.{
  ℕ, zero, suc, ◌+◌, ◌%◌, ◌/◌, ◌^◌, Bool, true, not, ◌&&◌, ◌||◌, Option, none, some, ◌==◌,
  if◌then◌else◌, add64, sub64,
}
use quant.Diet.Tree.{SplayOps}
use quant.Diet.Ops.{diet_insert}
use quant.Conn.Packets.{PktMeta, StrmId}
use quant.Conn.State.{Conn, Strm, get_pn, set_pn}
use quant.Frame.{
  frm_rst, frm_stp, frm_tok, frm_mcd, frm_msd, frm_msb, frm_msu, frm_cdb, frm_sdb, frm_sbb, frm_sbu,
  frm_cid, frm_rtr, frm_hsd, frm_max,
}
use quant.Pn.Sent.{pm_by_nr_del}
use quant.Stream.Store.{get_stream, put_stream, deref_strm, need_ctrl_update}
use quant.Recovery.Flight.{remove_from_in_flight}

abbrev pub uint16_max : ℕ
uint16_max = 0xffff

abbrev pub all_ctrl : ℕ → Bool
all_ctrl i =
    i == frm_rst
    || i == frm_stp
    || i == frm_tok
    || i == frm_mcd
    || i == frm_msd
    || i == frm_msb
    || i == frm_msu
    || i == frm_cdb
    || i == frm_sdb
    || i == frm_sbb
    || i == frm_sbu
    || i == frm_cid
    || i == frm_rtr
    || i == frm_hsd

-- A lost MAX_STREAM_DATA: it is sent again if the stream is still there.
abbrev pub rtx_max_strm_data : Conn → Option Strm → Conn
rtx_max_strm_data c none = c
rtx_max_strm_data c (some s) =
    let (c1, s1) = need_ctrl_update c (record s { tx_max_strm_data = true }) in put_stream c1 s1

-- What is scheduled when a control frame of one type is lost; `none` is the `die` on a type that is
-- never sent.
unfoldable pub rtx_frame : Conn → PktMeta → ℕ → Option Conn
unfolding get_stream need_ctrl_update
rtx_frame c m i =
    if i == frm_cid
    then some (record c { max_cid_seq_out = sub64 m.min_cid_seq 1 })
    else if i == frm_cdb || i == frm_sdb
    then some c
    else if i == frm_hsd
    then some (record c { tx_hshk_done = true })
    else if i == frm_tok
    then some (record c { tx_new_tok = true })
    else if i == frm_sbb
    then some (record c { sid_blocked_bidi = true })
    else if i == frm_sbu
    then some (record c { sid_blocked_uni = true })
    else if i == frm_rtr
    then some (record c { tx_retire_cid = true })
    else if i == frm_mcd
    then some (record c { tx_max_data = true })
    else if i == frm_msb
    then some (record c { tx_max_sid_bidi = true })
    else if i == frm_msu
    then some (record c { tx_max_sid_uni = true })
    else if i == frm_msd
    then some (rtx_max_strm_data c (get_stream c m.max_strm_data_sid))
    else none

-- The loop over the `n` types from `i` on.
unfoldable pub rtx_frames : ℕ → ℕ → Conn → PktMeta → Option Conn
unfolding rtx_frame
rtx_frames zero i c m = some c
rtx_frames (suc n) i c m =
    if all_ctrl i && m.frms i
    then elim (rtx_frame c m i) [
      | none ↦ none
      | some c1 ↦ rtx_frames n (i + 1) (record c1 { needs_tx = true }) m
    ]
    else rtx_frames n (i + 1) c m

-- The packet was the probe for a larger datagram size; `default_ups` is what `default_max_ups`
-- returns.
unfoldable pub lose_pmtu : ℕ → Conn → PktMeta → Conn
lose_pmtu default_ups c m =
    if not (c.pmtud_pkt == uint16_max)
      && (m.nr == c.pmtud_pkt % 2 ^ 14 && m.hdr_type == c.pmtud_pkt / 2 ^ 14)
    then record c { rec = record (c.rec) { max_ups = default_ups }; pmtud_pkt = uint16_max }
    else c

-- The stream of the packet counts it.
abbrev pub count_lost : Conn → Option Strm → Conn
count_lost c none = c
count_lost c (some s) = put_stream c (record s { lost_cnt = add64 s.lost_cnt 1 })

abbrev pub lose_strm : Conn → PktMeta → Option StrmId → Conn
lose_strm c m none = c
lose_strm c m (some id) = if m.has_rtx then c else count_lost c (deref_strm c id)

abbrev pub count_ae_lost : Conn → PktMeta → Conn
count_ae_lost c m =
    let pn = get_pn c m.pn in
    if m.ack_eliciting
    then set_pn c m.pn
        (record pn { pkts_lost_since_last_ack_tx = add64 pn.pkts_lost_since_last_ack_tx 1 })
    else c

-- The packet's bytes leave the network.
unfoldable pub lose_bytes : Conn → PktMeta → Option Conn
unfolding remove_from_in_flight
lose_bytes c m =
    if m.in_flight
    then elim (remove_from_in_flight c m) [ none ↦ none | some c1 ↦ some (count_ae_lost c1 m) ]
    else some c

module _ (ops : SplayOps) where
  -- The packet's number leaves the table and joins the acknowledged or lost ones.
  unfoldable pub lose_nr : Conn → PktMeta → Option Conn
  unfolding pm_by_nr_del
  lose_nr c m =
      let pn = get_pn c m.pn in
      elim (pm_by_nr_del ops
        (record pn { acked_or_lost = (diet_insert ops pn.acked_or_lost m.nr 0).0 }) m) [
          | none ↦ none
          | some pn1 ↦ some (set_pn c m.pn pn1)
        ]

  unfoldable pub on_pkt_lost : ℕ → Conn → PktMeta → Bool → Option (Conn × PktMeta)
  unfolding lose_bytes lose_pmtu lose_nr rtx_frames
  on_pkt_lost default_ups c m is_lost = elim (lose_bytes c m) [
    | none ↦ none
    | some c1 ↦ elim (lose_nr (lose_pmtu default_ups c1 m) m) [
      | none ↦ none
      | some c2 ↦
          (if not is_lost then some (c2, m) else elim (rtx_frames frm_max 0 c2 m) [
            | none ↦ none
            | some c3 ↦ some (lose_strm c3 m m.strm, record m { lost = true })
          ])
    ]
  ]
