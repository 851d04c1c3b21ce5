-- ===== src/Frame/Paths.antt =====
-- The frames on connection IDs and paths, and those that close: NEW_CONNECTION_ID,
-- RETIRE_CONNECTION_ID, NEW_TOKEN, PATH_CHALLENGE, PATH_RESPONSE and CONNECTION_CLOSE
-- (lib/src/frame.c).
use quant.Base.{
  ℕ, ◌+◌, ◌%◌, ◌^◌, min, Bool, true, false, not, ◌&&◌, ◌||◌, Option, none, some, List, [], ltb, leb,
  ◌==◌, if◌then◌else◌, is_some, ◌>>=◌, length,
}
use quant.Cid.Lists.{Cid, cid_by_seq, next_cid, bytes_eq}
use quant.Cid.Ops.{cid_ins, cid_del, retire_prior_to}
use quant.Conn.Packets.{PktMeta}
use quant.Conn.State.{Conn, conn_clsg, conn_drng}
use quant.Conn.Close.{enter_closing, is_clsg}
use quant.Cid.Deref.{deref_cid}
use quant.Conn.Dcid.{use_next_dcid}
use quant.Frame.{frm_tok, frm_cid, frm_rtr, frm_pcl, frm_prp, frm_clq}
use quant.Frame.Handled.{
  Handled, ok, died, fail_frm, decv_chk, dec1_chk, decb_chk, err_fram_enc, err_cid_limt, err_pv,
}
use quant.Recovery.Congestion.{min_ini_len}

abbrev pub path_chlg_len : ℕ
path_chlg_len = 8

abbrev pub cid_len_max : ℕ
cid_len_max = 20

abbrev pub srt_len : ℕ
srt_len = 16

abbrev pub max_tok_len : ℕ
max_tok_len = 166

abbrev pub challenged : Conn → List ℕ → Conn
challenged c bytes = record c {
  path_chlg_in = bytes;
  path_resp_out = bytes;
  needs_tx = true;
  tx_path_resp = true;
}

unfoldable pub dec_path_challenge_frame : Conn → List ℕ → Handled
dec_path_challenge_frame c inp =
    decb_chk c frm_pcl path_chlg_len inp (λ bytes rest. ok (challenged c bytes) rest)

-- The connection moves to the new path.
abbrev pub finish_migration : Conn → Conn
finish_migration c = record c {
  peer = c.migr_peer;
  sock = c.migr_sock;
  migr_sock = none;
  holds_migr_sock = false;
  tx_path_chlg = false;
  tx_limit = 0;
}

-- A response is ignored in a short packet, without a challenge, and with other bytes.
abbrev pub answer : Conn → PktMeta → List ℕ → List ℕ → Handled
answer c m bytes rest =
    if ltb m.udp_len min_ini_len
      || (not c.tx_path_chlg || not (bytes_eq path_chlg_len bytes c.path_chlg_out))
    then ok (record c { path_resp_in = bytes }) rest
    else ok (finish_migration (record c { path_resp_in = bytes })) rest

unfoldable pub dec_path_response_frame : Conn → PktMeta → List ℕ → Handled
dec_path_response_frame c m inp = decb_chk c frm_prp path_chlg_len inp (answer c m)

abbrev pub new_cid : ℕ → ℕ → List ℕ → List ℕ → Cid
new_cid seq len id srt = record {
  slot = 0;
  seq = seq;
  len = len;
  id = id;
  srt = srt;
  has_srt = true;
  in_cbi = false;
  retired = false;
  available = false;
  local_choice = false;
}

abbrev pub max_act_cids : Conn → ℕ
max_act_cids c = c.tp_mine.act_cid_lim + (if c.tp_peer.pref_addr.cid.len == 0 then 0 else 1)

-- The older connection IDs are retired; if the one in use is among them, another one is used.
-- `none` is a failed check.
unfoldable pub retire_older : Conn → Cid → ℕ → Option Conn
unfolding retire_prior_to use_next_dcid
retire_older c cur rpt =
    if ltb c.rpt_max rpt
    then retire_prior_to c.dcids rpt >>= (λ ids.
      let c1 = record c { dcids = ids; rpt_max = rpt } in
      if ltb cur.seq rpt then use_next_dcid (record c1 { tx_retire_cid = true }) false else some c1)
    else some c

-- `srt_new` tells whether a reset token is not yet in the table of tokens.
unfoldable pub ins_dcid : (List ℕ → Bool) → Conn → Cid → List ℕ → Handled
unfolding cid_ins
ins_dcid srt_new c id rest = elim (cid_ins c.dcids id) [
  | none ↦ died
  | some (ids, none) ↦ fail_frm (record c { dcids = ids }) err_pv frm_cid
  | some (ids, some new) ↦
      (if srt_new new.srt
        then ok (record c { dcids = ids }) rest
        else fail_frm (record c { dcids = ids }) err_pv frm_cid)
]

-- What follows the retirement, unless that failed a check.
abbrev pub finish_new_cid : (List ℕ → Bool) → Bool → Cid → List ℕ → Option Conn → Handled
finish_new_cid srt_new dup id rest none = died
finish_new_cid srt_new dup id rest (some c) = if dup then ok c rest else ins_dcid srt_new c id rest

-- The rest of the decoder, with the fields of the frame and the connection ID in use.
unfoldable pub take_new_cid : (List ℕ → Bool) → Conn → Cid → ℕ → Cid → List ℕ → Handled
unfolding cid_by_seq
take_new_cid srt_new c cur rpt id rest =
    let dup = is_some (cid_by_seq c.dcids.act id.seq) || leb id.seq cur.seq in
    if id.len == 0 && not (cur.len == 0)
    then fail_frm c err_fram_enc frm_cid
    else if not (id.len == 0) && cur.len == 0
    then fail_frm c err_fram_enc frm_cid
    else if not dup && ltb (max_act_cids c) c.dcids.act_cnt
    then fail_frm c err_cid_limt frm_cid
    else if ltb id.seq rpt
    then fail_frm c err_pv frm_cid
    else if ltb cid_len_max id.len
    then fail_frm c err_pv frm_cid
    else finish_new_cid srt_new dup id rest (retire_older c cur rpt)

-- RETIRE_CONNECTION_ID, once the number was read.
unfoldable pub take_retire_cid : Conn → ℕ → List ℕ → Handled
unfolding cid_by_seq deref_cid next_cid cid_del
take_retire_cid c seq rest =
    let cur = (c.scid >>= λ k. deref_cid c.scids k) in
    elim cur [
      | none ↦ elim (cid_by_seq c.scids.act seq) [ none ↦ ok c rest | some i ↦ died ]
      | some s ↦
          (if s.seq == seq then fail_frm c err_pv frm_rtr else elim (cid_by_seq c.scids.act seq) [
            | none ↦ ok c rest
            | some i ↦
                (if not i.in_cbi
                  then died
                  else elim (cid_del c.scids (record i { in_cbi = false })) [
                    | none ↦ died
                    | some ids ↦ ok (record c { scids = ids; tx_ncid = true }) rest
                  ])
          ])
    ]

module _ (past : ℕ) where
  unfoldable pub dec_new_cid_frame : (List ℕ → Bool) → Conn → List ℕ → Handled
  unfolding deref_cid take_new_cid
  dec_new_cid_frame srt_new c inp = decv_chk past c frm_cid inp (λ seq r1.
      decv_chk past c frm_cid r1 (λ rpt r2. dec1_chk c frm_cid r2 (λ len r3.
        elim (deref_cid c.dcids c.dcid) [
          | none ↦ died
          | some cur ↦
              (if leb len cid_len_max
                then decb_chk c frm_cid len r3 (λ id r4.
                  decb_chk c frm_cid srt_len r4
                    (λ srt r5. take_new_cid srt_new c cur rpt (new_cid seq len id srt) r5))
                else take_new_cid srt_new c cur rpt (new_cid seq len [] []) r3)
        ])))

  unfoldable pub dec_retire_cid_frame : Conn → List ℕ → Handled
  unfolding take_retire_cid
  dec_retire_cid_frame c inp = decv_chk past c frm_rtr inp (λ seq rest. take_retire_cid c seq rest)

  unfoldable pub dec_new_token_frame : Conn → List ℕ → Handled
  dec_new_token_frame c inp = decv_chk past c frm_tok inp (λ tok_len rest.
      let act = min tok_len (length rest) in
      if ltb max_tok_len act
      then fail_frm c err_fram_enc frm_tok
      else decb_chk c frm_tok act rest (λ tok rest'.
        if not c.is_clnt
        then fail_frm c err_pv frm_tok
        else if not (tok_len == act)
        then fail_frm c err_fram_enc frm_tok
        else ok c rest'))

  -- The connection after a CONNECTION_CLOSE: a second one drains it.
  abbrev pub peer_closes : Conn → Conn
  peer_closes c =
      if is_clsg c.state
      then record c { state = conn_drng; closing_alarm = some 0 }
      else enter_closing (record c { state = conn_clsg; needs_tx = true })

  -- The error code, and the reason, of which no more is read than there is. The reason goes to the
  -- scratch space, which is taken to be large enough.
  unfoldable pub take_close : Conn → ℕ → List ℕ → Handled
  unfolding enter_closing
  take_close c type inp = decv_chk past c type inp (λ reas_len rest.
      let act = min reas_len (length rest % 2 ^ 16) in
      decb_chk c type act rest (λ reason rest'.
        if not (reas_len == act) then fail_frm c err_fram_enc type else ok (peer_closes c) rest'))

  unfoldable pub dec_close_frame : Conn → ℕ → List ℕ → Handled
  unfolding take_close
  dec_close_frame c type inp = decv_chk past c type inp (λ err_code rest.
      if type == frm_clq
      then decv_chk past c type rest (λ frame_type rest'. take_close c type rest')
      else take_close c type rest)
