-- ===== src/Conn/Sample.antt =====
-- A concrete connection for tests: an established client with one stream.
use quant.Base.{ℕ, zero, suc, Bool, true, false, none, some, List, [], ◌∷◌, ◌==◌, uint_t_max}
use quant.Diet.Tree.{Diet, leaf}
use quant.Diet.Ops.{mk_diet}
use quant.Cid.Lists.{Cid, Cids}
use quant.Conn.Packets.{PktMeta, PnSpace, PnType, pn_init, pn_hshk, pn_data, numbered, Frames}
use quant.Conn.State.{Conn, conn_estb, Strm, strm_open, TransportParams}

abbrev pub empty_diet : Diet
empty_diet = mk_diet leaf 0

-- STREAM frames only.
abbrev pub strm_frames : Frames
strm_frames i = i == 0x08

abbrev pub pn_of : PnType → PnSpace
pn_of p = record {
  rx_frames = strm_frames;
  tx_frames = strm_frames;
  recv = empty_diet;
  recv_all = empty_diet;
  acked_or_lost = empty_diet;
  sent_pkt_nrs = empty_diet;
  sent_pkts = [];
  ecn_ect0 = 0;
  ecn_ect1 = 0;
  ecn_ce = 0;
  lg_sent = uint_t_max;
  lg_acked = uint_t_max;
  pkts_rxed_since_last_ack_tx = 1;
  pkts_lost_since_last_ack_tx = 0;
  loss_t = 0;
  last_ae_tx_t = 0;
  type = p;
  imm_ack = false;
  abandoned = false;
}

abbrev pub pkt : ℕ → PktMeta
pkt nr = record {
  frms = strm_frames;
  strm = none;
  max_strm_data_sid = numbered 0;
  min_cid_seq = 0;
  max_strm_data = 0;
  max_data = 0;
  strm_data_blocked = 0;
  data_blocked = 0;
  retire_cid_seq = 0;
  strm_off = 0;
  strm_data_len = 0;
  is_fin = false;
  pn = pn_data;
  nr = nr;
  hdr_type = 0;
  t = 0;
  udp_len = 1200;
  has_rtx = false;
  in_flight = false;
  ack_eliciting = true;
  acked = false;
  lost = false;
  txed = false;
}

abbrev pub strm_of : ℕ → Strm
strm_of sid = record {
  id = numbered sid;
  out_data = 1000;
  out_data_max = 4000;
  in_data_max = 4000;
  in_data = 1500;
  in_data_off = 1500;
  in_segs = [];
  in_ooo = [];
  lost_cnt = 0;
  state = strm_open;
  in_ctrl = false;
  tx_max_strm_data = false;
  blocked = false;
}

-- One active connection ID, in the last position of the array.
abbrev pub cid_at : ℕ → ℕ → Bool → Cid
cid_at slot seq available = record {
  slot = slot;
  seq = seq;
  len = 4;
  id = 1 ∷ 2 ∷ 3 ∷ slot ∷ [];
  srt = [];
  has_srt = false;
  in_cbi = false;
  retired = false;
  available = available;
  local_choice = false;
}

abbrev pub free_slots : ℕ → List Cid
free_slots zero = []
free_slots (suc n) = cid_at n 0 true ∷ free_slots n

abbrev pub some_cids : Cids
some_cids = record { ret = []; act = cid_at 7 0 false ∷ []; avl = free_slots 7; act_cnt = 1 }

abbrev pub tp : TransportParams
tp = record {
  max_strm_data_uni = 2000;
  max_strm_data_bidi_local = 4000;
  max_strm_data_bidi_remote = 4000;
  max_data = 10000;
  max_strms_uni = 3;
  max_strms_bidi = 2;
  max_ack_del = 25;
  max_idle_to = 10000;
  max_ups = 1500;
  act_cid_lim = 4;
  ack_del_exp = 3;
  disable_active_migration = false;
  grease_quic_bit = false;
  pref_addr = record {
    ip4 = [];
    port4 = [];
    ip6 = [];
    port6 = [];
    cid = record (cid_at 0 0 false) { len = 0; id = [] };
  };
}

abbrev pub conn : Conn
conn = record {
  is_clnt = true;
  state = conn_estb;
  strms_by_id = strm_of 4 ∷ [];
  cstrms = [];
  clsd_strms = empty_diet;
  need_ctrl = [];
  pns_init = pn_of pn_init;
  pns_hshk = pn_of pn_hshk;
  pns_data = pn_of pn_data;
  tp_mine = tp;
  tp_peer = tp;
  rec = record {
    initial_rtt = 500000;
    ld_alarm = none;
    ld_alarm_val = 0;
    rec_start_t = 100;
    ae_in_flight = 1;
    cur = record {
      latest_rtt = 48000;
      min_rtt = 40000;
      rttvar = 20000;
      srtt = 40000;
      cwnd = 12000;
      in_flight = 0;
      ssthresh = uint_t_max;
    };
    pto_cnt = 0;
    max_ups = 1200;
  };
  needs_tx = false;
  no_wnd = false;
  tx_max_data = false;
  blocked = false;
  sid_blocked_bidi = false;
  sid_blocked_uni = false;
  tx_max_sid_bidi = false;
  tx_max_sid_uni = false;
  tx_retire_cid = false;
  tx_hshk_done = false;
  tx_new_tok = false;
  next_sid_bidi = 8;
  next_sid_uni = 2;
  cnt_bidi = 2;
  cnt_uni = 0;
  in_data_str = 3000;
  out_data_str = 9000;
  path_val_win = uint_t_max;
  max_cid_seq_out = 0;
  rpt_max = 0;
  dcids = some_cids;
  scids = some_cids;
  dcid = 7;
  scid = some 7;
  path_chlg_in = [];
  path_resp_out = [];
  path_chlg_out = [];
  path_resp_in = [];
  tx_path_resp = false;
  tx_path_chlg = false;
  tx_ncid = false;
  spin_enabled = false;
  spin = false;
  do_migration = false;
  peer = 0;
  migr_peer = 1;
  sock = some 0;
  migr_sock = none;
  holds_migr_sock = false;
  tx_limit = 0;
  have_new_data = false;
  in_c_ready = false;
  did_0rtt = false;
  err_code = 0;
  err_frm = 0;
  idle_alarm = some 10000;
  closing_alarm = none;
  key_flip_alarm = none;
  ack_alarm = none;
  pmtud_pkt = 0xffff;
  tok = [];
  odcid = cid_at 0 0 false;
  do_qr_test = false;
}
