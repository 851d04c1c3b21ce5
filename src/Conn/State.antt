-- ===== src/Conn/State.antt =====
-- The fields of `struct q_conn`, `struct transport_params` (lib/src/conn.h), `struct q_stream`
-- (lib/src/stream.h) and `struct recovery` (lib/src/recovery.h) that flow control, streams and loss
-- recovery work on.
use quant.Base.{ℕ, Bool, List, Option}
use quant.Diet.Tree.{Diet}
use quant.Cid.Lists.{Cid, Cids}
use quant.Conn.Packets.{Seg, StrmId, PnSpace, PnType, pn_init, pn_hshk, pn_data}

pub data ConnState : Type 0 where
  conn_clsd conn_idle conn_opng conn_estb conn_qlse conn_clsg conn_drng : ConnState

pub data StrmState : Type 0 where
  strm_idle strm_open strm_hcrm strm_hclo strm_clsd : StrmState

pub record Strm : Type 0 where
  pub id : StrmId
  pub out_data : ℕ
  pub out_data_max : ℕ
  pub in_data_max : ℕ
  pub in_data : ℕ
  pub in_data_off : ℕ
  -- The queue of data in order, and the data that came too early, by its offset.
  pub in_segs : List Seg
  pub in_ooo : List Seg
  pub lost_cnt : ℕ
  pub state : StrmState
  pub in_ctrl : Bool
  pub tx_max_strm_data : Bool
  pub blocked : Bool

-- `struct pref_addr`: addresses and ports are bytes in network order.
pub record PrefAddr : Type 0 where
  pub ip4 : List ℕ
  pub port4 : List ℕ
  pub ip6 : List ℕ
  pub port6 : List ℕ
  pub cid : Cid

pub record TransportParams : Type 0 where
  pub max_strm_data_uni : ℕ
  pub max_strm_data_bidi_local : ℕ
  pub max_strm_data_bidi_remote : ℕ
  pub max_data : ℕ
  pub max_strms_uni : ℕ
  pub max_strms_bidi : ℕ
  pub max_ack_del : ℕ
  pub max_idle_to : ℕ
  pub max_ups : ℕ
  pub act_cid_lim : ℕ
  pub ack_del_exp : ℕ
  pub disable_active_migration : Bool
  pub grease_quic_bit : Bool
  pub pref_addr : PrefAddr

pub record CcState : Type 0 where
  pub latest_rtt : ℕ
  pub min_rtt : ℕ
  pub rttvar : ℕ
  pub srtt : ℕ
  pub cwnd : ℕ
  pub in_flight : ℕ
  pub ssthresh : ℕ

-- `ld_alarm` is the delay the timer was last started with, `none` when it was stopped.
pub record Recovery : Type 0 where
  pub initial_rtt : ℕ
  pub ld_alarm : Option ℕ
  pub ld_alarm_val : ℕ
  pub rec_start_t : ℕ
  pub ae_in_flight : ℕ
  pub cur : CcState
  pub pto_cnt : ℕ
  pub max_ups : ℕ

pub record Conn : Type 0 where
  pub is_clnt : Bool
  pub state : ConnState
  -- Regular streams by their number, and the crypto streams.
  pub strms_by_id : List Strm
  pub cstrms : List Strm
  pub clsd_strms : Diet
  -- The streams of the list `need_ctrl`, each by its number.
  pub need_ctrl : List StrmId
  -- The array `pns`.
  pub pns_init : PnSpace
  pub pns_hshk : PnSpace
  pub pns_data : PnSpace
  pub tp_mine : TransportParams
  pub tp_peer : TransportParams
  pub rec : Recovery
  pub needs_tx : Bool
  pub no_wnd : Bool
  pub tx_max_data : Bool
  pub blocked : Bool
  pub sid_blocked_bidi : Bool
  pub sid_blocked_uni : Bool
  pub tx_max_sid_bidi : Bool
  pub tx_max_sid_uni : Bool
  pub tx_retire_cid : Bool
  pub tx_hshk_done : Bool
  pub tx_new_tok : Bool
  pub next_sid_bidi : ℕ
  pub next_sid_uni : ℕ
  pub cnt_bidi : ℕ
  pub cnt_uni : ℕ
  pub in_data_str : ℕ
  pub out_data_str : ℕ
  pub path_val_win : ℕ
  pub max_cid_seq_out : ℕ
  pub rpt_max : ℕ
  -- The connection IDs of both ends; the ones in use, by their position in the array.
  pub dcids : Cids
  pub scids : Cids
  pub dcid : ℕ
  pub scid : Option ℕ
  pub path_chlg_in : List ℕ
  pub path_resp_out : List ℕ
  pub path_chlg_out : List ℕ
  pub path_resp_in : List ℕ
  pub tx_path_resp : Bool
  pub tx_path_chlg : Bool
  pub tx_ncid : Bool
  pub spin_enabled : Bool
  pub spin : Bool
  pub do_migration : Bool
  -- Addresses and sockets, by a number each.
  pub peer : ℕ
  pub migr_peer : ℕ
  pub sock : Option ℕ
  pub migr_sock : Option ℕ
  pub holds_migr_sock : Bool
  pub tx_limit : ℕ
  pub have_new_data : Bool
  pub in_c_ready : Bool
  pub did_0rtt : Bool
  pub err_code : ℕ
  pub err_frm : ℕ
  -- The delays that the timers were last started with, `none` when they were stopped.
  pub idle_alarm : Option ℕ
  pub closing_alarm : Option ℕ
  pub key_flip_alarm : Option ℕ
  pub ack_alarm : Option ℕ
  pub pmtud_pkt : ℕ
  -- The first `tok_len` bytes of the token, and the first destination connection ID.
  pub tok : List ℕ
  pub odcid : Cid
  pub do_qr_test : Bool

-- `&c->pns[p]`.
abbrev pub get_pn : Conn → PnType → PnSpace
get_pn c pn_init = c.pns_init
get_pn c pn_hshk = c.pns_hshk
get_pn c pn_data = c.pns_data

abbrev pub set_pn : Conn → PnType → PnSpace → Conn
set_pn c pn_init pn = record c { pns_init = pn }
set_pn c pn_hshk pn = record c { pns_hshk = pn }
set_pn c pn_data pn = record c { pns_data = pn }
