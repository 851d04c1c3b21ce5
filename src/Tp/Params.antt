-- ===== src/Tp/Params.antt =====
-- The transport parameters of lib/src/tls.c by their numbers, and what reading them comes to.
use quant.Base.{
  ℕ, zero, suc, ◌^◌, ◌∷◌, Bool, true, false, Option, none, some, List, [], leb, ◌==◌, if◌then◌else◌,
}
use quant.Cid.Lists.{Cid}
use quant.Conn.State.{Conn, TransportParams}
use quant.Conn.Close.{err_close}
use quant.Recovery.Congestion.{min_ini_len}
use quant.Frame.{frm_cry}

pub data Param : Type 0 where
  dcid_o idto srt mups imd imsd_bl imsd_br imsd_u imsb imsu ade mad dmig prfa acil scid_i scid_r :
      Param

-- `TP_DCID_O` to `TP_SCID_R`.
unfoldable pub param_nr : Param → ℕ
param_nr dcid_o = 0x00
param_nr idto = 0x01
param_nr srt = 0x02
param_nr mups = 0x03
param_nr imd = 0x04
param_nr imsd_bl = 0x05
param_nr imsd_br = 0x06
param_nr imsd_u = 0x07
param_nr imsb = 0x08
param_nr imsu = 0x09
param_nr ade = 0x0a
param_nr mad = 0x0b
param_nr dmig = 0x0c
param_nr prfa = 0x0d
param_nr acil = 0x0e
param_nr scid_i = 0x0f
param_nr scid_r = 0x10

abbrev pub tp_max : ℕ
tp_max = 0x11

abbrev pub tp_qbg : ℕ
tp_qbg = 0x2ab2

abbrev pub tp_qr : ℕ
tp_qr = 3127

-- The cases of the switch, from the lowest number on.
unfoldable pub param_of : ℕ → Option Param
param_of tp =
    if tp == 0x00
    then some dcid_o
    else if tp == 0x01
    then some idto
    else if tp == 0x02
    then some srt
    else if tp == 0x03
    then some mups
    else if tp == 0x04
    then some imd
    else if tp == 0x05
    then some imsd_bl
    else if tp == 0x06
    then some imsd_br
    else if tp == 0x07
    then some imsd_u
    else if tp == 0x08
    then some imsb
    else if tp == 0x09
    then some imsu
    else if tp == 0x0a
    then some ade
    else if tp == 0x0b
    then some mad
    else if tp == 0x0c
    then some dmig
    else if tp == 0x0d
    then some prfa
    else if tp == 0x0e
    then some acil
    else if tp == 0x0f
    then some scid_i
    else if tp == 0x10
    then some scid_r
    else none

abbrev pub err_tp : ℕ
err_tp = 0x8

-- A step passes with a value; it refuses the handshake after the connection was closed; it reads or
-- writes past the end of an array; or a check fails and the program stops.
pub data Checked (A : Type 0) : Type 0 where
  passed : A → Checked A
  refused : Conn → Checked A
  overrun : Checked A
  died : Checked A

infixl 5 ◌>>=◌
abbrev pub ◌>>=◌ : {A B : Type 0} → Checked A → (A → Checked B) → Checked B
passed a >>= f = f a
refused c >>= f = refused c
overrun >>= f = overrun
died >>= f = died

-- `err_close_return(c, ERR_TP, FRM_CRY, …)`
abbrev pub refuse : {A : Type 0} → Conn → Checked A
refuse c = refused (err_close c err_tp frm_cry)

-- `dec_chk`
abbrev pub dec_chk : {A : Type 0} → Conn → Option A → Checked A
dec_chk c none = refuse c
dec_chk c (some a) = passed a

abbrev pub check : Conn → Bool → Checked (Unit {0})
check c true = passed tt
check c false = refuse c

-- A connection ID that was not received has this length.
abbrev pub no_len : ℕ
no_len = 0xff

abbrev zeros : ℕ → List ℕ
zeros zero = []
zeros (suc n) = 0 ∷ zeros n

-- `struct cid id = {.len = len}`
abbrev pub cid_of_len : ℕ → Cid
cid_of_len len = record {
  slot = 0;
  seq = 0;
  len = len;
  id = zeros 20;
  srt = [];
  has_srt = false;
  in_cbi = false;
  retired = false;
  available = false;
  local_choice = false;
}

-- What the loop of chk_tp works on: the connection, the parameters seen so far, and three connection
-- IDs.
pub record TpScan : Type 0 where
  pub conn : Conn
  pub tp_list : ℕ → Bool
  pub orig_dcid : Cid
  pub ini_scid : Cid
  pub rtry_scid : Cid

-- The members of the peer's parameters that hold a number. What the peer sends as the limit of its
-- local streams holds for the remote ones here, and the other way round.
unfoldable pub get_num : Param → TransportParams → ℕ
get_num imsd_u tp = tp.max_strm_data_uni
get_num imsd_bl tp = tp.max_strm_data_bidi_remote
get_num imsd_br tp = tp.max_strm_data_bidi_local
get_num imd tp = tp.max_data
get_num imsb tp = tp.max_strms_bidi
get_num imsu tp = tp.max_strms_uni
get_num idto tp = tp.max_idle_to
get_num mups tp = tp.max_ups
get_num ade tp = tp.ack_del_exp
get_num mad tp = tp.max_ack_del
get_num acil tp = tp.act_cid_lim
get_num _ tp = 0

unfoldable pub set_num : Param → ℕ → TransportParams → TransportParams
set_num imsd_u v tp = record tp { max_strm_data_uni = v }
set_num imsd_bl v tp = record tp { max_strm_data_bidi_remote = v }
set_num imsd_br v tp = record tp { max_strm_data_bidi_local = v }
set_num imd v tp = record tp { max_data = v }
set_num imsb v tp = record tp { max_strms_bidi = v }
set_num imsu v tp = record tp { max_strms_uni = v }
set_num idto v tp = record tp { max_idle_to = v }
set_num mups v tp = record tp { max_ups = v }
set_num ade v tp = record tp { ack_del_exp = v }
set_num mad v tp = record tp { max_ack_del = v }
set_num acil v tp = record tp { act_cid_lim = v }
set_num _ v tp = tp

-- The bounds that are checked at once.
unfoldable pub num_ok : Param → ℕ → Bool
num_ok mups v = leb min_ini_len v
num_ok ade v = leb v 20
num_ok mad v = leb v (2 ^ 14)
num_ok _ v = true
