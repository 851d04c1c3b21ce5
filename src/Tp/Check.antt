-- ===== src/Tp/Check.antt =====
-- chk_tp of lib/src/tls.c: the loop over the transport parameters of the peer, what is checked at its
-- end, and what is made of them.
use quant.Base.{
  ℕ, zero, suc, ◌+◌, Bool, false, not, ◌&&◌, Option, none, some, List, [], ◌∷◌, ltb, ◌==◌,
  if◌then◌else◌, length, uint_t_max,
}
use quant.Cid.Lists.{Cid, cid_same}
use quant.Cid.Deref.{deref_cid}
use quant.Conn.State.{Conn, Strm}
use quant.Conn.Close.{err_close}
use quant.Frame.{frm_cry}
use quant.Stream.Fc.{apply_stream_limits}
use quant.Stream.Store.{put_stream}
use quant.Tp.Params.{
  Checked, passed, refused, overrun, died, ◌>>=◌, check, TpScan, cid_of_len, no_len, err_tp,
}
use quant.Tp.Dec.{take_tp}

-- One round after the other; `none` is there that the fuel ran out.
unfoldable pub tp_loop : ℕ → ℕ → (List ℕ → Bool) → TpScan → List ℕ → Option (Checked TpScan)
unfolding take_tp
tp_loop fuel past srt_new s [] = some (passed s)
tp_loop zero past srt_new s (b ∷ inp) = none
tp_loop (suc fuel) past srt_new s (b ∷ inp) = elim (take_tp past srt_new s (b ∷ inp)) [
  | passed (s1, rest) ↦ tp_loop fuel past srt_new s1 rest
  | refused c ↦ some (refused c)
  | overrun ↦ some overrun
  | died ↦ some died
]

abbrev pub max_ups_limit : ℕ
max_ups_limit = 65527

-- The values with which reading begins.
abbrev pub start_scan : Conn → TpScan
start_scan c = record {
  conn = record c {
    tp_peer = record (c.tp_peer) { act_cid_lim = uint_t_max; max_ups = max_ups_limit };
  };
  tp_list = λ i. false;
  orig_dcid = cid_of_len no_len;
  ini_scid = cid_of_len no_len;
  rtry_scid = cid_of_len no_len;
}

abbrev pub received : Cid → Bool
received id = not (id.len == no_len)

-- "authenticate CIDs": with a token of the server, there was a Retry.
unfoldable pub check_cids : TpScan → Cid → Checked (Unit {0})
check_cids s dcid = do
  ok1 ← check s.conn (received s.ini_scid)
  ok2 ← check s.conn (not (s.conn.is_clnt && not (received s.orig_dcid)))
  ok3 ← check s.conn (cid_same s.ini_scid dcid)
  if not s.conn.is_clnt
      then passed tt
      else if length s.conn.tok == 0
      then check s.conn (not (received s.rtry_scid))
      else (do
        ok4 ← check s.conn (received s.rtry_scid)
        ok5 ← check s.conn (received s.orig_dcid)
        check s.conn (cid_same s.orig_dcid s.conn.odcid))

abbrev set_cid_lim : Conn → ℕ → Conn
set_cid_lim c n = record c { tp_peer = record (c.tp_peer) { act_cid_lim = n } }

-- A limit below 2 closes the connection, and the handshake goes on.
unfoldable pub limit_cids : Conn → Conn
limit_cids c =
    if c.tp_peer.disable_active_migration
    then set_cid_lim c 0
    else if c.tp_peer.act_cid_lim == uint_t_max
    then set_cid_lim c 2
    else if ltb c.tp_peer.act_cid_lim 2
    then err_close c err_tp frm_cry
    else c

-- `kh_foreach_value(&c->strms_by_id, s, apply_stream_limits(s))`
unfoldable pub apply_all_limits : Conn → List Strm → Conn
unfolding apply_stream_limits
apply_all_limits c [] = c
apply_all_limits c (s ∷ ss) =
    let (c1, s1) = apply_stream_limits c s in apply_all_limits (put_stream c1 s1) ss

-- The extensions that were received, by their types; reading past the array finds nothing.
abbrev pub quic_tp : ℕ
quic_tp = 0x39

abbrev pub no_ext : ℕ
no_ext = 0xffff

-- The first extension at which the search ends: it compares the type of the first one, `first`, with
-- the mark of the end.
unfoldable pub find_ext : ℕ → List (ℕ × List ℕ) → Option (ℕ × List ℕ)
find_ext first [] = none
find_ext first ((type, bytes) ∷ es) =
    if not (type == quic_tp) && not (first == no_ext) then find_ext first es else some (type, bytes)

abbrev pub first_type : List (ℕ × List ℕ) → ℕ
first_type [] = no_ext
first_type ((type, bytes) ∷ es) = type

-- The end of chk_tp, once all parameters are read.
unfoldable pub finish_tp : TpScan → Checked Conn
unfolding deref_cid check_cids limit_cids apply_all_limits
finish_tp s = elim (deref_cid s.conn.dcids s.conn.dcid) [
  | none ↦ died
  | some dcid ↦ (do
    ok ← check_cids s dcid
    let c1 = limit_cids s.conn
    passed (apply_all_limits c1 c1.strms_by_id))
]

-- Every round takes a byte at least. `alert` is the alert of picotls for a missing extension.
unfoldable pub chk_tp : ℕ → ℕ → (List ℕ → Bool) → Conn → List (ℕ × List ℕ) → Option (Checked Conn)
unfolding tp_loop find_ext finish_tp
chk_tp alert past srt_new c slots = elim (find_ext (first_type slots) slots) [
  | none ↦ some overrun
  | some (type, bytes) ↦
      if not (type == quic_tp)
      then some (refused (err_close c (0x100 + alert) frm_cry))
      else elim (tp_loop (length bytes) past srt_new (start_scan c) bytes) [
        | none ↦ none
        | some r ↦ some (r >>= finish_tp)
      ]
]
