-- ===== src/Tp/Dec.antt =====
-- How one transport parameter is read: dectp, deccid and the cases of the switch in chk_tp of
-- lib/src/tls.c. `past` is the byte at `end`.
use quant.Base.{
  ℕ, zero, suc, ◌-◌, ◌%◌, ◌^◌, Bool, true, not, ◌||◌, Option, none, some, List, [], ◌∷◌, ltb, leb,
  ◌==◌, if◌then◌else◌, length, take, drop,
}
use quant.Cid.Lists.{Cid, Cids}
use quant.Cid.Ops.{cid_ins}
use quant.Cid.Deref.{deref_cid}
use quant.Conn.State.{Conn, PrefAddr}
use quant.Marshall.Dec.{decv, decb}
use quant.Frame.Paths.{cid_len_max, srt_len}
use quant.Tp.Params.{
  Param, dcid_o, srt, dmig, prfa, scid_i, scid_r, param_of, tp_max, tp_qbg, Checked, passed,
  overrun, died, ◌>>=◌, refuse, dec_chk, check, TpScan, get_num, set_num, num_ok,
}

-- The number behind a length that is not 0. Whether there is one is not tested, nor whether it has
-- that length.
unfoldable pub dectp : ℕ → ℕ → List ℕ → Option (ℕ × List ℕ)
dectp past old inp = elim (decv past inp) [
  | none ↦ none
  | some (len, rest) ↦
      if len == 0
      then some (old, rest)
      else elim (decv past rest) [ none ↦ some (0, rest) | some r ↦ some r ]
]

-- What `decb` leaves in an array of `room` bytes: the bytes, or what it held before.
abbrev pub fits_in : ℕ → ℕ → List ℕ → List ℕ → Option (List ℕ × List ℕ) → Checked (List ℕ × List ℕ)
fits_in room len old inp none = passed (old, inp)
fits_in room len old inp (some r) = if ltb room len then overrun else passed r

abbrev pub decb_into : ℕ → List ℕ → ℕ → List ℕ → Checked (List ℕ × List ℕ)
decb_into room old len inp = fits_in room len old inp (decb len inp)

unfoldable pub deccid : ℕ → Conn → Cid → List ℕ → Checked (Cid × List ℕ)
deccid past c id inp = do
  (len, r1) ← dec_chk c (decv past inp)
  let id1 = record id { len = len % 2 ^ 8 }
  if id1.len == 0 then passed (id1, r1) else (do
    (bytes, r2) ← decb_into cid_len_max id.id id1.len r1
    passed (record id1 { id = bytes }, r2))

-- A parameter that holds a number.
unfoldable pub take_num : ℕ → Param → TpScan → List ℕ → Checked (TpScan × List ℕ)
unfolding dectp get_num set_num num_ok
take_num past p s inp = do
  (v, rest) ← dec_chk s.conn (dectp past (get_num p s.conn.tp_peer) inp)
  let c1 = record (s.conn) { tp_peer = set_num p v s.conn.tp_peer }
  ok ← check c1 (num_ok p v)
  passed (record s { conn = c1 }, rest)

unfoldable pub take_dcid_o : ℕ → TpScan → List ℕ → Checked (TpScan × List ℕ)
unfolding deccid
take_dcid_o past s inp = do
  ok ← check s.conn s.conn.is_clnt
  (id, rest) ← deccid past s.conn s.orig_dcid inp
  passed (record s { orig_dcid = id }, rest)

unfoldable pub take_dmig : ℕ → TpScan → List ℕ → Checked (TpScan × List ℕ)
unfolding dectp
take_dmig past s inp = do
  (v, rest) ← dec_chk s.conn (dectp past 0 inp)
  let tp = record (s.conn.tp_peer) { disable_active_migration = true }
  passed (record s { conn = record (s.conn) { tp_peer = tp } }, rest)

-- A write to the entry of the array of connection IDs at one position, on whatever list it is.
abbrev set_slot : List Cid → ℕ → (Cid → Cid) → List Cid
set_slot [] k f = []
set_slot (i ∷ is) k f = (if i.slot == k then f i else i) ∷ set_slot is k f

abbrev pub set_cid : Cids → ℕ → (Cid → Cid) → Cids
set_cid ids k f = record ids {
  act = set_slot ids.act k f;
  ret = set_slot ids.ret k f;
  avl = set_slot ids.avl k f;
}

-- The token of the connection ID in use. `srt_new` tells whether a token is not yet in the table.
unfoldable pub take_srt : ℕ → (List ℕ → Bool) → TpScan → List ℕ → Checked (TpScan × List ℕ)
unfolding deref_cid
take_srt past srt_new s inp = do
  ok ← check s.conn s.conn.is_clnt
  (l, r1) ← dec_chk s.conn (decv past inp)
  ok1 ← check s.conn (l == srt_len)
  elim (deref_cid s.conn.dcids s.conn.dcid) [
    | none ↦ died
    | some cur ↦ (do
      (token, rest) ← decb_into srt_len cur.srt srt_len r1
      let ids = set_cid s.conn.dcids s.conn.dcid (λ i. record i { srt = token; has_srt = true })
      let c1 = record (s.conn) { dcids = ids }
      ok2 ← check c1 (srt_new token)
      passed (record s { conn = c1 }, rest))
  ]

-- `decb` up to the end `e` of a preferred address, which may lie behind the end of the bytes: `room`
-- is what is left to `e`. An array of `size` bytes is written.
unfoldable pub take_bytes : ℕ → List ℕ → ℕ → ℕ × List ℕ → Checked (List ℕ × (ℕ × List ℕ))
take_bytes size old n (room, inp) =
    if ltb room n
    then passed (old, (room, inp))
    else if ltb (length inp) n || ltb size n
    then overrun
    else passed (take n inp, (room - n, drop n inp))

-- `dec1` up to that end.
unfoldable pub take_byte : Conn → ℕ × List ℕ → Checked (ℕ × (ℕ × List ℕ))
take_byte c (zero, inp) = refuse c
take_byte c (suc room, []) = overrun
take_byte c (suc room, b ∷ inp) = passed (b, (room, inp))

-- The members of a preferred address in their order.
unfoldable pub take_pref_addr : Conn → PrefAddr → ℕ × List ℕ → Checked (PrefAddr × (ℕ × List ℕ))
unfolding take_bytes take_byte
take_pref_addr c pa at = do
  (ip4, at1) ← take_bytes 4 pa.ip4 4 at
  (port4, at2) ← take_bytes 2 pa.port4 2 at1
  (ip6, at3) ← take_bytes 16 pa.ip6 16 at2
  (port6, at4) ← take_bytes 2 pa.port6 2 at3
  let half = record pa { ip4 = ip4; port4 = port4; ip6 = ip6; port6 = port6 }
  (len, at5) ← take_byte (record c { tp_peer = record (c.tp_peer) { pref_addr = half } }) at4
  (id, at6) ← take_bytes cid_len_max pa.cid.id len at5
  (token, at7) ← take_bytes srt_len pa.cid.srt srt_len at6
  let cid = record (pa.cid) { len = len; id = id; seq = 1; has_srt = true; srt = token }
  passed (record half { cid = cid }, at7)

-- The connection ID of the preferred address becomes one of the peer's.
unfoldable pub ins_pref_cid : (List ℕ → Bool) → Conn → Checked Conn
unfolding cid_ins
ins_pref_cid srt_new c =
    if c.tp_mine.disable_active_migration
    then passed c
    else elim (cid_ins c.dcids c.tp_peer.pref_addr.cid) [
      | none ↦ died
      | some (ids, none) ↦ died
      | some (ids, some i) ↦ (do
        let c1 = record c { dcids = ids }
        ok ← check c1 (srt_new i.srt)
        passed c1)
    ]

unfoldable pub take_prfa : ℕ → (List ℕ → Bool) → TpScan → List ℕ → Checked (TpScan × List ℕ)
unfolding take_pref_addr ins_pref_cid
take_prfa past srt_new s inp = do
  ok ← check s.conn s.conn.is_clnt
  (l, r1) ← dec_chk s.conn (decv past inp)
  (pa, (room, rest)) ← take_pref_addr s.conn s.conn.tp_peer.pref_addr (l, r1)
  let c1 = record (s.conn) { tp_peer = record (s.conn.tp_peer) { pref_addr = pa } }
  c2 ← ins_pref_cid srt_new c1
  passed (record s { conn = c2 }, rest)

unfoldable pub take_scid_i : ℕ → TpScan → List ℕ → Checked (TpScan × List ℕ)
unfolding deccid
take_scid_i past s inp = do
  (id, rest) ← deccid past s.conn s.ini_scid inp
  passed (record s { ini_scid = id }, rest)

unfoldable pub take_scid_r : ℕ → TpScan → List ℕ → Checked (TpScan × List ℕ)
unfolding deccid
take_scid_r past s inp = do
  ok ← check s.conn s.conn.is_clnt
  (id, rest) ← deccid past s.conn s.rtry_scid inp
  passed (record s { rtry_scid = id }, rest)

-- The switch.
unfoldable pub take_param :
    ℕ → (List ℕ → Bool) → Param → TpScan → List ℕ → Checked (TpScan × List ℕ)
unfolding take_num take_dcid_o take_dmig take_srt take_prfa take_scid_i take_scid_r
take_param past srt_new dcid_o s inp = take_dcid_o past s inp
take_param past srt_new dmig s inp = take_dmig past s inp
take_param past srt_new srt s inp = take_srt past srt_new s inp
take_param past srt_new prfa s inp = take_prfa past srt_new s inp
take_param past srt_new scid_i s inp = take_scid_i past s inp
take_param past srt_new scid_r s inp = take_scid_r past s inp
take_param past srt_new p s inp = take_num past p s inp

-- The parameter is marked as seen.
abbrev pub seen : ℕ → TpScan → TpScan
seen tp s = record s { tp_list = λ i. i == tp || s.tp_list i }

-- A parameter that is not known is skipped, but for one that is a flag.
unfoldable pub take_other : ℕ → ℕ → TpScan → List ℕ → Checked (TpScan × List ℕ)
take_other past tp s inp = do
  (len, rest) ← dec_chk s.conn (decv past inp)
  let tps = record (s.conn.tp_peer) { grease_quic_bit = true }
  passed (
    (if tp == tp_qbg then record s { conn = record (s.conn) { tp_peer = tps } } else s),
    drop len rest,
  )

-- One round of the loop.
unfoldable pub take_tp : ℕ → (List ℕ → Bool) → TpScan → List ℕ → Checked (TpScan × List ℕ)
unfolding take_other param_of take_param
take_tp past srt_new s inp = do
  (tp, rest) ← dec_chk s.conn (decv past inp)
  if leb tp_max tp then take_other past tp s rest else (do
    ok ← check s.conn (not (s.tp_list tp))
    elim (param_of tp) [
      | none ↦ refuse s.conn
      | some p ↦ take_param past srt_new p (seen tp s) rest
    ])
