-- ===== src/Frame/Enc.antt =====
-- The frame encoders of lib/src/frame.c, other than those of ACK and of stream data. `none` is a
-- failed check of the room in the buffer or of a value's size.
use quant.Base.{
  ℕ, zero, suc, max, Bool, true, false, not, ◌&&◌, ◌||◌, Option, none, some, List, [], ◌∷◌, leb,
  ◌==◌, if◌then◌else◌, ◌>>=◌, length, add64, sub64,
}
use quant.Cid.Lists.{Cid, cid_by_seq, max_seq, min_seq}
use quant.Cid.Ops.{cid_ins}
use quant.Conn.Packets.{PktMeta, StrmId, cry_init, cry_hshk, cry_data, numbered}
use quant.Conn.State.{Conn, Strm}
use quant.Conn.Close.{err_close}
use quant.Marshall.Buffer.{Writer, put_bytes}
use quant.Marshall.Enc.{enc1, encv, encb}
use quant.Stream.Store.{put_stream}
use quant.Frame.{
  frm_pad, frm_png, frm_tok, frm_mcd, frm_msd, frm_msb, frm_msu, frm_cdb, frm_sdb, frm_sbb, frm_sbu,
  frm_cid, frm_rtr, frm_pcl, frm_prp, frm_clq, frm_cla, frm_hsd,
}
use quant.Frame.Handled.{err_pv}
use quant.Frame.Paths.{srt_len, path_chlg_len}

-- The buffer, the connection and the packet that an encoder works on.
pub record Enc : Type 0 where
  pub writer : Writer
  pub conn : Conn
  pub pkt : PktMeta

-- `track_frame`, less the counters of the connection.
unfoldable pub track_frame : PktMeta → ℕ → PktMeta
track_frame m type = record m { frms = λ i. i == type || m.frms i }

-- `(uint_t)s->id`.
abbrev pub raw_id : StrmId → ℕ
raw_id cry_init = sub64 0 4
raw_id cry_hshk = sub64 0 2
raw_id cry_data = sub64 0 1
raw_id (numbered sid) = sid

abbrev pub repeated : ℕ → ℕ → List ℕ
repeated zero b = []
repeated (suc n) b = b ∷ repeated n b

unfoldable pub enc_padding_frame : Enc → ℕ → Option Enc
unfolding put_bytes track_frame
enc_padding_frame e len =
    if len == 0
    then some e
    else put_bytes e.writer (repeated len frm_pad)
      >>= (λ w. some (record e { writer = w; pkt = track_frame e.pkt frm_pad }))

-- A type byte, and a type byte with one or two numbers.
unfoldable pub enc_type : Writer → ℕ → Option Writer
unfolding enc1
enc_type w type = enc1 w type

unfoldable pub enc_type_v : Writer → ℕ → ℕ → Option Writer
unfolding enc1 encv
enc_type_v w type a = enc1 w type >>= (λ w1. encv w1 a)

unfoldable pub enc_type_vv : Writer → ℕ → ℕ → ℕ → Option Writer
unfolding enc_type_v encv
enc_type_vv w type a b = enc_type_v w type a >>= (λ w1. encv w1 b)

unfoldable pub enc_type_b : Writer → ℕ → List ℕ → ℕ → Option Writer
unfolding enc1 encb
enc_type_b w type bytes len = enc1 w type >>= (λ w1. encb w1 bytes len)

unfoldable pub enc_max_strm_data_frame : Enc → Strm → Option Enc
unfolding enc_type_vv track_frame
enc_max_strm_data_frame e s = enc_type_vv e.writer frm_msd (raw_id s.id) s.in_data_max >>= (λ w.
    some (record {
      writer = w;
      conn = put_stream e.conn (record s { tx_max_strm_data = false });
      pkt =
          track_frame (record (e.pkt) { max_strm_data_sid = s.id; max_strm_data = s.in_data_max })
            frm_msd;
    }))

unfoldable pub enc_max_data_frame : Enc → Option Enc
unfolding enc_type_v track_frame
enc_max_data_frame e = enc_type_v e.writer frm_mcd e.conn.tp_mine.max_data >>= (λ w. some (record {
  writer = w;
  conn = record (e.conn) { tx_max_data = false };
  pkt = track_frame (record (e.pkt) { max_data = e.conn.tp_mine.max_data }) frm_mcd;
}))

unfoldable pub enc_max_strms_frame : Enc → Bool → Option Enc
unfolding enc_type_v track_frame
enc_max_strms_frame e bidi =
    let type = if bidi then frm_msb else frm_msu in
    let c = e.conn in
    enc_type_v e.writer type (if bidi then c.tp_mine.max_strms_bidi else c.tp_mine.max_strms_uni)
    >>= (λ w. some (record {
      writer = w;
      conn =
          if bidi
          then record c { tx_max_sid_bidi = false }
          else record c { tx_max_sid_uni = false };
      pkt = track_frame e.pkt type;
    }))

unfoldable pub enc_strm_data_blocked_frame : Enc → Strm → Option Enc
unfolding enc_type_vv track_frame
enc_strm_data_blocked_frame e s =
    enc_type_vv e.writer frm_sdb (raw_id s.id) s.out_data_max >>= (λ w. some (record e {
      writer = w;
      pkt = track_frame (record (e.pkt) { strm_data_blocked = s.out_data_max }) frm_sdb;
    }))

unfoldable pub enc_data_blocked_frame : Enc → Option Enc
unfolding enc_type_v track_frame
enc_data_blocked_frame e =
    let lim = add64 e.conn.tp_peer.max_data e.pkt.strm_data_len in
    enc_type_v e.writer frm_cdb lim >>= (λ w.
      some (record e {
        writer = w;
        pkt = track_frame (record (e.pkt) { data_blocked = lim }) frm_cdb;
      }))

unfoldable pub enc_streams_blocked_frame : Enc → Bool → Option Enc
unfolding enc_type_v track_frame
enc_streams_blocked_frame e bidi =
    let type = if bidi then frm_sbb else frm_sbu in
    let c = e.conn in
    enc_type_v e.writer type (if bidi then c.tp_peer.max_strms_bidi else c.tp_peer.max_strms_uni)
    >>= (λ w. some (record {
      writer = w;
      conn =
          if bidi
          then record c { sid_blocked_bidi = false }
          else record c { sid_blocked_uni = false };
      pkt = track_frame e.pkt type;
    }))

unfoldable pub enc_path_response_frame : Enc → Option Enc
unfolding enc_type_b track_frame
enc_path_response_frame e =
    enc_type_b e.writer frm_prp e.conn.path_resp_out path_chlg_len
    >>= (λ w. some (record e { writer = w; pkt = track_frame e.pkt frm_prp }))

unfoldable pub enc_path_challenge_frame : Enc → Option Enc
unfolding enc_type_b track_frame
enc_path_challenge_frame e =
    enc_type_b e.writer frm_pcl e.conn.path_chlg_out path_chlg_len
    >>= (λ w. some (record e { writer = w; pkt = track_frame e.pkt frm_pcl }))

-- `tok` is the token of the connection.
unfoldable pub enc_new_token_frame : Enc → List ℕ → Option Enc
unfolding enc_type_v encb track_frame
enc_new_token_frame e tok =
    enc_type_v e.writer frm_tok (length tok) >>= (λ w1. encb w1 tok (length tok)) >>= (λ w.
      some (record {
        writer = w;
        conn = record (e.conn) { tx_new_tok = false };
        pkt = track_frame e.pkt frm_tok;
      }))

unfoldable pub enc_retire_cid_frame : Enc → ℕ → Option Enc
unfolding enc_type_v track_frame
enc_retire_cid_frame e seq = enc_type_v e.writer frm_rtr seq >>= (λ w. some (record {
  writer = w;
  conn = record (e.conn) { tx_retire_cid = false };
  pkt = track_frame (record (e.pkt) { retire_cid_seq = seq }) frm_rtr;
}))

unfoldable pub enc_ping_frame : Enc → Option Enc
unfolding enc_type track_frame
enc_ping_frame e =
    enc_type e.writer frm_png
    >>= (λ w. some (record e { writer = w; pkt = track_frame e.pkt frm_png }))

unfoldable pub enc_hshk_done_frame : Enc → Option Enc
unfolding enc_type track_frame
enc_hshk_done_frame e = enc_type e.writer frm_hsd >>= (λ w. some (record {
  writer = w;
  conn = record (e.conn) { tx_hshk_done = false };
  pkt = track_frame e.pkt frm_hsd;
}))

-- `reason` is the text that goes with the error of the connection.
unfoldable pub enc_close_frame : Enc → List ℕ → Option Enc
unfolding enc_type_v enc1 encv encb track_frame
enc_close_frame e reason =
    let c = e.conn in
    let type = if c.err_frm == 0 && not (c.err_code == err_pv) then frm_cla else frm_clq in
    enc_type_v e.writer type c.err_code
    >>= (λ w1. if type == frm_clq then enc1 w1 c.err_frm else some w1)
    >>= (λ w2. encv w2 (length reason))
    >>= (λ w3. if length reason == 0 then some w3 else encb w3 reason (length reason))
    >>= (λ w. some (record e { writer = w; pkt = track_frame e.pkt type }))

-- The fields of a NEW_CONNECTION_ID frame.
unfoldable pub enc_cid : Writer → Cid → Option Writer
unfolding enc_type_vv enc1 encb
enc_cid w id =
    enc_type_vv w frm_cid id.seq 0
    >>= (λ w1. enc1 w1 id.len)
    >>= (λ w2. encb w2 id.id id.len)
    >>= (λ w3. encb w3 id.srt srt_len)

abbrev pub announce_cid : Enc → Conn → Cid → Option Enc
announce_cid e c id = enc_cid e.writer id >>= (λ w. some (record {
  writer = w;
  conn = c;
  pkt =
      track_frame
        (record (e.pkt) {
          min_cid_seq = if e.pkt.min_cid_seq == 0 then id.seq else e.pkt.min_cid_seq;
        })
        frm_cid;
}))

-- The mark that the entry is in the table of connections by ID.
abbrev pub mark_cbi : List Cid → ℕ → List Cid
mark_cbi [] k = []
mark_cbi (i ∷ is) k = (if i.slot == k then record i { in_cbi = true } else i) ∷ mark_cbi is k

-- `fresh` has the random bytes of a new connection ID, and `id_new` tells whether those are not yet
-- in the table of connections by ID. The outer option is a failed check.
unfoldable pub enc_new_cid_frame : Enc → Cid → Bool → Option Enc
unfolding max_seq min_seq cid_by_seq cid_ins err_close enc_cid track_frame
enc_new_cid_frame e fresh id_new =
    let c = e.conn in
    let seq = max (min_seq c.scids) (add64 c.max_cid_seq_out 1) in
    let c1 = record c { max_cid_seq_out = seq } in
    if leb seq (max_seq c.scids)
    then elim (cid_by_seq c.scids.act seq) [ none ↦ none | some id ↦ announce_cid e c1 id ]
    else elim (cid_ins c.scids (record fresh { seq = seq })) [
      | none ↦ none
      | some (ids, none) ↦
          some (record e { conn = err_close (record c1 { scids = ids }) err_pv frm_cid })
      | some (ids, some new) ↦
          (if id_new
            then announce_cid e
                (record c1 { scids = record ids { act = mark_cbi ids.act new.slot } })
                (record fresh { seq = seq })
            else some (record e { conn = err_close (record c1 { scids = ids }) err_pv frm_cid }))
    ]
