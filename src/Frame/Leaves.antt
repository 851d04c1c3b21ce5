-- ===== src/Frame/Leaves.antt =====
-- The decoders of lib/src/frame.c leave no more bytes than they were given.
use quant.Base.{
  ℕ, ◌%◌, ◌^◌, ◌≤◌, min, ◌≡◌, refl, inl, inr, Bool, true, false, not, ◌&&◌, ◌||◌, Option, none,
  some, List, [], arith, ltb, leb, ◌==◌, if◌then◌else◌, Bool-cases, Option-cases, is_some, ◌>>=◌,
  length, length-drop,
}
use quant.Diet.Tree.{SplayOps}
use quant.Cid.Lists.{Cid, Cids, cid_by_seq}
use quant.Cid.Ops.{cid_ins, cid_del}
use quant.Cid.Deref.{deref_cid}
use quant.Conn.Packets.{PktMeta}
use quant.Conn.State.{Conn, Strm, strm_clsd}
use quant.Marshall.Dec.{decv, decb, dec1}
use quant.Tp.Passes.{decv_shorter, decb_shorter}
use quant.Frame.{
  frm_clq, frm_pcl, frm_prp, frm_cid, frm_rtr, frm_tok, frm_mcd, frm_cdb, frm_sbb, frm_msd, frm_sdb,
  frm_stp, frm_rst,
}
use quant.Frame.Handled.{Handled, ok, failed, died, decv_chk, dec1_chk, decb_chk, chk}
use quant.Stream.Fc.{do_stream_fc}
use quant.Stream.Store.{put_stream, strm_to_state}
use quant.Frame.Limits.{
  raise_strm_data, put_pair, dec_max_data_frame, dec_max_strms_frame, dec_data_blocked_frame,
  dec_streams_blocked_frame, dec_max_strm_data_frame, dec_strm_data_blocked_frame,
  dec_stop_sending_frame, dec_reset_stream_frame,
}
use quant.Frame.Paths.{
  dec_path_challenge_frame, dec_path_response_frame, dec_new_cid_frame, dec_retire_cid_frame,
  dec_new_token_frame, dec_close_frame, take_close, take_new_cid, max_act_cids, finish_new_cid,
  ins_dcid, take_retire_cid, retire_older, cid_len_max, srt_len, path_chlg_len, new_cid,
  max_tok_len,
}

-- Where a decoder goes on, at most `n` bytes are left.
pub data Leaves (n : ℕ) : Handled → Type 0 where
  goes_on : (c : Conn) (rest : List ℕ) → length rest ≤ n → Leaves n (ok c rest)
  fails : (c : Conn) → Leaves n (failed c)
  dies : Leaves n died

pub if-Leaves :
    (n : ℕ) (b : Bool) (x y : Handled) → Leaves n x → Leaves n y → Leaves n (if b then x else y)
if-Leaves n true x y h k = h
if-Leaves n false x y h k = k

chk-Leaves :
    {A : Type 0} (n : ℕ) (c : Conn) (frm : ℕ) (o : Option (A × List ℕ)) (k : A → List ℕ → Handled)
    → ((v : A) (rest : List ℕ) → o ≡ some (v, rest) → Leaves n (k v rest))
    → Leaves n (chk c frm o k)
chk-Leaves n c frm none k h = fails _
chk-Leaves n c frm (some (v, rest)) k h = h v rest refl

pub decv_chk-Leaves :
    (n past : ℕ) (c : Conn) (frm : ℕ) (inp : List ℕ) (k : ℕ → List ℕ → Handled)
    → length inp ≤ n
    → ((v : ℕ) (rest : List ℕ) → length rest ≤ n → Leaves n (k v rest))
    → Leaves n (decv_chk past c frm inp k)
decv_chk-Leaves n past c frm inp k l h =
    chk-Leaves n c frm (decv past inp) k
      (λ v rest e. h v rest (omega (arith, decv_shorter past v inp rest e)))

decb_chk-Leaves :
    (n : ℕ) (c : Conn) (frm len : ℕ) (inp : List ℕ) (k : List ℕ → List ℕ → Handled)
    → length inp ≤ n
    → ((v rest : List ℕ) → length rest ≤ n → Leaves n (k v rest))
    → Leaves n (decb_chk c frm len inp k)
decb_chk-Leaves n c frm len inp k l h =
    chk-Leaves n c frm (decb len inp) k
      (λ v rest e. h v rest (omega (arith, decb_shorter len v inp rest e)))

dec1_shorter : (v : ℕ) (inp rest : List ℕ) → dec1 inp ≡ some (v, rest) → length rest ≤ length inp
unfolding dec1
dec1_shorter v inp rest h = ground (arith, length-drop 1 inp)

dec1_chk-Leaves :
    (n : ℕ) (c : Conn) (frm : ℕ) (inp : List ℕ) (k : ℕ → List ℕ → Handled)
    → length inp ≤ n
    → ((v : ℕ) (rest : List ℕ) → length rest ≤ n → Leaves n (k v rest))
    → Leaves n (dec1_chk c frm inp k)
dec1_chk-Leaves n c frm inp k l h =
    chk-Leaves n c frm (dec1 inp) k
      (λ v rest e. h v rest (omega (arith, dec1_shorter v inp rest e)))

retired-Leaves :
    (n : ℕ) (c : Conn) (rest : List ℕ) (o : Option Cids)
    → length rest ≤ n
    → Leaves n
        (elim o [ none ↦ died | some ids ↦ ok (record c { scids = ids; tx_ncid = true }) rest ])
retired-Leaves n c rest none k = dies
retired-Leaves n c rest (some ids) k = goes_on _ rest k

take_retire_cid-Leaves :
    (n : ℕ) (c : Conn) (seq : ℕ) (rest : List ℕ)
    → length rest ≤ n
    → Leaves n (take_retire_cid c seq rest)
unfolding take_retire_cid
take_retire_cid-Leaves n c seq rest k = elim (Option-cases (c.scid >>= λ k. deref_cid c.scids k)) [
  | inl e ↦ elim (Option-cases (cid_by_seq c.scids.act seq)) [
    | inl z ↦ rw (take_retire_cid, e, z) (goes_on _ rest k)
    | inr (i, z) ↦ rw (take_retire_cid, e, z) dies
  ]
  | inr (s, e) ↦ elim (Bool-cases (s.seq == seq)) [
    | inl t ↦ rw (take_retire_cid, e, t) (fails _)
    | inr t ↦ elim (Option-cases (cid_by_seq c.scids.act seq)) [
      | inl z ↦ rw (take_retire_cid, e, t, z) (goes_on _ rest k)
      | inr (i, z) ↦ elim (Bool-cases i.in_cbi) [
        | inl u ↦
            rw (take_retire_cid, e, t, z, u)
              (retired-Leaves n c rest (cid_del c.scids (record i { in_cbi = false })) k)
        | inr u ↦ rw (take_retire_cid, e, t, z, u) dies
      ]
    ]
  ]
]

ins_dcid-Leaves :
    (n : ℕ) (srt_new : List ℕ → Bool) (c : Conn) (id : Cid) (rest : List ℕ)
    → length rest ≤ n
    → Leaves n (ins_dcid srt_new c id rest)
unfolding ins_dcid
ins_dcid-Leaves n srt_new c id rest k = elim (Option-cases (cid_ins c.dcids id)) [
  | inl e ↦ rw (ins_dcid, e) dies
  | inr ((ids, o), e) ↦ elim (Option-cases o) [
    | inl z ↦ rw (ins_dcid, e, z) (fails _)
    | inr (i, z) ↦
        rw (ins_dcid, e, z) (if-Leaves n (srt_new i.srt) _ _ (goes_on _ rest k) (fails _))
  ]
]

finish_new_cid-Leaves :
    (n : ℕ) (srt_new : List ℕ → Bool) (dup : Bool) (id : Cid) (rest : List ℕ) (o : Option Conn)
    → length rest ≤ n
    → Leaves n (finish_new_cid srt_new dup id rest o)
finish_new_cid-Leaves n srt_new dup id rest none k = dies
finish_new_cid-Leaves n srt_new dup id rest (some c) k =
    if-Leaves n dup _ _ (goes_on _ rest k) (ins_dcid-Leaves n srt_new c id rest k)

take_new_cid-Leaves :
    (n : ℕ) (srt_new : List ℕ → Bool) (c : Conn) (cur : Cid) (rpt : ℕ) (id : Cid) (rest : List ℕ)
    → length rest ≤ n
    → Leaves n (take_new_cid srt_new c cur rpt id rest)
unfolding take_new_cid
take_new_cid-Leaves n srt_new c cur rpt id rest k =
    let dup = is_some (cid_by_seq c.dcids.act id.seq) || leb id.seq cur.seq in
    if-Leaves n (id.len == 0 && not (cur.len == 0)) _ _ (fails _) (
      if-Leaves n (not (id.len == 0) && cur.len == 0) _ _ (fails _) (
        if-Leaves n (not dup && ltb (max_act_cids c) c.dcids.act_cnt) _ _ (fails _) (
          if-Leaves n (ltb id.seq rpt) _ _ (fails _) (
            if-Leaves n (ltb cid_len_max id.len) _ _ (fails _)
              (finish_new_cid-Leaves n srt_new dup id rest (retire_older c cur rpt) k)))))

module _ (n past : ℕ) (c : Conn) (inp : List ℕ) (l : length inp ≤ n) where
  pub dec_max_data_frame-Leaves : Leaves n (dec_max_data_frame past c inp)
  unfolding dec_max_data_frame
  dec_max_data_frame-Leaves =
      decv_chk-Leaves n past c frm_mcd inp _ l (λ v rest k. goes_on _ rest k)

  pub dec_max_strms_frame-Leaves : (type : ℕ) → Leaves n (dec_max_strms_frame past c type inp)
  unfolding dec_max_strms_frame
  dec_max_strms_frame-Leaves type =
      decv_chk-Leaves n past c type inp _ l
        (λ v rest k. if-Leaves n (ltb (2 ^ 60) v) _ _ (fails _) (goes_on _ rest k))

  pub dec_data_blocked_frame-Leaves : Leaves n (dec_data_blocked_frame past c inp)
  unfolding dec_data_blocked_frame
  dec_data_blocked_frame-Leaves =
      decv_chk-Leaves n past c frm_cdb inp _ l (λ v rest k. goes_on _ rest k)

  pub dec_streams_blocked_frame-Leaves :
      (type : ℕ) → Leaves n (dec_streams_blocked_frame past c type inp)
  unfolding dec_streams_blocked_frame
  dec_streams_blocked_frame-Leaves type =
      decv_chk-Leaves n past c frm_sbb inp _ l
        (λ v rest k. if-Leaves n (ltb (2 ^ 60) v) _ _ (fails _) (goes_on _ rest k))

  with_strm-Leaves :
      (found : Option Strm) (c1 : Conn) (rest : List ℕ) (k : Conn → Strm → Conn)
      → length rest ≤ n
      → Leaves n (elim found [ none ↦ ok c1 rest | some s ↦ ok (k c1 s) rest ])
  with_strm-Leaves none c1 rest k h = goes_on _ rest h
  with_strm-Leaves (some s) c1 rest k h = goes_on _ rest h

  module _ (ops : SplayOps) where
    pub dec_max_strm_data_frame-Leaves : Leaves n (dec_max_strm_data_frame past ops c inp)
    unfolding dec_max_strm_data_frame
    dec_max_strm_data_frame-Leaves = decv_chk-Leaves n past c frm_msd inp _ l (λ sid r1 k1.
        decv_chk-Leaves n past c frm_msd r1 _ k1
          (λ v r2 k2. with_strm-Leaves _ _ r2 (λ d s. raise_strm_data d s v) k2))

    pub dec_strm_data_blocked_frame-Leaves : Leaves n (dec_strm_data_blocked_frame past ops c inp)
    unfolding dec_strm_data_blocked_frame
    dec_strm_data_blocked_frame-Leaves = decv_chk-Leaves n past c frm_sdb inp _ l (λ sid r1 k1.
        decv_chk-Leaves n past c frm_sdb r1 _ k1
          (λ v r2 k2. with_strm-Leaves _ _ r2 (λ d s. put_pair (do_stream_fc d s 0)) k2))

    pub dec_stop_sending_frame-Leaves : Leaves n (dec_stop_sending_frame past ops c inp)
    unfolding dec_stop_sending_frame
    dec_stop_sending_frame-Leaves = decv_chk-Leaves n past c frm_stp inp _ l (λ sid r1 k1.
        decv_chk-Leaves n past c frm_stp r1 _ k1 (λ v r2 k2. with_strm-Leaves _ _ r2 (λ d s. d) k2))

    pub dec_reset_stream_frame-Leaves : Leaves n (dec_reset_stream_frame past ops c inp)
    unfolding dec_reset_stream_frame
    dec_reset_stream_frame-Leaves = decv_chk-Leaves n past c frm_rst inp _ l (λ sid r1 k1.
        decv_chk-Leaves n past c frm_rst r1 _ k1 (λ v r2 k2.
          decv_chk-Leaves n past c frm_rst r2 _ k2 (λ off r3 k3.
            with_strm-Leaves _ _ r3 (λ d s. put_stream d (strm_to_state s strm_clsd)) k3)))

  pub dec_path_challenge_frame-Leaves : Leaves n (dec_path_challenge_frame c inp)
  unfolding dec_path_challenge_frame
  dec_path_challenge_frame-Leaves =
      decb_chk-Leaves n c frm_pcl path_chlg_len inp _ l (λ v rest k. goes_on _ rest k)

  pub dec_path_response_frame-Leaves : (m : PktMeta) → Leaves n (dec_path_response_frame c m inp)
  unfolding dec_path_response_frame
  dec_path_response_frame-Leaves m =
      decb_chk-Leaves n c frm_prp path_chlg_len inp _ l
        (λ v rest k. if-Leaves n _ _ _ (goes_on _ rest k) (goes_on _ rest k))

  pub dec_retire_cid_frame-Leaves : Leaves n (dec_retire_cid_frame past c inp)
  unfolding dec_retire_cid_frame
  dec_retire_cid_frame-Leaves =
      decv_chk-Leaves n past c frm_rtr inp _ l (λ v rest k. take_retire_cid-Leaves n c v rest k)

  pub dec_new_token_frame-Leaves : Leaves n (dec_new_token_frame past c inp)
  unfolding dec_new_token_frame
  dec_new_token_frame-Leaves = decv_chk-Leaves n past c frm_tok inp _ l (λ v r1 k1.
      if-Leaves n (ltb max_tok_len (min v (length r1))) _ _ (fails _) (
        decb_chk-Leaves n c frm_tok (min v (length r1)) r1 _ k1 (λ tok r2 k2.
          if-Leaves n (not c.is_clnt) _ _ (fails _)
            (if-Leaves n _ _ _ (fails _) (goes_on _ r2 k2)))))

  take_close-Leaves : (type : ℕ) (r : List ℕ) → length r ≤ n → Leaves n (take_close past c type r)
  unfolding take_close
  take_close-Leaves type r k = decv_chk-Leaves n past c type r _ k (λ v r1 k1.
      decb_chk-Leaves n c type (min v (length r1 % 2 ^ 16)) r1 _ k1
        (λ reason r2 k2. if-Leaves n _ _ _ (fails _) (goes_on _ r2 k2)))

  pub dec_close_frame-Leaves : (type : ℕ) → Leaves n (dec_close_frame past c type inp)
  unfolding dec_close_frame
  dec_close_frame-Leaves type = decv_chk-Leaves n past c type inp _ l (λ err_code r1 k1.
      if-Leaves n (type == frm_clq) _ _
        (decv_chk-Leaves n past c type r1 _ k1 (λ frame_type r2 k2. take_close-Leaves type r2 k2))
        (take_close-Leaves type r1 k1))

  pub dec_new_cid_frame-Leaves :
      (srt_new : List ℕ → Bool) → Leaves n (dec_new_cid_frame past srt_new c inp)
  unfolding dec_new_cid_frame
  dec_new_cid_frame-Leaves srt_new = decv_chk-Leaves n past c frm_cid inp _ l (λ seq r1 k1.
      decv_chk-Leaves n past c frm_cid r1 _ k1 (λ rpt r2 k2.
        dec1_chk-Leaves n c frm_cid r2 _ k2 (λ len r3 k3.
          elim (Option-cases (deref_cid c.dcids c.dcid)) [
            | inl e ↦ rw e dies
            | inr (cur, e) ↦ rw e (
                if-Leaves n (leb len cid_len_max) _ _
                  (decb_chk-Leaves n c frm_cid len r3 _ k3 (λ id r4 k4.
                    decb_chk-Leaves n c frm_cid srt_len r4 _ k4 (λ srt r5 k5.
                      take_new_cid-Leaves n srt_new c cur rpt (new_cid seq len id srt) r5 k5)))
                  (take_new_cid-Leaves n srt_new c cur rpt (new_cid seq len [] []) r3 k3))
          ])))
