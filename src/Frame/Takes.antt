-- ===== src/Frame/Takes.antt =====
-- What `dec_stream_or_crypto_frame` of lib/src/frame.c leaves of the bytes.
use quant.Base.{
  ℕ, ◌-◌, ◌%◌, ◌^◌, ◌≤◌, inl, inr, Bool, true, false, not, ◌&&◌, ◌||◌, Option, none, some, List,
  arith, ltb, ◌==◌, if◌then◌else◌, Bool-cases, Option-cases, is_some, ◌>>=◌, length, drop,
  length-drop, sub64,
}
use quant.Diet.Tree.{SplayOps}
use quant.Conn.Packets.{PktMeta, numbered}
use quant.Conn.State.{Conn, Strm}
use quant.Marshall.Dec.{decv}
use quant.Tp.Passes.{decv_shorter}
use quant.Diet.Ops.{diet_find}
use quant.Frame.Data.{
  StrmFrame, taken, failed, died, strm_chk, finish_strm, after_place, place_strm, open_strm,
  deliver, read_data, dec_stream_or_crypto_frame, trim_meta, trim_rest, seg_of, epoch_for_pkt_type,
  crpt_strm_id, is_cry, lh_init, has_len, has_fin, has_off,
}
use quant.Stream.Reassembly.{
  Placed, placed, refused, sdt_seq, sdt_ooo, sdt_dup, sdt_ign, right_edge,
}
use quant.Stream.Ids.{is_srv_ini, same_bool, max_sid}
use quant.Stream.Store.{get_stream, put_stream, deref_strm}
use quant.Stream.Life.{new_stream}
use quant.Recovery.Detect.{detect_all_lost_pkts}
use quant.Frame.Handled.{err_strm_stat}
use quant.Frame.Data.{fail_strm}

-- Where the data is taken, at most `n` bytes are left.
pub data Takes (n : ℕ) : StrmFrame → Type 0 where
  takes : (c : Conn) (m : PktMeta) (rest : List ℕ) → length rest ≤ n → Takes n (taken c m rest)
  fails : (c : Conn) → Takes n (failed c)
  dies : Takes n died

if-Takes :
    (n : ℕ) (b : Bool) (x y : StrmFrame) → Takes n x → Takes n y → Takes n (if b then x else y)
if-Takes n true x y h k = h
if-Takes n false x y h k = k

length-drop_le : (k n : ℕ) (xs : List ℕ) → length xs ≤ n → length (drop k xs) ≤ n
length-drop_le k n xs h = omega (arith, length-drop k xs)

finish_strm-Takes :
    (n type : ℕ) (c : Conn) (m : PktMeta) (s : Option Strm) (ignore : Bool) (rest : List ℕ)
    → length rest ≤ n
    → Takes n (finish_strm type c m s ignore rest)
unfolding finish_strm
finish_strm-Takes n type c m s ignore rest h = elim (Bool-cases over) [
  | inl t ↦ rw (finish_strm, t) (fails _)
  | inr t ↦ rw (finish_strm, t) (takes _ _ _ (length-drop_le m.strm_data_len n rest h))
]
  where
    over : Bool
    over = elim s [
      | none ↦ false
      | some t ↦ not (is_cry type) && ltb (sub64 t.in_data_max 1) (right_edge (seg_of m))
    ]

module _ (ops : SplayOps) (w_max default_ups now now2 n : ℕ) where
  lost-Takes :
      {A : Type 0}
      → (type : ℕ) (m : PktMeta) (t : Strm) (rest : List ℕ) (o : Option (Conn × A))
      → length rest ≤ n
      → Takes n (elim o [ none ↦ died | some (c1, tx) ↦ finish_strm type c1 m (some t) true rest ])
  lost-Takes type m t rest none h = dies
  lost-Takes type m t rest (some (c1, tx)) h = finish_strm-Takes n type c1 m (some t) true rest h

  after_place-Takes :
      (type : ℕ) (m : PktMeta) (s : Strm) (rest : List ℕ) (p : Placed)
      → length rest ≤ n
      → Takes n (after_place ops w_max default_ups now now2 type m s rest p)
  unfolding after_place
  after_place-Takes type m s rest (refused c t) h = fails _
  after_place-Takes type m s rest (placed sdt_seq c t) h =
      finish_strm-Takes n type (put_stream c t) (trim_meta s m) (some t) false (trim_rest s m rest)
        (length-drop_le (if ltb m.strm_off s.in_data_off then s.in_data_off - m.strm_off else 0) n
          rest h)
  after_place-Takes type m s rest (placed sdt_ooo c t) h =
      finish_strm-Takes n type (put_stream c t) m (some t) false rest h
  after_place-Takes type m s rest (placed sdt_ign c t) h =
      finish_strm-Takes n type (put_stream c t) m (some t) true rest h
  after_place-Takes type m s rest (placed sdt_dup c t) h =
      if-Takes n (not c.is_clnt && m.hdr_type == lh_init) _ _
        (lost-Takes type m t rest
          (detect_all_lost_pkts ops w_max default_ups now now2 (put_stream c t) false) h)
        (finish_strm-Takes n type (put_stream c t) m (some t) true rest h)

  place_strm-Takes :
      (type : ℕ) (c : Conn) (m : PktMeta) (s : Strm) (rest : List ℕ)
      → length rest ≤ n
      → Takes n (place_strm ops w_max default_ups now now2 type c m s rest)
  unfolding place_strm
  place_strm-Takes type c m s rest h = after_place-Takes type m s rest _ h

  opened-Takes :
      (type : ℕ) (m : PktMeta) (rest : List ℕ) (o : Option (Conn × Strm))
      → length rest ≤ n
      → Takes n (elim o [
        | none ↦ died
        | some (c2, s) ↦
            place_strm ops w_max default_ups now now2 type c2 (record m { strm = some s.id }) s rest
      ])
  opened-Takes type m rest none h = dies
  opened-Takes type m rest (some (c2, s)) h = place_strm-Takes type _ _ _ rest h

  open_strm-Takes :
      (type : ℕ) (c : Conn) (m : PktMeta) (sid : ℕ) (rest : List ℕ)
      → length rest ≤ n
      → Takes n (open_strm ops w_max default_ups now now2 type c m sid rest)
  unfolding open_strm
  open_strm-Takes type c m sid rest h =
      let (clsd, found) = diet_find ops c.clsd_strms sid in
      let c1 = record c { clsd_strms = clsd } in
      if-Takes n (is_some found) _ _ (finish_strm-Takes n type c1 m none true rest h) (
        if-Takes n (not (same_bool (is_srv_ini (numbered sid)) c.is_clnt)) _ _ (fails _)
          (opened-Takes type m rest (new_stream c1 (numbered sid)) h))

  deliver-Takes :
      (type : ℕ) (c : Conn) (m : PktMeta) (s : Option Strm) (sid : ℕ) (rest : List ℕ)
      → length rest ≤ n
      → Takes n (deliver ops w_max default_ups now now2 type c m s sid rest)
  unfolding deliver
  deliver-Takes type c m none sid rest h =
      if-Takes n (m.strm_data_len == 0 && not m.is_fin) _ _
        (finish_strm-Takes n type c m none true rest h) (open_strm-Takes type c m sid rest h)
  deliver-Takes type c m (some t) sid rest h =
      if-Takes n (m.strm_data_len == 0 && not m.is_fin) _ _
        (finish_strm-Takes n type c m (some t) true rest h) (place_strm-Takes type c m t rest h)

  strm_chk-Takes :
      (c : Conn) (type past : ℕ) (inp : List ℕ) (k : ℕ → List ℕ → StrmFrame)
      → length inp ≤ n
      → ((v : ℕ) (rest : List ℕ) → length rest ≤ n → Takes n (k v rest))
      → Takes n (strm_chk c type (decv past inp) k)
  strm_chk-Takes c type past inp k h f = elim (Option-cases (decv past inp)) [
    | inl e ↦ rw e (fails _)
    | inr ((v, rest), e) ↦ rw e (f v rest (omega (arith, decv_shorter past v inp rest e)))
  ]

  module _ (past : ℕ) where
    read_data-Takes :
        (type : ℕ) (c : Conn) (m : PktMeta) (s : Option Strm) (sid : Option ℕ) (inp : List ℕ)
        → length inp ≤ n
        → Takes n (read_data ops w_max default_ups now now2 past type c m s sid inp)
    unfolding read_data
    read_data-Takes type c m s sid inp h =
        let m1 = λ (off l : ℕ). record m { strm_off = off; strm_data_len = l % 2 ^ 16 } in
        let num : ℕ = elim sid [ none ↦ 0 | some x ↦ x ] in
        let got = λ (off l : ℕ) (r2 : List ℕ) (g : length r2 ≤ n).
          if-Takes n (is_some sid && ltb (max_sid num c) num) _ _ (fails _)
            (deliver-Takes type c (m1 off l) s num r2 g) in
        let len_read = λ (off : ℕ) (r1 : List ℕ) (g : length r1 ≤ n).
          if-Takes n (has_len type || is_cry type) _ _
            (strm_chk-Takes c type past r1 _ g
              (λ l r2 g2. if-Takes n (ltb (length r2) l) _ _ (fails _) (got off l r2 g2)))
            (got off (length r1 % 2 ^ 16) r1 g) in
        if-Takes n (has_off type || is_cry type) _ _ (strm_chk-Takes c type past inp _ h len_read)
          (len_read 0 inp h)

    crypto-Takes :
        (type : ℕ) (c : Conn) (m : PktMeta) (inp : List ℕ) (o : Option Strm)
        → length inp ≤ n
        → Takes n (elim o [
          | none ↦ fail_strm c err_strm_stat type
          | some s ↦
              read_data ops w_max default_ups now now2 past type c
                (record m { strm = some s.id })
                (some s)
                none
                inp
        ])
    crypto-Takes type c m inp none h = fails _
    crypto-Takes type c m inp (some s) h =
        read_data-Takes type c (record m { strm = some s.id }) (some s) none inp h

    pub dec_stream_or_crypto_frame-Takes :
        (type : ℕ) (c : Conn) (m : PktMeta) (inp : List ℕ)
        → length inp ≤ n
        → Takes n (dec_stream_or_crypto_frame ops w_max default_ups now now2 past type c m inp)
    unfolding dec_stream_or_crypto_frame
    dec_stream_or_crypto_frame-Takes type c m inp h =
        if-Takes n (is_cry type) _ _
          (crypto-Takes type c m inp (crpt_strm_id (epoch_for_pkt_type m.hdr_type) >>= deref_strm c)
            h)
          (strm_chk-Takes c type past inp _ h (λ sid rest g.
            let s = get_stream c (numbered sid) in
            read_data-Takes type c
              (record m {
                is_fin = has_fin type;
                strm = elim s [ none ↦ none | some t ↦ some t.id ];
              })
              s (some sid) rest g))
