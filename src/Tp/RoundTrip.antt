-- ===== src/Tp/RoundTrip.antt =====
-- A server's chk_tp reads the transport parameters that a client's init_tp wrote (lib/src/tls.c).
use quant.Base.{
  ℕ, ◌+◌, ◌*◌, ◌≤◌, ◌<◌, ◌≡◌, refl, sym, ap, subst, ◌∙◌, ◌≢◌, Bool, true, false, ◌&&◌, some, List,
  [], ◌∷◌, ◌++◌, append-nil, append_assoc, arith, ltb, ◌==◌, if◌then◌else◌, some_inj, >>=-some,
  length,
}
use quant.Cid.Lists.{Cid}
use quant.Conn.State.{Conn, TransportParams}
use quant.Marshall.Buffer.{Writer}
use quant.Tp.Params.{
  Param, dcid_o, idto, mups, imd, imsd_bl, imsd_br, imsd_u, imsb, imsu, ade, mad, acil, param_nr,
  param_of, passed, TpScan, get_num,
}
use quant.Tp.Check.{tp_loop, start_scan}
use quant.Tp.Enc.{TpExtra, mine, is_sent, put_tps, put_tp}
use quant.Tp.Init.{init_tp, extra_of, shuffle, tp_order, tp_len}
use quant.Tp.Shuffle.{count, count-shuffle, count-tp_order}
use quant.Tp.Items.{is_num}
use quant.Tp.Rounds.{Rounds, here, Rounds-trans, Rounds-loop}
use quant.Tp.Told.{get_num-reads, reads_seen}
use quant.Tp.Written.{IsSendable, reads, item-Written}

-- A parameter of the list is announced and has a number.
abbrev listed : Param → Conn → List ℕ → TransportParams → ℕ
listed p c tps peer =
    if ltb 0 (count (param_nr p) tps) && is_sent p c.tp_mine
    then mine p c.tp_mine
    else get_num p peer

one_more :
    (n k m b : ℕ) (sent : Bool) (tps : List ℕ)
    → count k (n ∷ tps) ≤ 1
    → (if ltb 0 (count k tps) && sent then m else if n == k && sent then m else b)
      ≡ (if ltb 0 (count k (n ∷ tps)) && sent then m else b)
one_more n k m b sent tps h = ground arith

abbrev AllRead : Writer → Writer → Conn → List ℕ → Type 0
AllRead w w' c tps =
    (bytes : List ℕ) × (w'.out ≡ w.out ++ bytes)
    × ((past : ℕ) (srt_new : List ℕ → Bool) (s : TpScan) (rest : List ℕ)
        → ((v : ℕ) → 0 < count v tps → s.tp_list v ≡ false)
        → (s' : TpScan) × Rounds past srt_new s (bytes ++ rest) s' rest
          × ((p : Param)
              → is_num p ≡ true
              → get_num p s'.conn.tp_peer ≡ listed p c tps s.conn.tp_peer))

all_read :
    (c : Conn) (x : TpExtra) (id : Cid)
    → IsSendable c x id
    → (w w' : Writer) (tps : List ℕ) → put_tps w c x tps ≡ some w'
    → ((v : ℕ) → count v tps ≤ 1)
    → AllRead w w' c tps
unfolding put_tps
all_read c x id ok w w' [] e h = (
  [],
  ap (λ (v : Writer). v.out) (sym (some_inj e)) ∙ sym (append-nil w.out),
  λ past srt_new s rest u. (s, here s rest, λ p i. refl),
)
all_read c x id ok w w' (tp ∷ tps) e h =
    let (w1, a, e1) = >>=-some (put_tp w c x tp (param_of tp)) _ e in
    let (b1, o1, f1) = item-Written c x id ok w w1 tp (param_of tp) refl a in
    let (b2, o2, f2) = all_read c x id ok w1 w' tps e1 (λ v. omega (arith, h v)) in
    (
      b1 ++ b2,
      o2 ∙ ap (λ o. o ++ b2) o1 ∙ append_assoc w.out b1 b2,
      λ past srt_new s rest u.
          let s1 = reads c x id tp (param_of tp) s in
          let first = f1 past srt_new s (b2 ++ rest) (u tp (ground arith)) in
          let (s', r, g) = f2 past srt_new s1 rest (λ v k.
            reads_seen c x id tp v (param_of tp) s refl (apart tp v k (h v))
              (u v (omega (arith, k)))) in
          (
            s',
            Rounds-trans
                (subst (λ l. Rounds past srt_new s l s1 (b2 ++ rest))
                  (sym (append_assoc b1 b2 rest)) first)
                r,
            λ p i.
                g p i
                ∙ ap
                    (λ n.
                      if ltb 0 (count (param_nr p) tps) && is_sent p c.tp_mine
                      then mine p c.tp_mine
                      else n)
                    (get_num-reads p c x id tp (param_of tp) s i refl)
                ∙ one_more tp (param_nr p) (mine p c.tp_mine) (get_num p s.conn.tp_peer)
                    (is_sent p c.tp_mine) tps (h (param_nr p)),
          ),
    )
  where
    apart : (tp v : ℕ) → 0 < count v tps → count v (tp ∷ tps) ≤ 1 → v == tp ≡ false
    apart tp v k l = ground arith

count_param : (p : Param) (r : ℕ) → 0 < count (param_nr p) (tp_order (31 * r + 27))
unfolding tp_order param_nr
count_param dcid_o r = ground arith
count_param _ r = ground arith

-- What one end announces, as the other end keeps it in `tp_peer`: its local streams are remote there.
-- What it leaves out is at the value that holds without it.
pub record Received (own peer : TransportParams) : Type 0 where
  pub total : peer.max_data ≡ own.max_data
  pub remote : peer.max_strm_data_bidi_remote ≡ own.max_strm_data_bidi_local
  pub local : peer.max_strm_data_bidi_local ≡ own.max_strm_data_bidi_remote
  pub strms_bidi : peer.max_strms_bidi ≡ own.max_strms_bidi
  pub ups : peer.max_ups ≡ own.max_ups
  pub strms_uni : own.max_strms_uni ≢ 0 → peer.max_strms_uni ≡ own.max_strms_uni
  pub data_uni : own.max_strm_data_uni ≢ 0 → peer.max_strm_data_uni ≡ own.max_strm_data_uni
  pub idle : own.max_idle_to ≢ 0 → peer.max_idle_to ≡ own.max_idle_to
  pub exponent : own.ack_del_exp ≢ 3 → peer.ack_del_exp ≡ own.ack_del_exp
  pub delay : own.max_ack_del ≢ 25 → peer.max_ack_del ≡ own.max_ack_del
  pub cids : own.disable_active_migration ≡ false → peer.act_cid_lim ≡ own.act_cid_lim

told_once :
    (sent : Bool) (a b m n : ℕ)
    → sent ≡ true
    → a ≡ b
    → 0 < b
    → (if ltb 0 a && sent then m else n) ≡ m
told_once sent a b m n t e h = ground arith

all-Received :
    (c : Conn) (peer : TransportParams)
    → ((p : Param)
        → is_num p ≡ true
        → is_sent p c.tp_mine ≡ true
        → get_num p peer ≡ mine p c.tp_mine)
    → Received c.tp_mine peer
unfolding get_num mine is_sent
all-Received c peer h = record {
  total = h imd refl refl;
  remote = h imsd_bl refl refl;
  local = h imsd_br refl refl;
  strms_bidi = h imsb refl refl;
  ups = h mups refl refl;
  strms_uni = λ k. h imsu refl (ground arith);
  data_uni = λ k. h imsd_u refl (ground arith);
  idle = λ k. h idto refl (ground arith);
  exponent = λ k. h ade refl (ground arith);
  delay = λ k. h mad refl (ground arith);
  cids = λ k. h acil refl (ground arith);
}

-- The transport parameters that a client with sendable ones writes in any random order, with a grease
-- type other than the number of quantum readiness, are read by every server without an error: the
-- loop of its chk_tp ends, and it has the numbers that the client announced.
pub init_tp-chk_tp :
    (rnd : ℕ → ℕ) (grease bytes : List ℕ) (rand32 past : ℕ) (c c' d : Conn) (id : Cid)
    (srt_new : List ℕ → Bool)
    → IsSendable c (extra_of c grease rand32) id
    → ((k : ℕ) → 0 < k → rnd k < k)
    → rand32 ≢ 100
    → init_tp rnd grease rand32 c ≡ some (c', bytes)
    → (s : TpScan) × (tp_loop (length bytes) past srt_new (start_scan d) bytes ≡ some (passed s))
      × Received c.tp_mine s.conn.tp_peer
unfolding init_tp
init_tp-chk_tp rnd grease bytes rand32 past c c' d id srt_new ok b n e =
    let x = extra_of c grease rand32 in
    let order = tp_order (31 * rand32 + 27) in
    let same = λ (v : ℕ). count-shuffle rnd v 19 order b (order_long (31 * rand32 + 27)) in
    let (w, q, k) =
      >>=-some (put_tps (record { out = []; room = tp_len }) c x (shuffle rnd 19 order)) _ e in
    let z : w.out ≡ bytes = ap (λ (r : Conn × List ℕ). r.1) (some_inj k) in
    let (bs, o, f) =
      all_read c x id ok (record { out = []; room = tp_len }) w (shuffle rnd 19 order) q
        (λ v. omega (arith, same v, count-tp_order v rand32 n)) in
    let (s, r, g) = f past srt_new (start_scan d) [] (λ v h. refl) in
    let l : bs ++ [] ≡ bytes = append-nil bs ∙ sym o ∙ z in
    (
      s,
      subst (λ i. tp_loop (length i) past srt_new (start_scan d) i ≡ some (passed s)) l
          (Rounds-loop (length (bs ++ [])) past srt_new (start_scan d) s (bs ++ []) [] r refl
            (omega arith)),
      all-Received c s.conn.tp_peer (λ p i t.
          g p i
          ∙ told_once (is_sent p c.tp_mine) _ _ (mine p c.tp_mine)
              (get_num p (start_scan d).conn.tp_peer) t (same (param_nr p)) (count_param p rand32)),
    )
  where
    order_long : (g : ℕ) → 19 < length (tp_order g)
    order_long g = unfold tp_order in (omega arith)
