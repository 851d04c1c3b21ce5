-- ===== src/Tp/Loop.antt =====
-- chk_tp of lib/src/tls.c ends, and what holds of the parameters that it accepts.
use quant.Base.{
  ℕ, zero, suc, ◌+◌, ◌^◌, ◌≤◌, ◌<◌, ◌≡◌, refl, sym, ap, subst, ◌∙◌, inl, inr, Bool, true, false,
  some, List, [], ◌∷◌, arith, ◌==◌, Bool-cases, Option-cases, length,
}
use quant.Cid.Deref.{deref_cid}
use quant.Conn.State.{Conn, Strm, TransportParams}
use quant.Conn.Close.{err_close, enter_closing, enter_closed, stop_all_alarms}
use quant.Frame.{frm_cry}
use quant.Stream.Fc.{apply_stream_limits, do_stream_fc}
use quant.Stream.Store.{put_stream, need_ctrl_update}
use quant.Tp.Params.{◌>>=◌ as bind, Checked, passed, refused, overrun, died, TpScan}
use quant.Tp.Dec.{take_tp}
use quant.Tp.Check.{
  tp_loop, start_scan, check_cids, limit_cids, apply_all_limits, quic_tp, find_ext, finish_tp,
  chk_tp, first_type,
}
use quant.Tp.Passes.{Passes, Passes-mono, Passes-bind}
use quant.Tp.Bounds.{InBounds, take_tp-Keeps}

-- What the loop comes to.
abbrev Looped : ℕ → ℕ → (List ℕ → Bool) → TpScan → List ℕ → Type 0
Looped fuel past srt_new s inp =
    (r : Checked TpScan) × (tp_loop fuel past srt_new s inp ≡ some r)
    × Passes (λ s'. InBounds s.conn.tp_peer → InBounds s'.conn.tp_peer) r

after_round :
    (fuel past : ℕ) (srt_new : List ℕ → Bool) (s : TpScan) (b : ℕ) (inp : List ℕ)
    (r : Checked (TpScan × List ℕ))
    → take_tp past srt_new s (b ∷ inp) ≡ r
    → Passes
        (λ r.
          (InBounds s.conn.tp_peer → InBounds r.0.conn.tp_peer) × (length r.1 < length (b ∷ inp)))
        r
    → ((s1 : TpScan) (rest : List ℕ)
        → length rest < length (b ∷ inp)
        → Looped fuel past srt_new s1 rest)
    → Looped (suc fuel) past srt_new s (b ∷ inp)
unfolding tp_loop
after_round fuel past srt_new s b inp (passed (s1, rest)) e (k, l) loop =
    let (r, q, p) = loop s1 rest l in
    (r, rw (tp_loop, e) q, Passes-mono _ _ r (λ s' h i. h (k i)) p)
after_round fuel past srt_new s b inp (refused c) e k loop = (refused c, rw (tp_loop, e), tt)
after_round fuel past srt_new s b inp overrun e k loop = (overrun, rw (tp_loop, e), tt)
after_round fuel past srt_new s b inp died e k loop = (died, rw (tp_loop, e), tt)

tp_loop_ends :
    (fuel past : ℕ) (srt_new : List ℕ → Bool) (s : TpScan) (inp : List ℕ)
    → length inp ≤ fuel
    → Looped fuel past srt_new s inp
unfolding tp_loop
tp_loop_ends zero past srt_new s [] l = (passed s, refl, λ i. i)
tp_loop_ends (suc fuel) past srt_new s [] l = (passed s, refl, λ i. i)
tp_loop_ends zero past srt_new s (b ∷ inp) l = absurd (omega arith)
tp_loop_ends (suc fuel) past srt_new s (b ∷ inp) l =
    after_round fuel past srt_new s b inp (take_tp past srt_new s (b ∷ inp)) refl
      (take_tp-Keeps past srt_new s (b ∷ inp))
      (λ s1 rest k. tp_loop_ends fuel past srt_new s1 rest (omega (arith, k)))

-- The limit on connection IDs at the end.
pub record HasLimit (c : Conn) : Type 0 where
  pub fixed : c.tp_peer.disable_active_migration ≡ true → c.tp_peer.act_cid_lim ≡ 0
  pub mobile :
      c.tp_peer.disable_active_migration ≡ false → (c.err_code ≡ 0) → 2 ≤ c.tp_peer.act_cid_lim

limit_cids_lem :
    (c : Conn) → InBounds c.tp_peer → InBounds (limit_cids c).tp_peer × HasLimit (limit_cids c)
unfolding limit_cids err_close enter_closing enter_closed stop_all_alarms
limit_cids_lem c b = ground arith

apply_stream_limits_peer :
    (c : Conn) (s : Strm)
    → ((apply_stream_limits c s).0.tp_peer ≡ c.tp_peer)
      × ((apply_stream_limits c s).0.err_code ≡ c.err_code)
unfolding apply_stream_limits do_stream_fc need_ctrl_update
apply_stream_limits_peer c s = ground arith

apply_all_limits_peer :
    (ss : List Strm) (c : Conn)
    → ((apply_all_limits c ss).tp_peer ≡ c.tp_peer)
      × ((apply_all_limits c ss).err_code ≡ c.err_code)
unfolding apply_all_limits
apply_all_limits_peer [] c = (refl, refl)
apply_all_limits_peer (s ∷ ss) c =
    let (p, e) = apply_stream_limits_peer c s in
    let (c1, s1) = apply_stream_limits c s in
    let (q, f) = apply_all_limits_peer ss (put_stream c1 s1) in
    (q ∙ put_stream_peer c1 s1 ∙ p, f ∙ put_stream_err c1 s1 ∙ e)
  where
    put_stream_peer : (c : Conn) (s : Strm) → (put_stream c s).tp_peer ≡ c.tp_peer
    put_stream_peer c s = ground arith

    put_stream_err : (c : Conn) (s : Strm) → (put_stream c s).err_code ≡ c.err_code
    put_stream_err c s = ground arith

-- What is accepted.
abbrev pub Accepted : Conn → Type 0
Accepted c = InBounds c.tp_peer × HasLimit c

finish_tp-Passes : (s : TpScan) → InBounds s.conn.tp_peer → Passes Accepted (finish_tp s)
unfolding finish_tp
finish_tp-Passes s b = elim (Option-cases (deref_cid s.conn.dcids s.conn.dcid)) [
  | inl e ↦ rw (finish_tp, e) tt
  | inr (dcid, e) ↦
      rw (finish_tp, e)
        (Passes-bind (λ u. Unit {0}) Accepted (check_cids s dcid) _ (anything (check_cids s dcid))
          (λ u q.
            let c1 = limit_cids s.conn in
            let (i, h) = limit_cids_lem s.conn b in
            let (p, f) = apply_all_limits_peer c1.strms_by_id c1 in
            (
              subst InBounds (sym p) i,
              record {
                fixed = λ d.
                    ap (λ (t : TransportParams). t.act_cid_lim) p
                    ∙ h.fixed
                        (sym (ap (λ (t : TransportParams). t.disable_active_migration) p) ∙ d);
                mobile = λ d z.
                    subst (λ (t : TransportParams). 2 ≤ t.act_cid_lim) (sym p)
                      (h.mobile
                        (sym (ap (λ (t : TransportParams). t.disable_active_migration) p) ∙ d)
                        (sym f ∙ z));
              },
            )))
]
  where
    anything : (m : Checked (Unit {0})) → Passes (λ u. Unit {0}) m
    anything (passed a) = tt
    anything (refused c) = tt
    anything overrun = tt
    anything died = tt

start-InBounds :
    (c : Conn)
    → c.tp_peer.ack_del_exp ≤ 20
    → c.tp_peer.max_ack_del ≤ 2 ^ 14
    → InBounds (start_scan c).conn.tp_peer
start-InBounds c e d = ground arith

-- chk_tp ends on every list of extensions, and whatever it accepts is in bounds: datagrams of 1200
-- bytes at least, an exponent of at most 20 and a delay of at most 2 ^ 14 for acknowledgements, if
-- those that hold before anything is received are; and with migration switched off the limit on
-- connection IDs is 0, while else it is 2 at least unless the connection was closed with an error.
pub chk_tp-Accepted :
    (alert past : ℕ) (srt_new : List ℕ → Bool) (c : Conn) (slots : List (ℕ × List ℕ))
    → c.tp_peer.ack_del_exp ≤ 20
    → c.tp_peer.max_ack_del ≤ 2 ^ 14
    → (r : Checked Conn) × (chk_tp alert past srt_new c slots ≡ some r) × Passes Accepted r
unfolding chk_tp
chk_tp-Accepted alert past srt_new c slots e d =
    elim (Option-cases (find_ext (first_type slots) slots)) [
      | inl z ↦ (overrun, rw (chk_tp, z), tt)
      | inr ((type, bytes), z) ↦ elim (Bool-cases (type == quic_tp)) [
        | inr n ↦ (refused (err_close c (0x100 + alert) frm_cry), rw (chk_tp, z, n), tt)
        | inl q ↦
            let (r, l, k) =
              tp_loop_ends (length bytes) past srt_new (start_scan c) bytes (omega arith) in
            (
              bind r finish_tp,
              rw (chk_tp, z, q, l),
              Passes-bind _ Accepted r finish_tp k
                  (λ s i. finish_tp-Passes s (i (start-InBounds c e d))),
            )
      ]
    ]
