-- ===== src/Tp/Bounds.antt =====
-- What one round of chk_tp (lib/src/tls.c) keeps: the bounds of the peer's parameters, and that it
-- moves on through the bytes.
use quant.Base.{
  ℕ, ◌^◌, ◌≤◌, ◌<◌, ◌≡◌, refl, sym, subst, inl, inr, Bool, true, not, List, arith, leb, ◌==◌,
  Bool-cases, Option-cases, length, length-drop,
}
use quant.Cid.Ops.{cid_ins}
use quant.Cid.Deref.{deref_cid}
use quant.Conn.State.{Conn, TransportParams}
use quant.Marshall.Dec.{decv}
use quant.Frame.Paths.{srt_len}
use quant.Tp.Params.{
  Param, dcid_o, idto, srt, mups, imd, imsd_bl, imsd_br, imsd_u, imsb, imsu, ade, mad, dmig, prfa,
  acil, scid_i, scid_r, param_of, tp_max, tp_qbg, dec_chk, check, TpScan, get_num, set_num, num_ok,
}
use quant.Tp.Dec.{
  dectp, decb_into, deccid, take_num, take_dcid_o, take_dmig, take_srt, take_pref_addr,
  ins_pref_cid, take_prfa, take_scid_i, take_scid_r, take_param, seen, take_other, take_tp,
}
use quant.Tp.Passes.{
  Passes, Passes-bind, dec_chk-Passes, check-Passes, dectp_shorter, decv-Passes, decb_into-Passes,
  deccid-Passes, take_pref_addr-Passes, Passes-mono, after_check,
}

-- The bounds on what the peer announces.
pub record InBounds (tp : TransportParams) : Type 0 where
  pub ups : 1200 ≤ tp.max_ups
  pub exponent : tp.ack_del_exp ≤ 20
  pub delay : tp.max_ack_del ≤ 2 ^ 14

abbrev pub Keeps : TpScan → List ℕ → TpScan × List ℕ → Type 0
Keeps s inp (s', rest) =
    (InBounds s.conn.tp_peer → InBounds s'.conn.tp_peer) × (length rest ≤ length inp)

set_num-InBounds :
    (p : Param) (v : ℕ) (tp : TransportParams)
    → num_ok p v ≡ true
    → InBounds tp
    → InBounds (set_num p v tp)
unfolding set_num num_ok
set_num-InBounds mups v tp h b = ground arith
set_num-InBounds ade v tp h b = ground arith
set_num-InBounds mad v tp h b = ground arith
set_num-InBounds _ v tp h b = ground arith

take_num-Keeps :
    (past : ℕ) (p : Param) (s : TpScan) (inp : List ℕ)
    → Passes (Keeps s inp) (take_num past p s inp)
unfolding take_num
take_num-Keeps past p s inp =
    let old = get_num p s.conn.tp_peer in
    Passes-bind (λ r. length r.1 ≤ length inp) (Keeps s inp) (dec_chk s.conn (dectp past old inp)) _
      (dec_chk-Passes (λ r. length r.1 ≤ length inp) s.conn (dectp past old inp)
        (λ r e. dectp_shorter past old r.0 inp r.1 e))
      (λ r q.
        Passes-bind _ (Keeps s inp)
          (check (record (s.conn) { tp_peer = set_num p r.0 s.conn.tp_peer }) (num_ok p r.0)) _
          (check-Passes _ (num_ok p r.0))
          (λ u ok. (λ b. set_num-InBounds p r.0 s.conn.tp_peer ok b, q)))

take_dcid_o-Keeps :
    (past : ℕ) (s : TpScan) (inp : List ℕ) → Passes (Keeps s inp) (take_dcid_o past s inp)
unfolding take_dcid_o
take_dcid_o-Keeps past s inp = after_check (Keeps s inp) s.conn s.conn.is_clnt _ (
    Passes-bind _ (Keeps s inp) (deccid past s.conn s.orig_dcid inp) _
      (deccid-Passes past s.conn s.orig_dcid inp) (λ r q. (λ b. b, q)))

take_scid_r-Keeps :
    (past : ℕ) (s : TpScan) (inp : List ℕ) → Passes (Keeps s inp) (take_scid_r past s inp)
unfolding take_scid_r
take_scid_r-Keeps past s inp = after_check (Keeps s inp) s.conn s.conn.is_clnt _ (
    Passes-bind _ (Keeps s inp) (deccid past s.conn s.rtry_scid inp) _
      (deccid-Passes past s.conn s.rtry_scid inp) (λ r q. (λ b. b, q)))

take_scid_i-Keeps :
    (past : ℕ) (s : TpScan) (inp : List ℕ) → Passes (Keeps s inp) (take_scid_i past s inp)
unfolding take_scid_i
take_scid_i-Keeps past s inp =
    (Passes-bind _ (Keeps s inp) (deccid past s.conn s.ini_scid inp) _
      (deccid-Passes past s.conn s.ini_scid inp) (λ r q. (λ b. b, q)))

take_dmig-Keeps :
    (past : ℕ) (s : TpScan) (inp : List ℕ) → Passes (Keeps s inp) (take_dmig past s inp)
unfolding take_dmig
take_dmig-Keeps past s inp =
    Passes-bind (λ r. length r.1 ≤ length inp) (Keeps s inp) (dec_chk s.conn (dectp past 0 inp)) _
      (dec_chk-Passes (λ r. length r.1 ≤ length inp) s.conn (dectp past 0 inp)
        (λ r e. dectp_shorter past 0 r.0 inp r.1 e))
      (λ r q. (λ b. record { ups = b.ups; exponent = b.exponent; delay = b.delay }, q))

take_srt-Keeps :
    (past : ℕ) (srt_new : List ℕ → Bool) (s : TpScan) (inp : List ℕ)
    → Passes (Keeps s inp) (take_srt past srt_new s inp)
unfolding take_srt
take_srt-Keeps past srt_new s inp = after_check (Keeps s inp) s.conn s.conn.is_clnt _ (
    Passes-bind _ (Keeps s inp) (dec_chk s.conn (decv past inp)) _ (decv-Passes s.conn past inp)
      (λ r q.
        after_check (Keeps s inp) s.conn (r.0 == srt_len) _
          (elim (Option-cases (deref_cid s.conn.dcids s.conn.dcid)) [
            | inl e ↦ rw e tt
            | inr (cur, e) ↦ rw e (
                Passes-bind _ (Keeps s inp) (decb_into srt_len cur.srt srt_len r.1) _
                  (decb_into-Passes srt_len cur.srt srt_len r.1)
                  (λ t k. after_check (Keeps s inp) _ (srt_new t.0) _ (λ b. b, omega arith)))
          ])))

ins_pref_cid-Passes :
    (srt_new : List ℕ → Bool) (c : Conn)
    → Passes (λ c'. c'.tp_peer ≡ c.tp_peer) (ins_pref_cid srt_new c)
unfolding ins_pref_cid
ins_pref_cid-Passes srt_new c = elim (Bool-cases c.tp_mine.disable_active_migration) [
  | inl e ↦ rw e refl
  | inr e ↦ elim (Option-cases (cid_ins c.dcids c.tp_peer.pref_addr.cid)) [
    | inl z ↦ rw (e, z) tt
    | inr ((ids, o), z) ↦ elim (Option-cases o) [
      | inl n ↦ rw (e, z, n) tt
      | inr (i, n) ↦ rw (e, z, n) (after_check _ (record c { dcids = ids }) (srt_new i.srt) _ refl)
    ]
  ]
]

take_prfa-Keeps :
    (past : ℕ) (srt_new : List ℕ → Bool) (s : TpScan) (inp : List ℕ)
    → Passes (Keeps s inp) (take_prfa past srt_new s inp)
unfolding take_prfa
take_prfa-Keeps past srt_new s inp = after_check (Keeps s inp) s.conn s.conn.is_clnt _ (
    Passes-bind _ (Keeps s inp) (dec_chk s.conn (decv past inp)) _ (decv-Passes s.conn past inp)
      (λ r q.
        Passes-bind _ (Keeps s inp) (take_pref_addr s.conn s.conn.tp_peer.pref_addr r) _
          (take_pref_addr-Passes s.conn s.conn.tp_peer.pref_addr r)
          (λ t k.
            let c1 = record (s.conn) { tp_peer = record (s.conn.tp_peer) { pref_addr = t.0 } } in
            Passes-bind _ (Keeps s inp) (ins_pref_cid srt_new c1) _ (ins_pref_cid-Passes srt_new c1)
              (λ c2 e. (
                λ b.
                    subst InBounds (sym e)
                      (record { ups = b.ups; exponent = b.exponent; delay = b.delay }),
                omega arith,
              )))))

take_param-Keeps :
    (past : ℕ) (srt_new : List ℕ → Bool) (p : Param) (s : TpScan) (inp : List ℕ)
    → Passes (Keeps s inp) (take_param past srt_new p s inp)
unfolding take_param
take_param-Keeps past srt_new dcid_o s inp = take_dcid_o-Keeps past s inp
take_param-Keeps past srt_new dmig s inp = take_dmig-Keeps past s inp
take_param-Keeps past srt_new srt s inp = take_srt-Keeps past srt_new s inp
take_param-Keeps past srt_new prfa s inp = take_prfa-Keeps past srt_new s inp
take_param-Keeps past srt_new scid_i s inp = take_scid_i-Keeps past s inp
take_param-Keeps past srt_new scid_r s inp = take_scid_r-Keeps past s inp
take_param-Keeps past srt_new idto s inp = take_num-Keeps past idto s inp
take_param-Keeps past srt_new mups s inp = take_num-Keeps past mups s inp
take_param-Keeps past srt_new imd s inp = take_num-Keeps past imd s inp
take_param-Keeps past srt_new imsd_bl s inp = take_num-Keeps past imsd_bl s inp
take_param-Keeps past srt_new imsd_br s inp = take_num-Keeps past imsd_br s inp
take_param-Keeps past srt_new imsd_u s inp = take_num-Keeps past imsd_u s inp
take_param-Keeps past srt_new imsb s inp = take_num-Keeps past imsb s inp
take_param-Keeps past srt_new imsu s inp = take_num-Keeps past imsu s inp
take_param-Keeps past srt_new ade s inp = take_num-Keeps past ade s inp
take_param-Keeps past srt_new mad s inp = take_num-Keeps past mad s inp
take_param-Keeps past srt_new acil s inp = take_num-Keeps past acil s inp

take_other-Keeps :
    (past tp : ℕ) (s : TpScan) (inp : List ℕ) → Passes (Keeps s inp) (take_other past tp s inp)
unfolding take_other
take_other-Keeps past tp s inp =
    Passes-bind _ (Keeps s inp) (dec_chk s.conn (decv past inp)) _ (decv-Passes s.conn past inp)
      (λ r q. elim (Bool-cases (tp == tp_qbg)) [
        | inl e ↦ rw e (
          λ b. record { ups = b.ups; exponent = b.exponent; delay = b.delay },
          omega (arith, length-drop r.0 r.1),
        )
        | inr e ↦ rw e (λ b. b, omega (arith, length-drop r.0 r.1))
      ])

-- A round keeps the bounds, and takes a byte at least.
pub take_tp-Keeps :
    (past : ℕ) (srt_new : List ℕ → Bool) (s : TpScan) (inp : List ℕ)
    → Passes
        (λ r. (InBounds s.conn.tp_peer → InBounds r.0.conn.tp_peer) × (length r.1 < length inp))
        (take_tp past srt_new s inp)
unfolding take_tp
take_tp-Keeps past srt_new s inp =
    let P = λ (r : TpScan × List ℕ).
      (InBounds s.conn.tp_peer → InBounds r.0.conn.tp_peer) × (length r.1 < length inp) in
    Passes-bind _ P (dec_chk s.conn (decv past inp)) _ (decv-Passes s.conn past inp) (λ r q.
      elim (Bool-cases (leb tp_max r.0)) [
        | inl e ↦ rw e (
            Passes-mono (Keeps s r.1) P _ (λ x k. (k.0, omega (arith, k.1)))
              (take_other-Keeps past r.0 s r.1))
        | inr e ↦ rw e (
            after_check P s.conn (not (s.tp_list r.0)) _ (elim (Option-cases (param_of r.0)) [
              | inl z ↦ rw z tt
              | inr (p, z) ↦ rw z (
                  Passes-mono (Keeps (seen r.0 s) r.1) P _ (λ x k. (k.0, omega (arith, k.1)))
                    (take_param-Keeps past srt_new p (seen r.0 s) r.1))
            ]))
      ])
