-- ===== src/Tp/Written.antt =====
-- What a server's chk_tp reads of one transport parameter that a client's init_tp wrote
-- (lib/src/tls.c).
use quant.Base.{
  ℕ, ◌^◌, ◌≤◌, ◌<◌, bit_and, ◌≡◌, refl, sym, ap, subst, ◌∙◌, ◌≢◌, inl, inr, Bool, true, false,
  Option, none, some, List, [], ◌++◌, append-nil, append_assoc, arith, ◌==◌, if◌then◌else◌,
  Bool-cases, some_inj, length, take, drop, get_or,
}
use quant.Cid.Lists.{Cid}
use quant.Conn.State.{Conn, TransportParams}
use quant.Marshall.Buffer.{Writer}
use quant.Marshall.Varint.{varint_bytes}
use quant.Recovery.Congestion.{min_ini_len}
use quant.Tp.Params.{
  Param, dcid_o, idto, srt, mups, imd, imsd_bl, imsd_br, imsd_u, imsb, imsu, ade, mad, dmig, prfa,
  acil, scid_i, scid_r, param_nr, param_of, tp_max, tp_qbg, tp_qr, TpScan, num_ok,
}
use quant.Tp.Dec.{take_tp}
use quant.Tp.Enc.{
  TpExtra, enc_tp_empty, encb_tp, mine, is_sent, put_tp, put_param, put_num, put_srt, put_dcid_o,
  put_scid_i, put_scid_r, put_prfa, put_dmig, put_other, own_cid, letters,
}
use quant.Tp.Bytes.{num_bytes, empty_bytes, field_bytes, enc_tp-out, enc_tp_empty-out, encb_tp-out}
use quant.Tp.Items.{
  is_num, with_num, with_dmig, with_scid, with_qbg, num_round, dmig_round, scid_round, qbg_round,
  other_round, param_nr-lt,
}
use quant.Tp.Rounds.{Rounds, here, round}

-- What the client has to announce, and what a server accepts: numbers below 2 ^ 48 in their bounds, a
-- connection ID of at most 20 bytes, and a grease type that is no other type.
pub record IsSendable (c : Conn) (x : TpExtra) (id : Cid) : Type 0 where
  pub client : c.is_clnt ≡ true
  pub sized : (p : Param) → mine p c.tp_mine < 2 ^ 48
  pub bounded : (p : Param) → num_ok p (mine p c.tp_mine) ≡ true
  pub own : own_cid c ≡ some id
  pub id_len : id.len ≤ 20
  pub id_bytes : length (take id.len id.id) ≡ id.len
  pub grease_high : tp_max ≤ x.grease_type
  pub grease_small : x.grease_type < 2 ^ 48
  pub grease_apart : x.grease_type ≢ tp_qbg
  pub grease_bytes :
      let n = bit_and (get_or x.grease 0 0) 0x0f in
      (n < 2 ^ 48) × (length (take n (drop 1 x.grease)) ≡ n)

-- What the server has after it read one of them.
abbrev pub reads : Conn → TpExtra → Cid → ℕ → Option Param → TpScan → TpScan
reads c x id tp (some scid_i) s = with_scid id.len (take id.len id.id) s
reads c x id tp (some dmig) s = if c.tp_mine.disable_active_migration then with_dmig s else s
reads c x id tp (some p) s = if is_sent p c.tp_mine then with_num p (mine p c.tp_mine) s else s
reads c x id tp none s =
    if tp == x.grease_type
    then s
    else if tp == tp_qr
    then s
    else if tp == tp_qbg
    then (if c.tp_mine.grease_quic_bit then with_qbg s else s)
    else s

-- The bytes that one of them takes, which a server reads so.
abbrev pub Written : Writer → Writer → (TpScan → TpScan) → ℕ → Type 0
Written w w' f tp =
    (bytes : List ℕ) × (w'.out ≡ w.out ++ bytes)
    × ((past : ℕ) (srt_new : List ℕ → Bool) (s : TpScan) (rest : List ℕ)
        → s.tp_list tp ≡ false
        → Rounds past srt_new s (bytes ++ rest) (f s) rest)

nothing-Written : (w w' : Writer) (tp : ℕ) → some w ≡ some w' → Written w w' (λ s. s) tp
nothing-Written w w' tp e = (
  [],
  ap (λ (v : Writer). v.out) (sym (some_inj e)) ∙ sym (append-nil w.out),
  λ past srt_new s rest u. here s rest,
)

num-Written :
    (w w' : Writer) (tp : TransportParams) (p : Param)
    → is_num p ≡ true
    → num_ok p (mine p tp) ≡ true
    → mine p tp < 2 ^ 48
    → put_num w p tp ≡ some w'
    → Written w w' (λ s. if is_sent p tp then with_num p (mine p tp) s else s) (param_nr p)
unfolding put_num
num-Written w w' tp p i o h e = elim (Bool-cases (is_sent p tp)) [
  | inl z ↦ rw z (
    num_bytes (param_nr p) (mine p tp),
    enc_tp-out w w' (param_nr p) (mine p tp) (param_nr_small p) h (rw (put_num, z) at e),
    λ past srt_new s rest u.
        round (num_round past srt_new s rest p (mine p tp) i o u h)
          (here (with_num p (mine p tp) s) rest),
  )
  | inr z ↦ rw z (nothing-Written w w' (param_nr p) (rw (put_num, z) at e))
]
  where
    param_nr_small : (p : Param) → param_nr p < 2 ^ 48
    param_nr_small p = omega (arith, param_nr-lt p)

pub param_nr-param_of : (tp : ℕ) (p : Param) → param_of tp ≡ some p → param_nr p ≡ tp
unfolding param_of param_nr
param_nr-param_of tp dcid_o h = ground (arith, h)
param_nr-param_of tp _ h = ground (arith, h)

pub same_nr : (a b : ℕ) → a == b ≡ true → a ≡ b
same_nr a b h = ground arith

module _ (c : Conn) (x : TpExtra) (id : Cid) (ok : IsSendable c x id) where
  dmig-Written :
      (w w' : Writer)
      → put_dmig w c ≡ some w'
      → Written w w'
          (λ s. if c.tp_mine.disable_active_migration then with_dmig s else s)
          (param_nr dmig)
  unfolding put_dmig param_nr
  dmig-Written w w' e = elim (Bool-cases c.tp_mine.disable_active_migration) [
    | inl z ↦ rw z (
      empty_bytes (param_nr dmig),
      enc_tp_empty-out w w' (param_nr dmig) (omega arith) (rw (put_dmig, z) at e),
      λ past srt_new s rest u. round (dmig_round past srt_new s rest u) (here (with_dmig s) rest),
    )
    | inr z ↦ rw z (nothing-Written w w' (param_nr dmig) (rw (put_dmig, z) at e))
  ]

  scid-Written :
      (w w' : Writer)
      → put_scid_i w c ≡ some w'
      → Written w w' (with_scid id.len (take id.len id.id)) (param_nr scid_i)
  unfolding put_scid_i param_nr
  scid-Written w w' e = (
    field_bytes (param_nr scid_i) id.len id.id,
    encb_tp-out w w' (param_nr scid_i) id.len id.id (omega arith) (omega (arith, ok.id_len))
        (rw (put_scid_i, ok.own) at e),
    λ past srt_new s rest u.
        round (scid_round past srt_new s rest id.len id.id u ok.id_len ok.id_bytes)
          (here (with_scid id.len (take id.len id.id) s) rest),
  )

  -- A server skips the grease and the quantum readiness.
  skip-Written :
      (w w' : Writer) (tp n : ℕ) (bytes : List ℕ)
      → tp_max ≤ tp
      → tp < 2 ^ 48
      → tp ≢ tp_qbg
      → n < 2 ^ 48
      → length (take n bytes) ≡ n
      → encb_tp w tp (some bytes) n ≡ some w'
      → Written w w' (λ s. s) tp
  skip-Written w w' tp n bytes h k a b l e = (
    field_bytes tp n bytes,
    encb_tp-out w w' tp n bytes k b e,
    λ past srt_new s rest u.
        round
          (ap (take_tp past srt_new s) (
              append_assoc (varint_bytes tp ++ varint_bytes n) (take n bytes) rest
              ∙ append_assoc (varint_bytes tp) (varint_bytes n) (take n bytes ++ rest))
            ∙ other_round past srt_new s tp n (take n bytes) rest h k a l b)
          (here s rest),
  )

  qbg-Written :
      (w w' : Writer)
      → (if c.tp_mine.grease_quic_bit then enc_tp_empty w tp_qbg else some w) ≡ some w'
      → Written w w' (λ s. if c.tp_mine.grease_quic_bit then with_qbg s else s) tp_qbg
  qbg-Written w w' e = elim (Bool-cases c.tp_mine.grease_quic_bit) [
    | inl z ↦ rw z (
      empty_bytes tp_qbg,
      enc_tp_empty-out w w' tp_qbg (omega arith) (rw z at e),
      λ past srt_new s rest u. round (qbg_round past srt_new s rest) (here (with_qbg s) rest),
    )
    | inr z ↦ rw z (nothing-Written w w' tp_qbg (rw z at e))
  ]

  qr-Written :
      (w w' : Writer)
      → (if c.do_qr_test then encb_tp w tp_qr (some (letters min_ini_len)) min_ini_len else some w)
        ≡ some w'
      → Written w w' (λ s. s) tp_qr
  qr-Written w w' e = elim (Bool-cases c.do_qr_test) [
    | inl z ↦
        skip-Written w w' tp_qr min_ini_len (letters min_ini_len) (omega arith) (omega arith)
          (ground arith) (omega arith) refl (rw z at e)
    | inr z ↦ nothing-Written w w' tp_qr (rw z at e)
  ]

  other-Written :
      (w w' : Writer) (tp : ℕ)
      → put_other w c x tp ≡ some w'
      → Written w w' (reads c x id tp none) tp
  unfolding put_other
  other-Written w w' tp e = elim (Bool-cases (tp == x.grease_type)) [
    | inl z ↦ rw z (
        subst (Written w w' (λ s. s)) (sym (same_nr tp x.grease_type z)) (
          skip-Written w w' x.grease_type (bit_and (get_or x.grease 0 0) 0x0f) (drop 1 x.grease)
            ok.grease_high ok.grease_small ok.grease_apart ok.grease_bytes.0 ok.grease_bytes.1
            (rw (put_other, z) at e)))
    | inr z ↦ elim (Bool-cases (tp == tp_qr)) [
      | inl y ↦
          rw (z, y)
            (subst (Written w w' (λ s. s)) (sym (same_nr tp tp_qr y))
              (qr-Written w w' (rw (put_other, z, y) at e)))
      | inr y ↦ elim (Bool-cases (tp == tp_qbg)) [
        | inl k ↦
            rw (z, y, k)
              (subst (Written w w' (λ s. if c.tp_mine.grease_quic_bit then with_qbg s else s))
                (sym (same_nr tp tp_qbg k)) (qbg-Written w w' (rw (put_other, z, y, k) at e)))
        | inr k ↦ absurd (ground (arith, rw (put_other, z, y, k) at e))
      ]
    ]
  ]

  client_none :
      (w w' : Writer) (p : Param) (m : Option Writer)
      → m ≡ some w
      → m ≡ some w'
      → Written w w' (λ s. s) (param_nr p)
  client_none w w' p m a b = nothing-Written w w' (param_nr p) (sym a ∙ b)

  param-Written :
      (w w' : Writer) (p : Param)
      → put_param w c x p ≡ some w'
      → Written w w' (reads c x id (param_nr p) (some p)) (param_nr p)
  unfolding put_param put_srt put_dcid_o put_scid_r put_prfa is_sent
  param-Written w w' srt e = client_none w w' srt (put_srt w c) (rw (put_srt, ok.client) refl) e
  param-Written w w' dcid_o e =
      client_none w w' dcid_o (put_dcid_o w c x) (rw (put_dcid_o, ok.client) refl) e
  param-Written w w' scid_r e =
      client_none w w' scid_r (put_scid_r w c x) (rw (put_scid_r, ok.client) refl) e
  param-Written w w' prfa e = client_none w w' prfa (put_prfa w c) (rw (put_prfa, ok.client) refl) e
  param-Written w w' scid_i e = scid-Written w w' e
  param-Written w w' dmig e = dmig-Written w w' e
  param-Written w w' idto e =
      num-Written w w' c.tp_mine idto refl (ok.bounded idto) (ok.sized idto) e
  param-Written w w' mups e =
      num-Written w w' c.tp_mine mups refl (ok.bounded mups) (ok.sized mups) e
  param-Written w w' imd e = num-Written w w' c.tp_mine imd refl (ok.bounded imd) (ok.sized imd) e
  param-Written w w' imsd_bl e =
      num-Written w w' c.tp_mine imsd_bl refl (ok.bounded imsd_bl) (ok.sized imsd_bl) e
  param-Written w w' imsd_br e =
      num-Written w w' c.tp_mine imsd_br refl (ok.bounded imsd_br) (ok.sized imsd_br) e
  param-Written w w' imsd_u e =
      num-Written w w' c.tp_mine imsd_u refl (ok.bounded imsd_u) (ok.sized imsd_u) e
  param-Written w w' imsb e =
      num-Written w w' c.tp_mine imsb refl (ok.bounded imsb) (ok.sized imsb) e
  param-Written w w' imsu e =
      num-Written w w' c.tp_mine imsu refl (ok.bounded imsu) (ok.sized imsu) e
  param-Written w w' ade e = num-Written w w' c.tp_mine ade refl (ok.bounded ade) (ok.sized ade) e
  param-Written w w' mad e = num-Written w w' c.tp_mine mad refl (ok.bounded mad) (ok.sized mad) e
  param-Written w w' acil e =
      num-Written w w' c.tp_mine acil refl (ok.bounded acil) (ok.sized acil) e

  pub item-Written :
      (w w' : Writer) (tp : ℕ) (o : Option Param)
      → param_of tp ≡ o
      → put_tp w c x tp o ≡ some w'
      → Written w w' (reads c x id tp o) tp
  unfolding put_tp
  item-Written w w' tp none h e = other-Written w w' tp e
  item-Written w w' tp (some p) h e =
      subst (Written w w' (reads c x id tp (some p))) (param_nr-param_of tp p h)
        (param-Written w w' p e)
