-- ===== src/Tp/Told.antt =====
-- What reading one transport parameter of a client does to the numbers that a server's chk_tp of
-- lib/src/tls.c keeps.
use quant.Base.{
  ℕ, ◌≡◌, refl, sym, ap, subst, ◌∙◌, inl, inr, true, false, ◌&&◌, Option, none, some, arith, ◌==◌,
  if◌then◌else◌, Bool-cases, some_inj,
}
use quant.Cid.Lists.{Cid}
use quant.Conn.State.{Conn, TransportParams}
use quant.Tp.Params.{
  Param, dcid_o, idto, srt, mups, imd, imsd_bl, imsd_br, imsd_u, imsb, imsu, ade, mad, dmig, prfa,
  acil, scid_i, scid_r, param_nr, param_of, tp_qbg, tp_qr, TpScan, get_num, set_num,
}
use quant.Tp.Enc.{TpExtra, mine, is_sent}
use quant.Tp.Items.{is_num, with_num, param_of-param_nr}
use quant.Tp.Written.{reads, param_nr-param_of, same_nr}

get_num-set_num :
    (p q : Param) (v : ℕ) (tp : TransportParams)
    → is_num p ≡ true
    → get_num p (set_num q v tp) ≡ (if param_nr q == param_nr p then v else get_num p tp)
unfolding get_num set_num param_nr
get_num-set_num dcid_o dcid_o v tp h = absurd (cc)
get_num-set_num _ _ v tp h = ground (arith, h)

get_num-qbg :
    (p : Param) (tp : TransportParams)
    → get_num p (record tp { grease_quic_bit = true }) ≡ get_num p tp
unfolding get_num
get_num-qbg idto tp = refl
get_num-qbg _ tp = refl

get_num-dmig :
    (p : Param) (tp : TransportParams)
    → get_num p (record tp { disable_active_migration = true }) ≡ get_num p tp
unfolding get_num
get_num-dmig idto tp = refl
get_num-dmig _ tp = refl

param_nr_apart :
    (p q : Param) → is_num p ≡ true → is_num q ≡ false → param_nr q == param_nr p ≡ false
unfolding param_nr
param_nr_apart dcid_o dcid_o h k = absurd (cc)
param_nr_apart _ _ h k = ground (arith, h, k)

param_nr_inj : (p q : Param) → param_nr q ≡ param_nr p → q ≡ p
param_nr_inj p q e = some_inj (sym (param_of-param_nr q) ∙ ap param_of e ∙ param_of-param_nr p)

-- The peer's number after a parameter with the number `tp`.
abbrev pub told : Param → Conn → ℕ → TransportParams → ℕ
told p c tp peer =
    if tp == param_nr p && is_sent p c.tp_mine then mine p c.tp_mine else get_num p peer

told_itself :
    (p : Param) (c : Conn) (s : TpScan)
    → is_num p ≡ true
    → get_num p (if is_sent p c.tp_mine then with_num p (mine p c.tp_mine) s else s).conn.tp_peer
      ≡ told p c (param_nr p) s.conn.tp_peer
told_itself p c s i = elim (Bool-cases (is_sent p c.tp_mine)) [
  | inl z ↦
      (let r : param_nr p == param_nr p ≡ true = ground arith in
        rw (z, r) (get_num-set_num p p (mine p c.tp_mine) s.conn.tp_peer i ∙ rw r refl))
  | inr z ↦ (let r : param_nr p == param_nr p ≡ true = ground arith in rw (z, r) refl)
]

num_told :
    (p q : Param) (c : Conn) (s : TpScan)
    → is_num p ≡ true
    → get_num p (if is_sent q c.tp_mine then with_num q (mine q c.tp_mine) s else s).conn.tp_peer
      ≡ told p c (param_nr q) s.conn.tp_peer
num_told p q c s i = elim (Bool-cases (param_nr q == param_nr p)) [
  | inr e ↦ elim (Bool-cases (is_sent q c.tp_mine)) [
    | inl z ↦ rw (e, z) (get_num-set_num p q (mine q c.tp_mine) s.conn.tp_peer i ∙ rw e refl)
    | inr z ↦ rw (e, z) refl
  ]
  | inl e ↦
      subst
        (λ r.
          get_num p
            (if is_sent r c.tp_mine then with_num r (mine r c.tp_mine) s else s).conn.tp_peer
          ≡ told p c (param_nr r) s.conn.tp_peer)
        (sym (param_nr_inj p q (same_nr (param_nr q) (param_nr p) e))) (told_itself p c s i)
]

-- A parameter without a number.
flag_told :
    (p q : Param) (c : Conn) (s s' : TpScan)
    → is_num p ≡ true
    → is_num q ≡ false
    → get_num p s'.conn.tp_peer ≡ get_num p s.conn.tp_peer
    → get_num p s'.conn.tp_peer ≡ told p c (param_nr q) s.conn.tp_peer
flag_told p q c s s' i k e = rw (param_nr_apart p q i k) e

get_num-known :
    (p q : Param) (c : Conn) (x : TpExtra) (id : Cid) (tp : ℕ) (s : TpScan)
    → is_num p ≡ true
    → get_num p (reads c x id tp (some q) s).conn.tp_peer ≡ told p c (param_nr q) s.conn.tp_peer
unfolding is_sent
get_num-known p scid_i c x id tp s i =
    flag_told p scid_i c s (reads c x id tp (some scid_i) s) i refl refl
get_num-known p dmig c x id tp s i =
    flag_told p dmig c s (reads c x id tp (some dmig) s) i refl
      (elim (Bool-cases c.tp_mine.disable_active_migration) [
        | inl z ↦ rw z (get_num-dmig p s.conn.tp_peer)
        | inr z ↦ rw z refl
      ])
get_num-known p dcid_o c x id tp s i = flag_told p dcid_o c s s i refl refl
get_num-known p srt c x id tp s i = flag_told p srt c s s i refl refl
get_num-known p prfa c x id tp s i = flag_told p prfa c s s i refl refl
get_num-known p scid_r c x id tp s i = flag_told p scid_r c s s i refl refl
get_num-known p idto c x id tp s i = num_told p idto c s i
get_num-known p mups c x id tp s i = num_told p mups c s i
get_num-known p imd c x id tp s i = num_told p imd c s i
get_num-known p imsd_bl c x id tp s i = num_told p imsd_bl c s i
get_num-known p imsd_br c x id tp s i = num_told p imsd_br c s i
get_num-known p imsd_u c x id tp s i = num_told p imsd_u c s i
get_num-known p imsb c x id tp s i = num_told p imsb c s i
get_num-known p imsu c x id tp s i = num_told p imsu c s i
get_num-known p ade c x id tp s i = num_told p ade c s i
get_num-known p mad c x id tp s i = num_told p mad c s i
get_num-known p acil c x id tp s i = num_told p acil c s i

get_num-other :
    (p : Param) (c : Conn) (x : TpExtra) (id : Cid) (tp : ℕ) (s : TpScan)
    → param_of tp ≡ none
    → get_num p (reads c x id tp none s).conn.tp_peer ≡ told p c tp s.conn.tp_peer
get_num-other p c x id tp s h =
    let apart : tp == param_nr p ≡ false = elim (Bool-cases (tp == param_nr p)) [
      | inr e ↦ e
      | inl e ↦
          (let f = sym h ∙ ap param_of (same_nr tp (param_nr p) e) ∙ param_of-param_nr p in
            absurd (ground (arith, f)))
    ] in
    elim (Bool-cases (tp == x.grease_type)) [
      | inl a ↦ rw (apart, a) refl
      | inr a ↦ elim (Bool-cases (tp == tp_qr)) [
        | inl b ↦ rw (apart, a, b) refl
        | inr b ↦ elim (Bool-cases (tp == tp_qbg)) [
          | inl k ↦ elim (Bool-cases c.tp_mine.grease_quic_bit) [
            | inl z ↦ rw (apart, a, b, k, z) (get_num-qbg p s.conn.tp_peer)
            | inr z ↦ rw (apart, a, b, k, z) refl
          ]
          | inr k ↦ rw (apart, a, b, k) refl
        ]
      ]
    ]

-- What reading one parameter does to a number: it is the client's, if that was announced.
pub get_num-reads :
    (p : Param) (c : Conn) (x : TpExtra) (id : Cid) (tp : ℕ) (o : Option Param) (s : TpScan)
    → is_num p ≡ true
    → param_of tp ≡ o
    → get_num p (reads c x id tp o s).conn.tp_peer ≡ told p c tp s.conn.tp_peer
get_num-reads p c x id tp none s i h = get_num-other p c x id tp s h
get_num-reads p c x id tp (some q) s i h =
    subst (λ n. get_num p (reads c x id tp (some q) s).conn.tp_peer ≡ told p c n s.conn.tp_peer)
      (param_nr-param_of tp q h) (get_num-known p q c x id tp s i)

-- What is seen after a parameter.
pub reads_seen :
    (c : Conn) (x : TpExtra) (id : Cid) (tp k : ℕ) (o : Option Param) (s : TpScan)
    → param_of tp ≡ o
    → k == tp ≡ false
    → s.tp_list k ≡ false
    → (reads c x id tp o s).tp_list k ≡ false
reads_seen c x id tp k none s h n u = ground arith
reads_seen c x id tp k (some idto) s h n u = (let e = param_nr-param_of tp idto h in ground arith)
reads_seen c x id tp k (some q) s h n u = (let e = param_nr-param_of tp q h in ground arith)
