-- ===== src/Tp/Items.antt =====
-- The bytes of one transport parameter of a client, as init_tp of lib/src/tls.c writes them, and what
-- chk_tp makes of them.
use quant.Base.{
  ℕ, ◌%◌, ◌^◌, ◌≤◌, ◌<◌, ◌≡◌, refl, ap, subst, ◌∙◌, ◌≢◌, inl, inr, Bool, true, false, some, List,
  [], ◌∷◌, ◌++◌, append_assoc, arith, ltb, leb, ◌==◌, if◌then◌else◌, Bool-cases, length, take,
  length-append, take-append_length, drop-append_length,
}
use quant.Marshall.Dec.{decb}
use quant.Marshall.Varint.{varint_bytes, size_class}
use quant.Frame.Paths.{cid_len_max}
use quant.Tp.Params.{
  Param, dcid_o, idto, srt, dmig, prfa, scid_i, scid_r, param_nr, param_of, tp_max, tp_qbg, passed,
  TpScan, get_num, set_num, num_ok,
}
use quant.Tp.Dec.{
  dectp, deccid, take_num, take_dmig, take_scid_i, take_param, seen, take_other, take_tp,
}
use quant.Tp.Bytes.{decv_small, num_bytes, empty_bytes, field_bytes, size_small}

abbrev small : ℕ
small = 2 ^ 48

-- Whether a parameter holds a number.
abbrev pub is_num : Param → Bool
is_num dcid_o = false
is_num srt = false
is_num dmig = false
is_num prfa = false
is_num scid_i = false
is_num scid_r = false
is_num _ = true

pub param_nr-lt : (p : Param) → param_nr p < tp_max
unfolding param_nr
param_nr-lt _ = ground arith

pub param_of-param_nr : (p : Param) → param_of (param_nr p) ≡ some p
unfolding param_of param_nr
param_of-param_nr dcid_o = refl
param_of-param_nr _ = refl

take_param-num :
    (past : ℕ) (srt_new : List ℕ → Bool) (p : Param) (s : TpScan) (inp : List ℕ)
    → is_num p ≡ true
    → take_param past srt_new p s inp ≡ take_num past p s inp
unfolding take_param
take_param-num past srt_new idto s inp h = refl
take_param-num past srt_new _ s inp h = ground arith

-- A round on a parameter that was not seen.
module _ (past : ℕ) (srt_new : List ℕ → Bool) (s : TpScan) where
  known_round :
      (p : Param) (inp : List ℕ)
      → s.tp_list (param_nr p) ≡ false
      → take_tp past srt_new s (varint_bytes (param_nr p) ++ inp)
        ≡ take_param past srt_new p (seen (param_nr p) s) inp
  unfolding take_tp
  known_round p inp h =
      let a = param_nr-lt p in
      let l : leb tp_max (param_nr p) ≡ false = ground (arith, a) in
      rw (take_tp, decv_small past (param_nr p) inp (omega (arith, a)), l, h, param_of-param_nr p)

  pub other_round :
      (tp len : ℕ) (bytes rest : List ℕ)
      → tp_max ≤ tp
      → tp < 2 ^ 48
      → tp ≢ tp_qbg
      → length bytes ≡ len
      → len < 2 ^ 48
      → take_tp past srt_new s (varint_bytes tp ++ (varint_bytes len ++ (bytes ++ rest)))
        ≡ passed (s, rest)
  unfolding take_tp take_other
  other_round tp len bytes rest h k n e z =
      let l : leb tp_max tp ≡ true = ground arith in
      let q : tp == tp_qbg ≡ false = ground arith in
      rw (
        take_tp,
        take_other,
        decv_small past tp (varint_bytes len ++ (bytes ++ rest)) k,
        l,
        decv_small past len (bytes ++ rest) z,
        q,
        ← e,
        drop-append_length bytes rest,
      )

-- What is left of a round.
abbrev pub with_num : Param → ℕ → TpScan → TpScan
with_num p v s = record (seen (param_nr p) s) {
  conn = record (s.conn) { tp_peer = set_num p v s.conn.tp_peer };
}

abbrev pub with_dmig : TpScan → TpScan
with_dmig s = record (seen (param_nr dmig) s) {
  conn = record (s.conn) { tp_peer = record (s.conn.tp_peer) { disable_active_migration = true } };
}

abbrev pub with_scid : ℕ → List ℕ → TpScan → TpScan
with_scid len bytes s = record (seen (param_nr scid_i) s) {
  ini_scid = record (s.ini_scid) { len = len; id = if len == 0 then s.ini_scid.id else bytes };
}

abbrev pub with_qbg : TpScan → TpScan
with_qbg s = record s {
  conn = record (s.conn) { tp_peer = record (s.conn.tp_peer) { grease_quic_bit = true } };
}

empty_list : (xs : List ℕ) → length xs ≡ 0 → xs ≡ []
empty_list [] h = refl
empty_list (x ∷ xs) h = absurd (omega (arith, h))

decb_whole : (n : ℕ) (xs rest : List ℕ) → length xs ≡ n → decb n (xs ++ rest) ≡ some (xs, rest)
unfolding decb
decb_whole n xs rest e =
    subst (λ k. decb k (xs ++ rest) ≡ some (xs, rest)) e
      (let f : ltb (length (xs ++ rest)) (length xs) ≡ false =
          ground (arith, length-append xs rest) in
        rw (decb, f, take-append_length xs rest, drop-append_length xs rest))

module _ (past : ℕ) (srt_new : List ℕ → Bool) (s : TpScan) (rest : List ℕ) where
  dectp_num :
      (old v : ℕ)
      → v < 2 ^ 48
      → dectp past old (varint_bytes (size_class v) ++ (varint_bytes v ++ rest)) ≡ some (v, rest)
  unfolding dectp
  dectp_num old v h =
      let z = size_small v in
      let n : size_class v == 0 ≡ false = ground (arith, z) in
      rw (
        dectp,
        decv_small past (size_class v) (varint_bytes v ++ rest) (omega (arith, z)),
        n,
        decv_small past v rest h,
      )

  pub num_round :
      (p : Param) (v : ℕ)
      → is_num p ≡ true
      → num_ok p v ≡ true
      → s.tp_list (param_nr p) ≡ false
      → v < 2 ^ 48
      → take_tp past srt_new s (num_bytes (param_nr p) v ++ rest) ≡ passed (with_num p v s, rest)
  unfolding take_num
  num_round p v i o u h =
      ap (take_tp past srt_new s) (
        append_assoc (varint_bytes (param_nr p) ++ varint_bytes (size_class v)) (varint_bytes v)
          rest
        ∙ append_assoc (varint_bytes (param_nr p)) (varint_bytes (size_class v))
            (varint_bytes v ++ rest))
      ∙ known_round past srt_new s p (varint_bytes (size_class v) ++ (varint_bytes v ++ rest)) u
      ∙ take_param-num past srt_new p (seen (param_nr p) s) _ i
      ∙ rw (take_num, dectp_num (get_num p s.conn.tp_peer) v h, o)

  pub dmig_round :
      s.tp_list (param_nr dmig) ≡ false
      → take_tp past srt_new s (empty_bytes (param_nr dmig) ++ rest) ≡ passed (with_dmig s, rest)
  unfolding take_dmig take_param dectp
  dmig_round u =
      ap (take_tp past srt_new s)
        (append_assoc (varint_bytes (param_nr dmig)) (varint_bytes 0) rest)
      ∙ known_round past srt_new s dmig (varint_bytes 0 ++ rest) u
      ∙ rw (take_param, take_dmig, dectp, decv_small past 0 rest (omega arith))

  pub scid_round :
      (len : ℕ) (id : List ℕ)
      → s.tp_list (param_nr scid_i) ≡ false
      → len ≤ 20
      → length (take len id) ≡ len
      → take_tp past srt_new s (field_bytes (param_nr scid_i) len id ++ rest)
        ≡ passed (with_scid len (take len id) s, rest)
  unfolding take_scid_i take_param deccid
  scid_round len id u h e =
      let m : len % 2 ^ 8 ≡ len = omega arith in
      let b = take len id in
      ap (take_tp past srt_new s) (
        append_assoc (varint_bytes (param_nr scid_i) ++ varint_bytes len) b rest
        ∙ append_assoc (varint_bytes (param_nr scid_i)) (varint_bytes len) (b ++ rest))
      ∙ known_round past srt_new s scid_i (varint_bytes len ++ (b ++ rest)) u
      ∙ rw (take_param, take_scid_i, deccid, decv_small past len (b ++ rest) (omega arith), m)
          (elim (Bool-cases (len == 0)) [
            | inl z ↦ rw (z, empty_list b (e ∙ ground (arith, z))) refl
            | inr z ↦
                (let f : ltb cid_len_max len ≡ false = ground arith in
                  rw (z, decb_whole len b rest e, f) refl)
          ])

  pub qbg_round : take_tp past srt_new s (empty_bytes tp_qbg ++ rest) ≡ passed (with_qbg s, rest)
  unfolding take_tp take_other
  qbg_round =
      ap (take_tp past srt_new s) (append_assoc (varint_bytes tp_qbg) (varint_bytes 0) rest)
      ∙ rw (
        take_tp,
        take_other,
        decv_small past tp_qbg (varint_bytes 0 ++ rest) (omega arith),
        decv_small past 0 rest (omega arith),
      )
