-- ===== src/Tp/Bytes.antt =====
-- The bytes of one transport parameter, as enc_tp, enc_tp_empty and encb_tp of lib/src/tls.c write
-- them.
use quant.Base.{
  ℕ, ◌^◌, ◌≤◌, ◌<◌, ◌≡◌, ap, ◌∙◌, some, List, ◌++◌, append_assoc, arith, >>=-some, take,
}
use quant.Marshall.Buffer.{Writer, put_bytes}
use quant.Marshall.Enc.{encv, encb, varint_size}
use quant.Marshall.Dec.{decv}
use quant.Marshall.Varint.{varint_bytes, size_class, varint_size_lem}
use quant.Marshall.RoundTrip.{encv-out, decv-varint_bytes}
use quant.Tp.Enc.{enc_tp, enc_tp_empty, encb_tp}

pub decv_small :
    (past v : ℕ) (rest : List ℕ) → v < 2 ^ 48 → decv past (varint_bytes v ++ rest) ≡ some (v, rest)
decv_small past v rest h = ground (arith, decv-varint_bytes past v rest)

-- A number, its length in front.
abbrev pub num_bytes : ℕ → ℕ → List ℕ
num_bytes tp v = varint_bytes tp ++ varint_bytes (size_class v) ++ varint_bytes v

abbrev pub empty_bytes : ℕ → List ℕ
empty_bytes tp = varint_bytes tp ++ varint_bytes 0

abbrev pub field_bytes : ℕ → ℕ → List ℕ → List ℕ
field_bytes tp len bytes = varint_bytes tp ++ varint_bytes len ++ take len bytes

pub size_small : (v : ℕ) → (0 < size_class v) × (size_class v ≤ 8)
size_small v = ground arith

pub enc_tp-out :
    (w w' : Writer) (tp v : ℕ)
    → tp < 2 ^ 48
    → v < 2 ^ 48
    → enc_tp w tp v ≡ some w'
    → w'.out ≡ w.out ++ num_bytes tp v
unfolding enc_tp
enc_tp-out w w' tp v h k e =
    let (w1, a, e1) = >>=-some (encv w tp) _ e in
    let (n, b, e2) = >>=-some (varint_size v) _ e1 in
    let (w2, c, e3) = >>=-some (encv w1 n) _ e2 in
    let m : n ≡ size_class v = ground (arith, b, varint_size_lem v) in
    let z = size_small v in
    encv-out w2 w' v (omega arith) e3
    ∙ ap (λ o. o ++ varint_bytes v)
        (encv-out w1 w2 n (omega (arith, m, z)) c ∙ ap (λ k. w1.out ++ varint_bytes k) m)
    ∙ ap (λ o. (o ++ varint_bytes (size_class v)) ++ varint_bytes v)
        (encv-out w w1 tp (omega arith) a)
    ∙ simp (append_assoc)

pub enc_tp_empty-out :
    (w w' : Writer) (tp : ℕ)
    → tp < 2 ^ 48
    → enc_tp_empty w tp ≡ some w'
    → w'.out ≡ w.out ++ empty_bytes tp
unfolding enc_tp_empty
enc_tp_empty-out w w' tp h e =
    let (w1, a, e1) = >>=-some (encv w tp) _ e in
    encv-out w1 w' 0 (omega arith) e1
    ∙ ap (λ o. o ++ varint_bytes 0) (encv-out w w1 tp (omega arith) a)
    ∙ simp (append_assoc)

pub encb-out :
    (w w' : Writer) (bytes : List ℕ) (n : ℕ)
    → encb w bytes n ≡ some w'
    → w'.out ≡ w.out ++ take n bytes
unfolding encb put_bytes
encb-out w w' bytes n e = ground (arith, e)

pub encb_tp-out :
    (w w' : Writer) (tp len : ℕ) (bytes : List ℕ)
    → tp < 2 ^ 48
    → len < 2 ^ 48
    → encb_tp w tp (some bytes) len ≡ some w'
    → w'.out ≡ w.out ++ field_bytes tp len bytes
unfolding encb_tp
encb_tp-out w w' tp len bytes h k e =
    let (w1, a, e1) = >>=-some (encv w tp) _ e in
    let (w2, b, e2) = >>=-some (encv w1 len) _ e1 in
    encb-out w2 w' bytes len e2
    ∙ ap (λ o. o ++ take len bytes) (encv-out w1 w2 len (omega arith) b)
    ∙ ap (λ o. (o ++ varint_bytes len) ++ take len bytes) (encv-out w w1 tp (omega arith) a)
    ∙ simp (append_assoc)
