-- ===== src/Frame/RoundTrip.antt =====
-- What one end encodes, the other decodes: limits and connection IDs, and the validation of a path.
use quant.Base.{
  ℕ, zero, suc, ◌^◌, ◌<◌, max, ◌≡◌, refl, sym, ap, ◌∙◌, false, some, List, [], ◌∷◌, ◌++◌, arith,
  some_inj, >>=-some, length, take,
}
use quant.Conn.State.{Conn}
use quant.Marshall.Buffer.{Writer, put_bytes}
use quant.Marshall.Enc.{enc1, encv}
use quant.Marshall.Dec.{decv}
use quant.Marshall.Varint.{varint_bytes, encv_bytes}
use quant.Marshall.RoundTrip.{decv-varint_bytes}
use quant.Marshall.Padded.{chain, put_bytes-out}
use quant.Frame.{frm_mcd}
use quant.Frame.Handled.{ok, chk}
use quant.Frame.Limits.{dec_max_data_frame, raise_max_data}
use quant.Frame.Enc.{Enc, enc_type_v, enc_max_data_frame}

type_v_bytes :
    (w : Writer) (type v : ℕ)
    → v < 2 ^ 62
    → enc_type_v w type v ≡ put_bytes w (type ∷ varint_bytes v)
unfolding enc_type_v enc1
type_v_bytes w type v h =
    chain w (type ∷ []) (varint_bytes v) (λ w1. encv w1 v) (λ w1. encv_bytes w1 v h)

type_v_out :
    (w w' : Writer) (type v : ℕ)
    → v < 2 ^ 62
    → enc_type_v w type v ≡ some w'
    → w'.out ≡ w.out ++ type ∷ varint_bytes v
type_v_out w w' type v h q =
    put_bytes-out w w' (type ∷ varint_bytes v) (sym (type_v_bytes w type v h) ∙ q)

pub decv_small :
    (past v : ℕ) (rest : List ℕ) → v < 2 ^ 48 → decv past (varint_bytes v ++ rest) ≡ some (v, rest)
decv_small past v rest h = ground (arith, decv-varint_bytes past v rest)

-- A MAX_DATA frame, written into a buffer by one end and read by the other, makes the largest limit
-- that was known there, or this one if it is larger, the limit of the other end, and the first
-- one no longer has it to send; limits are below 2 ^ 48.
pub dec-enc_max_data :
    (past : ℕ) (e e' : Enc) (d : Conn) (rest : List ℕ)
    → e.conn.tp_mine.max_data < 2 ^ 48
    → enc_max_data_frame e ≡ some e'
    → (bytes : List ℕ) × (e'.writer.out ≡ e.writer.out ++ frm_mcd ∷ bytes)
      × (dec_max_data_frame past d (bytes ++ rest)
          ≡ ok (raise_max_data d e.conn.tp_mine.max_data) rest)
      × ((raise_max_data d e.conn.tp_mine.max_data).tp_peer.max_data
          ≡ max d.tp_peer.max_data e.conn.tp_mine.max_data)
      × (e'.conn.tx_max_data ≡ false)
unfolding enc_max_data_frame dec_max_data_frame raise_max_data
dec-enc_max_data past e e' d rest h q =
    let v = e.conn.tp_mine.max_data in
    let (w, a, b) = >>=-some (enc_type_v e.writer frm_mcd v) _ q in
    let f = some_inj b in
    (
      varint_bytes v,
      ap (λ x. x.writer.out) (sym f) ∙ type_v_out e.writer w frm_mcd v (omega arith) a,
      ap (λ o. chk d frm_mcd o (λ max rest'. ok (raise_max_data d max) rest'))
          (decv_small past v rest h),
      ground arith,
      ap (λ x. x.conn.tx_max_data) (sym f),
    )

pub take_all : (xs : List ℕ) (n : ℕ) → length xs ≡ n → take n xs ≡ xs
take_all [] zero h = refl
take_all [] (suc n) h = refl
take_all (x ∷ xs) zero h = absurd (omega (arith, h))
take_all (x ∷ xs) (suc n) h = ap (λ ys. x ∷ ys) (take_all xs n (omega (arith, h)))
