-- ===== src/Frame.antt =====
-- The frame types of lib/src/frame.h.
pub mod Handled
pub mod Limits
pub mod Data
pub mod Paths
pub mod Older
pub mod Enc
pub mod AckDec
pub mod Dispatch
pub mod Hidden
pub mod Leaves
pub mod AckLeaves
pub mod Takes
pub mod Switches
pub mod Ends
pub mod RoundTrip
mod Runs
use quant.Base.{
  ◌↔◌, subst, ℕ, ◌+◌, ◌-◌, ◌^◌, ◌<◌, ◌≡◌, ◌≢◌, ◌⊎◌, inl, inr, zero, suc, Bool, true, false, not,
  ◌&&◌, ◌||◌, ltb, ◌==◌, bit_and, arith, Bool-cases,
}
use quant.Conn.Packets.{Frames}

abbrev pub frm_pad : ℕ
frm_pad = 0x00

abbrev pub frm_ack : ℕ
frm_ack = 0x02

abbrev pub frm_png : ℕ
frm_png = 0x01

abbrev pub frm_ace : ℕ
frm_ace = 0x03

abbrev pub frm_str : ℕ
frm_str = 0x08

abbrev pub frm_str_09 : ℕ
frm_str_09 = 0x09

abbrev pub frm_str_0a : ℕ
frm_str_0a = 0x0a

abbrev pub frm_str_0b : ℕ
frm_str_0b = 0x0b

abbrev pub frm_str_0c : ℕ
frm_str_0c = 0x0c

abbrev pub frm_str_0d : ℕ
frm_str_0d = 0x0d

abbrev pub frm_str_0e : ℕ
frm_str_0e = 0x0e

abbrev pub frm_str_0f : ℕ
frm_str_0f = 0x0f

abbrev pub frm_pcl : ℕ
frm_pcl = 0x1a

abbrev pub frm_prp : ℕ
frm_prp = 0x1b

abbrev pub frm_rst : ℕ
frm_rst = 0x04

abbrev pub frm_stp : ℕ
frm_stp = 0x05

abbrev pub frm_cry : ℕ
frm_cry = 0x06

abbrev pub frm_tok : ℕ
frm_tok = 0x07

abbrev pub frm_mcd : ℕ
frm_mcd = 0x10

abbrev pub frm_msd : ℕ
frm_msd = 0x11

abbrev pub frm_msb : ℕ
frm_msb = 0x12

abbrev pub frm_msu : ℕ
frm_msu = 0x13

abbrev pub frm_cdb : ℕ
frm_cdb = 0x14

abbrev pub frm_sdb : ℕ
frm_sdb = 0x15

abbrev pub frm_sbb : ℕ
frm_sbb = 0x16

abbrev pub frm_sbu : ℕ
frm_sbu = 0x17

abbrev pub frm_cid : ℕ
frm_cid = 0x18

abbrev pub frm_rtr : ℕ
frm_rtr = 0x19

abbrev pub frm_clq : ℕ
frm_clq = 0x1c

abbrev pub frm_cla : ℕ
frm_cla = 0x1d

abbrev pub frm_hsd : ℕ
frm_hsd = 0x1e

abbrev pub frm_max : ℕ
frm_max = frm_hsd + 1

-- `1 << FRM_ACK | 1 << FRM_PAD | 1 << FRM_CLQ | 1 << 1 << FRM_CLA`, a bit set: the last shift is of
-- `1 << 1`.
abbrev pub ack_or_pad : Frames
ack_or_pad i = i == frm_ack || (i == frm_pad || (i == frm_clq || i == 1 + frm_cla))

-- Is a type below `n` in the set?
abbrev pub any_frm : ℕ → Frames → Bool
any_frm zero f = false
any_frm (suc n) f = f n || any_frm n f

unfoldable pub is_ack_eliciting : Frames → Bool
is_ack_eliciting f = any_frm frm_max (λ i. f i && not (ack_or_pad i))

-- A frame that asks for an acknowledgement: none of PADDING, ACK, CONNECTION_CLOSE of the transport
-- and HANDSHAKE_DONE.
abbrev pub Elicits : Frames → Type 0
Elicits f =
    (i : ℕ) × (i < frm_max) × (f i ≡ true) × (i ≢ 0x00) × (i ≢ 0x02) × (i ≢ 0x1c) × (i ≢ 0x1e)

pub any_frm_hit : (n i : ℕ) (f : Frames) → i < n → f i ≡ true → any_frm n f ≡ true
any_frm_hit zero i f h k = ground arith
any_frm_hit (suc n) i f h k = elim (Bool-cases (i == n)) [
  | inl e ↦ (let g : f n ≡ true = subst (λ j. f j ≡ true) (ground arith) k in rw g)
  | inr e ↦ (let g : any_frm n f ≡ true = any_frm_hit n i f (ground arith) k in ground arith)
]

any_frm_some : (n : ℕ) (f : Frames) → any_frm n f ≡ true → (i : ℕ) × (i < n) × (f i ≡ true)
any_frm_some zero f h = ground arith
any_frm_some (suc n) f h = elim (Bool-cases (f n)) [
  | inl e ↦ (n, omega arith, e)
  | inr e ↦ (let (i, g, k) = any_frm_some n f (ground arith) in (i, omega (arith, g), k))
]

-- A set of frames is ack-eliciting exactly if it has a frame type that is none of PADDING, ACK,
-- CONNECTION_CLOSE of the transport (0x1c) and HANDSHAKE_DONE (0x1e).
pub is_ack_eliciting_iff : (f : Frames) → (is_ack_eliciting f ≡ true) ↔ Elicits f
unfolding is_ack_eliciting
is_ack_eliciting_iff f = (
  λ (h : any_frm frm_max (λ i. f i && not (ack_or_pad i)) ≡ true).
      (let (i, g, k) = any_frm_some frm_max (λ i. f i && not (ack_or_pad i)) h in
        (i, g, ground arith, ground arith, ground arith, ground arith, ground arith)),
  λ (e : Elicits f).
      (let (i, g, k, a, b, c, d) = e in
        any_frm_hit frm_max i (λ i. f i && not (ack_or_pad i)) g (ground arith)),
)
