-- ===== src/Frame/Handled.antt =====
-- What a frame decoder of lib/src/frame.c comes to, its checked reads, and the stream that a frame
-- names.
use quant.Base.{ℕ, Bool, not, ◌&&◌, Option, none, some, List, if◌then◌else◌, is_some}
use quant.Diet.Tree.{SplayOps}
use quant.Diet.Ops.{diet_find}
use quant.Conn.Packets.{numbered}
use quant.Conn.State.{Conn, Strm}
use quant.Conn.Close.{err_close}
use quant.Marshall.Dec.{dec1, decv, decb}
use quant.Stream.Ids.{is_uni, is_srv_ini, same_bool}
use quant.Stream.Store.{get_stream}

abbrev pub err_intl : ℕ
err_intl = 0x1

abbrev pub err_strm_limt : ℕ
err_strm_limt = 0x4

abbrev pub err_fc : ℕ
err_fc = 0x3

abbrev pub err_strm_stat : ℕ
err_strm_stat = 0x5

abbrev pub err_finl_size : ℕ
err_finl_size = 0x6

abbrev pub err_fram_enc : ℕ
err_fram_enc = 0x7

abbrev pub err_cid_limt : ℕ
err_cid_limt = 0x9

abbrev pub err_pv : ℕ
err_pv = 0xa

-- The decoder returns true, with the bytes that are left; it returns false, mostly after it closed
-- the connection; or a check fails and the program stops.
pub data Handled : Type 0 where
  ok : Conn → List ℕ → Handled
  failed : Conn → Handled
  died : Handled

-- `err_close_return`.
abbrev pub fail_frm : Conn → ℕ → ℕ → Handled
fail_frm c code frm = failed (err_close c code frm)

-- The rest of the decoder after a read that is checked.
abbrev pub chk {ℓ} :
    {A : Type ℓ} → Conn → ℕ → Option (A × List ℕ) → (A → List ℕ → Handled) → Handled
chk c frm none k = fail_frm c err_fram_enc frm
chk c frm (some (v, rest)) k = k v rest

-- `decv_chk`, `dec1_chk` and `decb_chk`; `past` is the byte at `end`.
abbrev pub decv_chk : ℕ → Conn → ℕ → List ℕ → (ℕ → List ℕ → Handled) → Handled
decv_chk past c frm inp k = chk c frm (decv past inp) k

abbrev pub dec1_chk : Conn → ℕ → List ℕ → (ℕ → List ℕ → Handled) → Handled
dec1_chk c frm inp k = chk c frm (dec1 inp) k

abbrev pub decb_chk : Conn → ℕ → ℕ → List ℕ → (List ℕ → List ℕ → Handled) → Handled
decb_chk c frm len inp k = chk c frm (decb len inp) k

module _ (ops : SplayOps) where
  -- The stream, or the null pointer; the search in the closed streams splays their tree.
  unfoldable pub get_and_validate_strm : Conn → ℕ → ℕ → Bool → Conn × Option Strm
  unfolding get_stream
  get_and_validate_strm c sid frm ok_when_writer =
      if is_uni (numbered sid)
        && same_bool (is_srv_ini (numbered sid))
            (if ok_when_writer then c.is_clnt else not c.is_clnt)
      then (err_close c err_strm_stat frm, none)
      else elim (get_stream c (numbered sid)) [
        | some s ↦ (c, some s)
        | none ↦
            (let (clsd, found) = diet_find ops c.clsd_strms sid in
              let c1 = record c { clsd_strms = clsd } in
              if is_some found then (c1, none) else (err_close c1 err_strm_stat frm, none))
      ]
