-- ===== src/Frame/Switches.antt =====
-- What the switch of `dec_frames` of lib/src/frame.c leaves of the bytes.
use quant.Base.{
  ℕ, ◌≤◌, ◌≡◌, refl, subst, Bool, true, false, not, ◌&&◌, ◌||◌, Option, none, some, List, [], arith,
  ◌==◌, if◌then◌else◌, is_some, some_inj, length,
}
use quant.Diet.Tree.{SplayOps}
use quant.Conn.Packets.{PktMeta, pn_hshk}
use quant.Conn.State.{Conn}
use quant.Pn.Abandon.{abandon_pn}
use quant.Frame.AckDec.{AckEnv, dec_ack_frame}
use quant.Frame.AckLeaves.{dec_ack_frame-Leaves}
use quant.Frame.{
  frm_png, frm_ack, frm_ace, frm_rst, frm_stp, frm_cry, frm_tok, frm_str, frm_mcd, frm_msd, frm_msb,
  frm_msu, frm_cdb, frm_sdb, frm_sbb, frm_sbu, frm_cid, frm_rtr, frm_pcl, frm_prp, frm_clq, frm_cla,
  frm_hsd,
}
use quant.Frame.Handled.{Handled}
use quant.Frame.Data.{StrmFrame, is_cry}
use quant.Frame.Dispatch.{
  Switched, done, closed, died, of_handled, of_strm, data_frame, done_frame, limit_frame,
  path_frame, or_path, or_unknown, dec_frame, dup_meta, is_str,
}
use quant.Frame.Leaves.{
  Leaves, dec_max_data_frame-Leaves, dec_max_strms_frame-Leaves, dec_data_blocked_frame-Leaves,
  dec_streams_blocked_frame-Leaves, dec_max_strm_data_frame-Leaves,
  dec_strm_data_blocked_frame-Leaves, dec_stop_sending_frame-Leaves, dec_reset_stream_frame-Leaves,
  dec_path_challenge_frame-Leaves, dec_path_response_frame-Leaves, dec_retire_cid_frame-Leaves,
  dec_new_token_frame-Leaves, dec_close_frame-Leaves, dec_new_cid_frame-Leaves,
}
use quant.Frame.Takes.{Takes, dec_stream_or_crypto_frame-Takes}

-- Where the loop goes on, at most `n` bytes are left.
pub data Switches (n : ℕ) : Switched → Type 0 where
  goes_on :
      (c : Conn) (m : PktMeta) (ok : Bool) (t : ℕ) (rest : List ℕ)
      → length rest ≤ n
      → Switches n (done c m ok t rest)
  closes : (c : Conn) → Switches n (closed c)
  dies : Switches n died

if-Switches :
    (n : ℕ) (b : Bool) (x y : Switched)
    → Switches n x
    → Switches n y
    → Switches n (if b then x else y)
if-Switches n true x y h k = h
if-Switches n false x y h k = k

of_handled-Switches :
    (n : ℕ) (m : PktMeta) (type : ℕ) (x : Handled) → Leaves n x → Switches n (of_handled m type x)
of_handled-Switches n m type _ (Leaves.goes_on c rest h) = goes_on c m true type rest h
of_handled-Switches n m type _ (Leaves.fails c) = goes_on c m false type [] (omega arith)
of_handled-Switches n m type _ Leaves.dies = dies

of_strm-Switches :
    (n : ℕ) (m : PktMeta) (type : ℕ) (x : StrmFrame) → Takes n x → Switches n (of_strm m type x)
of_strm-Switches n m type _ (Takes.takes c m1 rest h) = goes_on c m1 true type rest h
of_strm-Switches n m type _ (Takes.fails c) = goes_on c m false type [] (omega arith)
of_strm-Switches n m type _ Takes.dies = dies

-- Where there is a case for the type, its decoder leaves at most `n` bytes.
abbrev AllLeave : ℕ → Option Handled → Type 0
AllLeave n o = (x : Handled) → o ≡ some x → Leaves n x

case-AllLeave :
    (n : ℕ) (b : Bool) (x : Handled) (o : Option Handled)
    → Leaves n x
    → AllLeave n o
    → AllLeave n (if b then some x else o)
case-AllLeave n true x o h k y e = subst (λ z. Leaves n z) (some_inj e) h
case-AllLeave n false x o h k y e = k y e

none-AllLeave : (n : ℕ) → AllLeave n none
none-AllLeave n y e = ground arith

or_unknown-Switches :
    (n : ℕ) (c : Conn) (m : PktMeta) (type : ℕ) (o : Option Handled)
    → AllLeave n o
    → Switches n (or_unknown c m type o)
or_unknown-Switches n c m type none h = closes _
or_unknown-Switches n c m type (some x) h = of_handled-Switches n m type x (h x refl)

module _ (ops : SplayOps) (w_max default_ups now now2 past : ℕ) (srt_new can_dup : List ℕ → Bool)
    (env : AckEnv) where
  module _ (n : ℕ) (c : Conn) (m : PktMeta) (type : ℕ) (inp : List ℕ) (l : length inp ≤ n) where
    limit_frame-AllLeave :
        AllLeave n (limit_frame ops w_max default_ups now now2 past srt_new can_dup env c type inp)
    unfolding limit_frame
    limit_frame-AllLeave =
        case-AllLeave n (type == frm_rst) _ _ (dec_reset_stream_frame-Leaves n past c inp l ops) (
          case-AllLeave n (type == frm_msd) _ _ (dec_max_strm_data_frame-Leaves n past c inp l ops)
            (case-AllLeave n (type == frm_msb || type == frm_msu) _ _
              (dec_max_strms_frame-Leaves n past c inp l type)
              (case-AllLeave n (type == frm_mcd) _ _ (dec_max_data_frame-Leaves n past c inp l) (
                case-AllLeave n (type == frm_sdb) _ _
                  (dec_strm_data_blocked_frame-Leaves n past c inp l ops)
                  (case-AllLeave n (type == frm_cdb) _ _
                    (dec_data_blocked_frame-Leaves n past c inp l)
                    (case-AllLeave n (type == frm_sbb || type == frm_sbu) _ _
                      (dec_streams_blocked_frame-Leaves n past c inp l type)
                      (case-AllLeave n (type == frm_stp) _ _
                        (dec_stop_sending_frame-Leaves n past c inp l ops) (none-AllLeave n))))))))

    path_frame-AllLeave :
        AllLeave n (path_frame ops w_max default_ups now now2 past srt_new can_dup env c m type inp)
    unfolding path_frame
    path_frame-AllLeave =
        case-AllLeave n (type == frm_clq || type == frm_cla) _ _
          (dec_close_frame-Leaves n past c inp l type)
          (case-AllLeave n (type == frm_pcl) _ _ (dec_path_challenge_frame-Leaves n past c inp l) (
            case-AllLeave n (type == frm_prp) _ _ (dec_path_response_frame-Leaves n past c inp l m)
              (case-AllLeave n (type == frm_cid) _ _
                (dec_new_cid_frame-Leaves n past c inp l srt_new)
                (case-AllLeave n (type == frm_tok) _ _ (dec_new_token_frame-Leaves n past c inp l) (
                  case-AllLeave n (type == frm_rtr) _ _ (dec_retire_cid_frame-Leaves n past c inp l)
                    (none-AllLeave n))))))

    or_path-Switches :
        (o : Option Handled)
        → AllLeave n o
        → Switches n
            (or_path ops w_max default_ups now now2 past srt_new can_dup env c m type inp o)
    unfolding or_path
    or_path-Switches none h = or_unknown-Switches n c m type _ path_frame-AllLeave
    or_path-Switches (some x) h = of_handled-Switches n m type x (h x refl)

    abandoned-Switches :
        (o : Option Conn)
        → Switches n (elim o [ none ↦ died | some c1 ↦ done c1 m true frm_hsd inp ])
    abandoned-Switches none = dies
    abandoned-Switches (some c1) = goes_on c1 m true frm_hsd inp l

    done_frame-Switches :
        Switches n (done_frame ops w_max default_ups now now2 past srt_new can_dup env c m inp)
    unfolding done_frame
    done_frame-Switches = if-Switches n (not c.is_clnt) _ _ (closes _) (
        if-Switches n c.pns_hshk.abandoned _ _ (goes_on c m true frm_hsd inp l)
          (abandoned-Switches (abandon_pn ops w_max c pn_hshk)))

    data_frame-Switches :
        (ok : Bool)
        → Switches n
            (data_frame ops w_max default_ups now now2 past srt_new can_dup env c m ok type inp)
    unfolding data_frame
    data_frame-Switches ok =
        let again = (m.frms frm_cry || m.frms frm_str) && is_some m.strm in
        let m1 = if again then dup_meta m else m in
        if-Switches n (again && not (can_dup inp)) _ _ (goes_on c m ok type inp l) (
          of_strm-Switches n m1 (if is_cry type then frm_cry else frm_str) _ (
            dec_stream_or_crypto_frame-Takes ops w_max default_ups now now2 n past type c m1 inp l))

    pub dec_frame-Switches :
        (ok : Bool)
        → Switches n
            (dec_frame ops w_max default_ups now now2 past srt_new can_dup env c m ok type inp)
    unfolding dec_frame
    dec_frame-Switches ok =
        if-Switches n (is_cry type || is_str type) _ _ (data_frame-Switches ok) (
          if-Switches n (type == frm_ace || type == frm_ack) _ _
            (of_handled-Switches n m frm_ack
              (dec_ack_frame ops w_max default_ups now now2 env past type c m inp)
              (dec_ack_frame-Leaves ops w_max default_ups now now2 env n past type c m inp l))
            (if-Switches n (type == frm_png) _ _ (goes_on c m true type inp l) (
              if-Switches n (type == frm_hsd) _ _ done_frame-Switches (
                or_path-Switches
                  (limit_frame ops w_max default_ups now now2 past srt_new can_dup env c type inp)
                  limit_frame-AllLeave))))
