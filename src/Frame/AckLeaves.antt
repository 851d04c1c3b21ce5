-- ===== src/Frame/AckLeaves.antt =====
-- `dec_ack_frame` of lib/src/frame.c leaves no more bytes than it is given.
use quant.Base.{
  ℕ, zero, suc, ◌+◌, ◌-◌, ◌*◌, ◌^◌, ◌≤◌, Option, none, some, List, [], ltb, ◌==◌, if◌then◌else◌,
  add64, sub64, length,
}
use quant.Diet.Tree.{SplayOps, flatten}
use quant.Conn.Packets.{PktMeta, PnType}
use quant.Conn.State.{Conn, get_pn, set_pn}
use quant.Pn.Sent.{no_frames}
use quant.Frame.{frm_ace}
use quant.Frame.Handled.{Handled, ok, failed, died, fail_frm, decv_chk, err_pv}
use quant.Frame.AckDec.{
  AckEnv, AckRun, went, unsent, dead, got_new_ack, ack_del_of, cum_ack_of, ack_down,
  on_ack_received_2, end_ack, dec_ecn, dec_ack_rngs, dec_ack_frame,
}
use quant.Frame.Leaves.{Leaves, goes_on, fails, dies, if-Leaves, decv_chk-Leaves}

module _ (ops : SplayOps) (w_max default_ups now now2 : ℕ) (env : AckEnv) (k : ℕ) where
  ended-Leaves :
      (p : PnType) (o : Option Conn) (rest : List ℕ)
      → length rest ≤ k
      → Leaves k (elim o [
        | none ↦ died
        | some c1 ↦ ok (set_pn c1 p (record (get_pn c1 p) { tx_frames = no_frames })) rest
      ])
  ended-Leaves p none rest h = dies
  ended-Leaves p (some c1) rest h = goes_on _ rest h

  end_ack-Leaves :
      (c : Conn) (p : PnType) (acked : List PktMeta) (rest : List ℕ)
      → length rest ≤ k
      → Leaves k (end_ack ops w_max default_ups now now2 env c p acked rest)
  unfolding end_ack
  end_ack-Leaves c p acked rest h =
      ended-Leaves p
        (if got_new_ack acked
          then on_ack_received_2 ops w_max default_ups now now2 env c p
          else some c)
        rest h

  module _ (past : ℕ) where
    dec_ecn-Leaves :
        (type : ℕ) (c : Conn) (p : PnType) (acked : List PktMeta) (inp : List ℕ)
        → length inp ≤ k
        → Leaves k (dec_ecn ops w_max default_ups now now2 env past type c p acked inp)
    unfolding dec_ecn
    dec_ecn-Leaves type c p acked inp h =
        if-Leaves k (type == frm_ace) _ _
          (decv_chk-Leaves k past c type inp _ h (λ ect0 r1 h1.
            decv_chk-Leaves k past c type r1 _ h1 (λ ect1 r2 h2.
              decv_chk-Leaves k past c type r2 _ h2 (λ ce r3 h3.
                end_ack-Leaves (if got_new_ack acked then env.on_ecn c acked ect0 ect1 ce else c) p
                  acked r3 h3))))
          (end_ack-Leaves c p acked inp h)

    -- What follows a range.
    after_rng-Leaves :
        (type n : ℕ) (x : AckRun) (p : PnType) (r1 : List ℕ)
        (more : Conn → List PktMeta → ℕ → List ℕ → Handled)
        → length r1 ≤ k
        → ((c1 : Conn) (acked1 : List PktMeta) (gap : ℕ) (r2 : List ℕ)
            → length r2 ≤ k
            → Leaves k (more c1 acked1 gap r2))
        → Leaves k (elim x [
          | dead ↦ died
          | unsent c1 ↦ failed c1
          | went c1 acked1 ↦
              (if n == 0
                then dec_ecn ops w_max default_ups now now2 env past type c1 p acked1 r1
                else decv_chk past c1 type r1 (λ gap r2. more c1 acked1 gap r2))
        ])
    after_rng-Leaves type n dead p r1 more h f = dies
    after_rng-Leaves type n (unsent c1) p r1 more h f = fails c1
    after_rng-Leaves type n (went c1 acked1) p r1 more h f =
        if-Leaves k (n == 0) _ _ (dec_ecn-Leaves type c1 p acked1 r1 h)
          (decv_chk-Leaves k past c1 type r1 _ h (λ gap r2 h2. f c1 acked1 gap r2 h2))

    dec_ack_rngs-Leaves :
        (type lg_in_frm delay : ℕ) (cum : Option ℕ) (p : PnType) (n lg : ℕ) (c : Conn)
        (acked : List PktMeta) (inp : List ℕ)
        → length inp ≤ k
        → Leaves k (
            dec_ack_rngs ops w_max default_ups now now2 env past type lg_in_frm delay cum p n lg c
              acked inp)
    unfolding dec_ack_rngs
    dec_ack_rngs-Leaves type lg_in_frm delay cum p zero lg c acked inp h =
        dec_ecn-Leaves type c p acked inp h
    dec_ack_rngs-Leaves type lg_in_frm delay cum p (suc n) lg c acked inp h =
        decv_chk-Leaves k past c type inp _ h (λ rng r1 h1.
          if-Leaves k (ltb (0xffff * 2 ^ 4) rng) _ _ (fails _) (
            if-Leaves k (ltb lg rng) _ _ (fails _) (
              after_rng-Leaves type n
                (ack_down ops w_max default_ups now now2 env type lg_in_frm delay cum p (rng + 1) lg
                  c acked)
                p r1
                (λ c1 acked1 gap r2.
                  if ltb (lg - rng) (add64 gap 2)
                  then fail_frm c1 err_pv type
                  else dec_ack_rngs ops w_max default_ups now now2 env past type lg_in_frm delay cum
                      p n (sub64 lg (add64 rng (add64 gap 2))) c1 acked1 r2)
                h1
                (λ c1 acked1 gap r2 h2. if-Leaves k (ltb (lg - rng) (add64 gap 2)) _ _ (fails _) (
                  dec_ack_rngs-Leaves type lg_in_frm delay cum p n
                    (sub64 lg (add64 rng (add64 gap 2))) c1 acked1 r2 h2)))))

    pub dec_ack_frame-Leaves :
        (type : ℕ) (c : Conn) (m : PktMeta) (inp : List ℕ)
        → length inp ≤ k
        → Leaves k (dec_ack_frame ops w_max default_ups now now2 env past type c m inp)
    unfolding dec_ack_frame
    dec_ack_frame-Leaves type c m inp h = decv_chk-Leaves k past c type inp _ h (λ lg r1 h1.
        decv_chk-Leaves k past c type r1 _ h1 (λ raw r2 h2.
          decv_chk-Leaves k past c type r2 _ h2 (λ cnt r3 h3.
            dec_ack_rngs-Leaves type lg (ack_del_of c m raw)
              (cum_ack_of (flatten (get_pn c m.pn).acked_or_lost.root)) m.pn (add64 cnt 1) lg c []
              r3 h3)))
