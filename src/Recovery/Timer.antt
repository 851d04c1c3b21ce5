-- ===== src/Recovery/Timer.antt =====
-- The loss detection timer: `earliest_pn` and `set_ld_timer` of lib/src/recovery.c.
use quant.Base.{
  ◌-◌, ℕ, ◌*◌, ◌^◌, ◌<◌, ◌≡◌, Bool, true, false, not, ◌&&◌, ◌||◌, Option, none, some, is_some, leb,
  ltb, ◌==◌, if◌then◌else◌, add64, mul64, min, max, arith,
}
use quant.Conn.Packets.{PnSpace, PnType, pn_init, pn_hshk, pn_data}
use quant.Conn.State.{
  Conn, ConnState, conn_clsd, conn_idle, conn_opng, conn_clsg, conn_drng, get_pn,
}
use quant.Conn.Flow.{has_pval_wnd}
use quant.Frame.{frm_ack}
use quant.Recovery.Congestion.{min_ini_len}
use quant.Recovery.Rtt.{ns_per_us, ns_per_ms, ns_per_s, us_per_ms}

abbrev pub granularity : ℕ
granularity = 1 * us_per_ms

abbrev pub space_time : Bool → PnSpace → ℕ
space_time by_loss_t pn = if by_loss_t then pn.loss_t else pn.last_ae_tx_t

-- `c->state >= conn_estb`.
abbrev pub is_estb : ConnState → Bool
is_estb conn_clsd = false
is_estb conn_idle = false
is_estb conn_opng = false
is_estb _ = true

-- One step of the loop: a later space takes over if it has a time, and an earlier one.
abbrev pub earlier_of : Bool → Conn → PnType → Bool → PnType → PnType
earlier_of by_loss_t c p allowed q =
    let t = space_time by_loss_t (get_pn c p) in
    let u = space_time by_loss_t (get_pn c q) in
    if not (u == 0) && (t == 0 || ltb u t) && allowed then q else p

-- The first space that is not abandoned; the space of application data never is.
abbrev pub first_pn : Conn → PnType
first_pn c =
    if c.pns_init.abandoned then (if c.pns_hshk.abandoned then pn_data else pn_hshk) else pn_init

-- The loop over the spaces after it.
unfoldable pub earliest_pn : Conn → Bool → PnType
earliest_pn c by_loss_t = elim (first_pn c) [
  | pn_init ↦
      earlier_of by_loss_t c (earlier_of by_loss_t c pn_init true pn_hshk) (is_estb c.state) pn_data
  | pn_hshk ↦ earlier_of by_loss_t c pn_hshk (is_estb c.state) pn_data
  | pn_data ↦ pn_data
]

-- `hshk_done` is a condition on the TLS state.
unfoldable pub peer_completed_addr_val : Bool → Conn → Bool
peer_completed_addr_val hshk_done c = not c.is_clnt || (hshk_done || c.pns_hshk.rx_frames frm_ack)

abbrev pub is_quiet : ConnState → Bool
is_quiet conn_idle = true
is_quiet conn_clsg = true
is_quiet conn_drng = true
is_quiet _ = false

-- `1 << c->rec.pto_cnt` is an `int`: the counter is below 31 where that is defined.
abbrev pub pto : Conn → ℕ
pto c =
    let base =
      if c.rec.cur.srtt == 0
      then mul64 (mul64 2 c.rec.initial_rtt) ns_per_us
      else add64
          (mul64 (add64 c.rec.cur.srtt (max (mul64 4 c.rec.cur.rttvar) granularity)) ns_per_us)
          (mul64 c.tp_peer.max_ack_del ns_per_ms) in
    mul64 base (2 ^ c.rec.pto_cnt)

abbrev pub start_alarm : ℕ → Conn → ℕ → Conn
start_alarm now c val =
    let left = if ltb val now then 0 else val - now in
    record c { rec = record (c.rec) { ld_alarm_val = left; ld_alarm = some left } }

abbrev pub stop_alarm : Conn → Conn
stop_alarm c = record c { rec = record (c.rec) { ld_alarm = none } }

abbrev pub or_now : ℕ → ℕ → ℕ
or_now now t = if t == 0 then now else t

unfoldable pub set_ld_timer : Bool → ℕ → Conn → Conn
unfolding earliest_pn peer_completed_addr_val has_pval_wnd
set_ld_timer hshk_done now c =
    let loss_t = (get_pn c (earliest_pn c true)).loss_t in
    let last_t = (get_pn c (earliest_pn c false)).last_ae_tx_t in
    if is_quiet c.state
    then c
    else if not (loss_t == 0)
    then start_alarm now c loss_t
    else if not c.is_clnt && not (has_pval_wnd c min_ini_len)
    then stop_alarm c
    else if c.rec.ae_in_flight == 0 && peer_completed_addr_val hshk_done c
    then stop_alarm c
    else start_alarm now c (min (add64 (or_now now last_t) (pto c)) (add64 now (8 * ns_per_s)))

-- The timer is stopped, or runs for no longer than that.
abbrev pub within : ℕ → Option ℕ → Bool
within n none = true
within n (some t) = leb t n

-- While no loss time is set and the connection is not quiet, at a time below 2 ^ 63: the timer
-- runs for at most eight seconds, and it is stopped exactly for a server at its amplification
-- limit, and for an end that has nothing in flight to probe for and a peer that validated its
-- address.
pub set_ld_timer_lem :
    (hshk_done : Bool) (now : ℕ) (c : Conn)
    → now < 2 ^ 63
    → is_quiet c.state ≡ false
    → (get_pn c (earliest_pn c true)).loss_t ≡ 0
    → let c' = set_ld_timer hshk_done now c in
      (within (8 * ns_per_s) c'.rec.ld_alarm ≡ true)
      × (is_some c'.rec.ld_alarm ≡ (
          (c.is_clnt || has_pval_wnd c min_ini_len)
          && not (c.rec.ae_in_flight == 0 && peer_completed_addr_val hshk_done c)))
unfolding set_ld_timer
set_ld_timer_lem hshk_done now c h q l = ground arith

-- With a loss time in the future, while the connection is not quiet, the timer runs until then.
pub set_ld_timer_loss :
    (hshk_done : Bool) (now : ℕ) (c : Conn)
    → is_quiet c.state ≡ false
    → now < (get_pn c (earliest_pn c true)).loss_t
    → (set_ld_timer hshk_done now c).rec.ld_alarm
      ≡ some ((get_pn c (earliest_pn c true)).loss_t - now)
unfolding set_ld_timer
set_ld_timer_loss hshk_done now c q l = ground arith
