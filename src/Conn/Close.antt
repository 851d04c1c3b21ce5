-- ===== src/Conn/Close.antt =====
-- How a connection ends: `err_close`, `enter_closing`, `enter_closed`, `stop_all_alarms` and
-- `idle_alarm` of lib/src/conn.c. The lists of connections and the API calls in progress are left
-- out, but for the mark `in_c_ready`.
use quant.Base.{
  ℕ, ◌<◌, ◌≡◌, refl, sym, subst, ◌∙◌, Bool, true, false, not, ◌&&◌, none, some, arith, ◌==◌,
  if◌then◌else◌, add64, mul64,
}
use quant.Conn.State.{
  Conn, ConnState, conn_clsd, conn_idle, conn_opng, conn_qlse, conn_clsg, conn_drng,
}

abbrev us : ℕ
us = 1000

unfoldable pub stop_all_alarms : Conn → Conn
stop_all_alarms c = record c {
  rec = record (c.rec) { ld_alarm = none };
  idle_alarm = none;
  key_flip_alarm = none;
  ack_alarm = none;
  closing_alarm = none;
}

unfoldable pub enter_closed : Conn → Conn
unfolding stop_all_alarms
enter_closed c = record (stop_all_alarms c) { state = conn_clsd; in_c_ready = true }

abbrev pub is_clsg : ConnState → Bool
is_clsg conn_clsg = true
is_clsg _ = false

-- Before anything was received of the peer.
abbrev pub is_early : ConnState → Bool
is_early conn_idle = true
is_early conn_opng = true
is_early _ = false

-- Three round trips, and four times their variation.
abbrev pub closing_dur : Conn → ℕ
closing_dur c =
    add64 (mul64 (mul64 3 (if c.rec.cur.srtt == 0 then c.rec.initial_rtt else c.rec.cur.srtt)) us)
      (mul64 (mul64 4 c.rec.cur.rttvar) us)

unfoldable pub enter_closing : Conn → Conn
unfolding enter_closed stop_all_alarms
enter_closing c =
    let c1 = stop_all_alarms c in
    if is_early c.state && c.err_code == 0 then enter_closed c1 else record c1 {
      closing_alarm = some (closing_dur c);
      needs_tx = if is_clsg c.state then c.needs_tx else true;
      state = conn_clsg;
    }

-- The reason is text and left out. The first error is the one that is kept.
unfoldable pub err_close : Conn → ℕ → ℕ → Conn
unfolding enter_closing
err_close c code frm =
    if not (c.err_code == 0)
    then c
    else enter_closing
        (record c { state = conn_qlse; err_code = code; err_frm = frm; needs_tx = true })

unfoldable pub on_idle_alarm : Conn → Conn
unfolding enter_closing enter_closed
on_idle_alarm c = enter_closed (enter_closing c)

-- What ends a connection from outside: an error, a call to close it, and its two timers.
pub data Ending : Conn → Conn → Type 0 where
  on_error : (c : Conn) (code frm : ℕ) → Ending c (err_close c code frm)
  on_close : (c : Conn) → Ending c (enter_closing c)
  on_closing_timer : (c : Conn) → Ending c (enter_closed c)
  on_idle_timer : (c : Conn) → Ending c (on_idle_alarm c)

pub data Endings (c : Conn) : Conn → Type 0 where
  here : Endings c c
  next : {d e : Conn} → Endings c d → Ending d e → Endings c e

-- The connection can no longer be used.
abbrev pub is_over : ConnState → Bool
is_over conn_clsd = true
is_over conn_clsg = true
is_over conn_drng = true
is_over _ = false

-- Over for good, with the error that it was closed with.
abbrev pub IsOver : Conn → Conn → Type 0
IsOver c d = (is_over d.state ≡ true) × (d.err_code ≡ c.err_code) × (d.err_frm ≡ c.err_frm)

-- The first error, with a code that is not 0, closes the connection: it is closing, has that error,
-- has something to send, and of its timers the closing timer runs alone; any later error changes
-- nothing.
pub err_close_lem :
    (c : Conn) (code frm code' frm' : ℕ)
    → c.err_code ≡ 0
    → 0 < code
    → let c' = err_close c code frm in
      (c'.state ≡ conn_clsg)
      × (c'.err_code ≡ code)
      × (c'.err_frm ≡ frm)
      × (c'.needs_tx ≡ true)
      × (c'.closing_alarm ≡ some (closing_dur c))
      × (c'.rec.ld_alarm ≡ none)
      × (c'.idle_alarm ≡ none)
      × (c'.key_flip_alarm ≡ none)
      × (c'.ack_alarm ≡ none)
      × (err_close c' code' frm' ≡ c')
unfolding err_close
err_close_lem c code frm code' frm' e p = ground arith

Ending-IsOver : {c d : Conn} → Ending c d → 0 < c.err_code → is_over c.state ≡ true → IsOver c d
unfolding err_close enter_closing enter_closed on_idle_alarm
Ending-IsOver (on_error c code frm) p h = ground arith
Ending-IsOver (on_close c) p h = ground arith
Ending-IsOver (on_closing_timer c) p h = ground arith
Ending-IsOver (on_idle_timer c) p h = ground arith

-- After a connection was closed with an error, whatever further errors, calls to close it and timers
-- come in whatever order, it stays closing, draining or closed, and keeps that first error.
pub Endings-IsOver :
    {c d : Conn} → Endings c d → 0 < c.err_code → is_over c.state ≡ true → IsOver c d
Endings-IsOver here p h = (h, refl, refl)
Endings-IsOver (next {d = d} r s) p h =
    let (o, e, f) = Endings-IsOver r p h in
    let (o', e', f') = Ending-IsOver s (subst (λ n. 0 < n) (sym e) p) o in (o', e' ∙ e, f' ∙ f)
