-- ===== src/Conn/Runs.antt =====
-- The flow control of a concrete connection.
use quant.Base.{◌≡◌, refl, true, arith}
use quant.Conn.State.{Conn, conn_clsg}
use quant.Conn.Close.{
  err_close, enter_closing, enter_closed, on_error, on_close, on_closing_timer, here, next, IsOver,
  Endings-IsOver,
}
use quant.Conn.Flow.{do_conn_fc}
use quant.Conn.Sample.{conn}

-- 1200 bytes more would pass the limit of 10000.
do_conn_fc_run : (do_conn_fc conn 1200).blocked ≡ true
unfolding do_conn_fc
do_conn_fc_run = refl

-- A connection that an error closed.
abbrev broken : Conn
broken = record conn { state = conn_clsg; err_code = 10; err_frm = 4 }

-- A second error, a call to close it, and the closing timer.
Endings-IsOver_example : IsOver broken (enter_closed (enter_closing (err_close broken 7 8)))
Endings-IsOver_example =
    Endings-IsOver
      (next (next (next here (on_error broken 7 8)) (on_close (err_close broken 7 8)))
        (on_closing_timer (enter_closing (err_close broken 7 8))))
      (omega arith) refl
