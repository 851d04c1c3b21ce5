-- ===== src/Tp/Runs.antt =====
-- The theorems about transport parameters (lib/src/tls.c) at concrete inputs, and runs of the code: a
-- client's parameters, and the server that reads them.
use quant.Base.{
  ℕ, ◌^◌, ◌<◌, ◌≡◌, refl, Bool, true, false, Option, some, List, [], ◌∷◌, arith, length, take,
}
use quant.Cid.Lists.{Cid}
use quant.Conn.State.{Conn}
use quant.Conn.Sample.{conn, cid_at}
use quant.Marshall.Dec.{decv, decb, sum2}
use quant.Marshall.Buffer.{put_bytes}
use quant.Tp.Params.{Param, dcid_o, passed, refused, overrun, Checked, TpScan, num_ok}
use quant.Tp.Check.{tp_loop, start_scan, quic_tp, chk_tp}
use quant.Tp.Passes.{Passes}
use quant.Tp.Loop.{Accepted, chk_tp-Accepted}
use quant.Tp.Enc.{own_cid, mine}
use quant.Tp.Init.{init_tp, extra_of}
use quant.Tp.Written.{IsSendable}
use quant.Tp.RoundTrip.{Received, init_tp-chk_tp}

abbrev grease : List ℕ
grease = 0x32 ∷ 7 ∷ 8 ∷ 9 ∷ []

abbrev no_random : ℕ → ℕ
no_random k = 0

abbrev sent_bytes : List ℕ
sent_bytes =
    1 ∷ 2 ∷ 103 ∷ 16 ∷ 3 ∷ 2 ∷ 69 ∷ 220 ∷ 4 ∷ 2 ∷ 103 ∷ 16 ∷ 5 ∷ 2 ∷ 79 ∷ 160 ∷ 6 ∷ 2 ∷ 79 ∷ 160 ∷ 7
    ∷ 2 ∷ 71 ∷ 208 ∷ 8 ∷ 1 ∷ 2 ∷ 9 ∷ 1 ∷ 3 ∷ 14 ∷ 1 ∷ 4 ∷ 15 ∷ 4 ∷ 1 ∷ 2 ∷ 3 ∷ 7 ∷ 64 ∷ 182 ∷ 2 ∷ 7
    ∷ 8 ∷ []

-- What the client writes, with an unshuffled order.
init_tp_run : init_tp no_random grease 5 conn ≡ some (conn, sent_bytes)
unfolding init_tp put_bytes
init_tp_run = refl

conn_sized : (p : Param) → mine p conn.tp_mine < 2 ^ 48
unfolding mine
conn_sized _ = ground arith

conn_bounded : (p : Param) → num_ok p (mine p conn.tp_mine) ≡ true
unfolding mine num_ok
conn_bounded dcid_o = refl
conn_bounded _ = refl

abbrev own : Cid
own = cid_at 7 0 false

conn-IsSendable : IsSendable conn (extra_of conn grease 5) own
unfolding extra_of own_cid
conn-IsSendable = record {
  client = refl;
  sized = conn_sized;
  bounded = conn_bounded;
  own = refl;
  id_len = omega arith;
  id_bytes = refl;
  grease_high = omega arith;
  grease_small = omega arith;
  grease_apart = omega arith;
  grease_bytes = (omega arith, refl);
}

abbrev server : Conn
server = record conn { is_clnt = false }

abbrev all_new : List ℕ → Bool
all_new token = true

init_tp-chk_tp_example :
    (s : TpScan) × (tp_loop (length sent_bytes) 0 all_new (start_scan server) sent_bytes
      ≡ some (passed s))
    × Received conn.tp_mine s.conn.tp_peer
init_tp-chk_tp_example =
    init_tp-chk_tp no_random grease sent_bytes 5 0 conn conn server own all_new conn-IsSendable
      (λ k h. h) (omega arith) init_tp_run

abbrev slots : List (ℕ × List ℕ)
slots = (quic_tp, sent_bytes) ∷ []

chk_tp-Accepted_example :
    (r : Checked Conn) × (chk_tp 109 0 all_new server slots ≡ some r) × Passes Accepted r
chk_tp-Accepted_example = chk_tp-Accepted 109 0 all_new server slots (omega arith) (omega arith)

abbrev passed_or : Conn → Option (Checked Conn) → Conn
passed_or c (some (passed c')) = c'
passed_or c _ = c

-- The server after it read them.
server_after : Conn
unfolding chk_tp
server_after = passed_or server (chk_tp 109 0 all_new server slots)

chk_tp_run : chk_tp 109 0 all_new server slots ≡ some (passed server_after)
unfolding chk_tp server_after decv sum2 decb
chk_tp_run = refl

-- A client without a Retry, to which the server names a connection ID of four bytes as the first.
abbrev server_slots : List (ℕ × List ℕ)
server_slots = (quic_tp, 0 ∷ 4 ∷ 9 ∷ 9 ∷ 9 ∷ 9 ∷ sent_bytes) ∷ []

client_after : Conn
unfolding chk_tp
client_after = passed_or conn (chk_tp 109 0 all_new conn server_slots)

abbrev is_refused : Option (Checked Conn) → Bool
is_refused (some (refused c)) = true
is_refused _ = false

abbrev is_overrun : Option (Checked Conn) → Bool
is_overrun (some overrun) = true
is_overrun _ = false

-- A parameter that comes twice ends the handshake.
twice_run :
    is_refused (chk_tp 109 0 all_new server ((quic_tp, 4 ∷ 1 ∷ 9 ∷ 4 ∷ 1 ∷ 9 ∷ []) ∷ [])) ≡ true
unfolding chk_tp decv
twice_run = refl

-- A connection ID of 21 bytes is written past the end of its array.
overrun_run :
    is_overrun (chk_tp 109 0 all_new server ((quic_tp, 15 ∷ 21 ∷ take 21 sent_bytes) ∷ [])) ≡ true
unfolding chk_tp decv decb
overrun_run = refl
