-- ===== src/Ack/Runs.antt =====
-- Concrete ACK frames.
use quant.Base.{ℕ, ◌≡◌, refl, some, List, [], ◌∷◌, ◌++◌, arith}
use quant.Diet.Tree.{Diet, Ival, node, leaf, flatten}
use quant.Diet.Ops.{mk_diet}
use quant.Diet.Adding.{IsWf}
use quant.Conn.Packets.{pn_data}
use quant.Conn.State.{Conn}
use quant.Conn.Sample.{conn, pkt, pn_of}
use quant.Marshall.Buffer.{put_bytes}
use quant.Marshall.Enc.{enc1, encv, varint_size}
use quant.Frame.Enc.{Enc, track_frame}
use quant.Ack.Ops.{encv_chk, encv_all, enc_ack_frame, acked_ivals, downward, ack_sent}
use quant.Ack.Ranges.{all_bounds}
use quant.Ack.RoundTrip.{acked_ivals-enc_ack}

abbrev ival : ℕ → ℕ → Ival
ival lo hi = record { lo = lo; hi = hi; t = 5000 }

-- Numbers 1 to 3 and 5 to 7 were received.
abbrev two_ivals : Diet
two_ivals = mk_diet (node (node leaf (ival 1 3) leaf) (ival 5 7) leaf) 2

two_ivals-IsWf : IsWf two_ivals
two_ivals-IsWf = record { span = omega arith; count = refl }

abbrev receiver : Conn
receiver = record conn { pns_data = record (pn_of pn_data) { recv = two_ivals } }

abbrev fresh : Enc
fresh = record {
  writer = record { out = []; room = 100 };
  conn = receiver;
  pkt = record (pkt 5) { hdr_type = 0x40 };
}

-- Largest 7, delay, one more range; 2, a gap of 0, and 2.
abbrev sent : Enc
unfolding track_frame
sent = ack_sent fresh pn_data (record { out = 2 ∷ 7 ∷ 10 ∷ 1 ∷ 2 ∷ 0 ∷ 2 ∷ []; room = 93 })

enc_ack_run : enc_ack_frame 85000 fresh pn_data ≡ some (some sent)
unfolding enc_ack_frame encv_all encv_chk varint_size encv enc1 put_bytes track_frame
enc_ack_run = refl

acked_ivals-enc_ack_example :
    (bytes : List ℕ) × (sent.writer.out ≡ 2 ∷ bytes)
    × (acked_ivals 0 (bytes ++ 9 ∷ []) ≡ all_bounds (downward (flatten two_ivals.root)))
acked_ivals-enc_ack_example =
    acked_ivals-enc_ack 0 85000 fresh sent pn_data (9 ∷ []) two_ivals-IsWf
      (omega arith, (omega arith, tt)) (omega arith) tt enc_ack_run
