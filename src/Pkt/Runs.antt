-- ===== src/Pkt/Runs.antt =====
-- Concrete packet numbers.
use quant.Base.{ℕ, ◌≡◌, refl, some, List, [], ◌∷◌, ◌++◌, arith}
use quant.Diet.Tree.{Diet, node, leaf}
use quant.Diet.Ops.{mk_diet}
use quant.Marshall.Buffer.{put_bytes}
use quant.Marshall.Enc.{enc1}
use quant.Marshall.Runs.{swaps, room16}
use quant.Pkt.Numbers.{needed_pkt_nr_len, restore_nr, diet_max, enc_pkt_nr, dec_pkt_nr}
use quant.Pkt.Restore.{dec-enc_pkt_nr}

-- 990 to 995 were received.
abbrev received : Diet
received = mk_diet (node leaf (record { lo = 990; hi = 995; t = 0 }) leaf) 1

-- With 990 acknowledged, the lowest byte of 1000 is enough.
needed_run : needed_pkt_nr_len 990 1000 ≡ 1
unfolding needed_pkt_nr_len
needed_run = refl

restore_run : restore_nr 996 1 232 ≡ 1000
unfolding restore_nr
restore_run = refl

dec-enc_pkt_nr_example :
    (bytes : List ℕ) × (7 ∷ 232 ∷ [] ≡ 7 ∷ bytes)
    × (dec_pkt_nr swaps 0 received (needed_pkt_nr_len 990 1000) (bytes ++ 9 ∷ [])
        ≡ some (1000, 9 ∷ []))
unfolding needed_pkt_nr_len diet_max enc_pkt_nr enc1 put_bytes
dec-enc_pkt_nr_example =
    dec-enc_pkt_nr swaps room16 (record { out = 7 ∷ 232 ∷ []; room = 15 }) 0 990 1000 received
      (9 ∷ []) (omega arith) (omega arith) (omega arith) (omega arith) (omega arith) (omega arith)
      (omega arith) refl
