-- ===== src/Stream/Runs.antt =====
-- Streams of a concrete connection.
use quant.Base.{
  ℕ, ◌⊎◌, ◌+◌, ◌*◌, ◌≤◌, ◌<◌, ◌≡◌, refl, Bool, true, false, not, ◌&&◌, ◌||◌, none, some, [], ◌∷◌,
  arith, ltb, ◌==◌, if◌then◌else◌,
}
use quant.Conn.Packets.{Seg, pn_data}
use quant.Stream.Reassembly.{
  place_data, dequeue_ooo, append_seg, trim_frame, trimmed, absorb, take_in_order, take_fin, grant,
}
use quant.Stream.InOrder.{IsOrdered}
use quant.Stream.Placing.{strm_of_placed, place_data-IsOrdered}
use quant.Stream.FinalSize.{is_placed, place_data-is_placed}
use quant.Diet.Runs.Rebuild.{rebuild, rebuild-IsSplay}
use quant.Diet.Adding.{IsWf}
use quant.Diet.Insert.{Inserted}
use quant.Conn.Packets.{numbered}
use quant.Conn.State.{Conn, Strm}
use quant.Conn.Sample.{conn, strm_of}
use quant.Stream.Store.{need_ctrl_update, get_stream, count_id}
use quant.Stream.Fc.{do_stream_fc, do_stream_fc_lem, IsListed, track_bytes_in, fc_strm}
use quant.Stream.IdFc.{do_stream_id_fc, remote_id_fc_lem, local_id_fc_lem}
use quant.Stream.Life.{free_stream, free_stream_lem}

do_stream_fc_lem_example :
    let (c', s') = do_stream_fc conn (strm_of 4) 1200 in
    IsListed c' s'
    × (s'.blocked ≡ ltb 4000 (1000 + 1200))
    × (s'.in_data_max ≡ (if ltb 4000 (4 * 1500) then 4 * 4000 else 4000))
    × (s'.tx_max_strm_data ≡ (ltb 4000 (4 * 1500) || false))
do_stream_fc_lem_example =
    do_stream_fc_lem conn (strm_of 4) 1200 (refl, refl) (omega arith) (omega arith) (omega arith)
      (omega arith)

remote_id_fc_lem_example :
    let c' = do_stream_id_fc conn 2 true false in
    (((2 ≡ conn.tp_mine.max_strms_bidi)
        × (c'.tp_mine.max_strms_bidi ≡ 2 + 2)
        × (c'.tp_mine.max_strms_uni ≡ conn.tp_mine.max_strms_uni)
        × (c'.tx_max_sid_bidi ≡ true))
      ⊎ ((2 < conn.tp_mine.max_strms_bidi) × (c' ≡ conn)))
    × (2 < c'.tp_mine.max_strms_bidi)
remote_id_fc_lem_example = remote_id_fc_lem conn 2 true (omega arith) (omega arith) (omega arith)

-- Bidirectional streams are blocked; the third one would mark the unidirectional ones.
abbrev blocked_bidi : Conn
blocked_bidi = record conn { sid_blocked_bidi = true }

local_id_fc_run : (do_stream_id_fc blocked_bidi 3 true true).sid_blocked_uni ≡ true
unfolding do_stream_id_fc
local_id_fc_run = refl

local_id_fc_lem_example :
    ((do_stream_id_fc blocked_bidi 3 true true).sid_blocked_bidi ≡ (true || 3 == 2))
    × ((do_stream_id_fc blocked_bidi 3 false true).sid_blocked_uni
        ≡ (false || not (3 == 0) && 3 == 3))
    × ((do_stream_id_fc blocked_bidi 3 true true).sid_blocked_uni
        ≡ (false || true && (not (3 == 0) && 3 == 3)))
local_id_fc_lem_example = local_id_fc_lem blocked_bidi 3

clsd_IsWf : IsWf conn.clsd_strms
clsd_IsWf = record { span = omega arith; count = refl }

free_stream_lem_example :
    (c' : Conn) × (free_stream rebuild conn (strm_of 4) ≡ some c')
    × (get_stream c' (numbered 4) ≡ none)
    × Inserted 4 conn.clsd_strms c'.clsd_strms
    × (count_id c'.need_ctrl (numbered 4) ≡ 0)
unfolding get_stream
free_stream_lem_example =
    free_stream_lem rebuild rebuild-IsSplay conn (strm_of 4) (strm_of 4) 4 refl (omega arith)
      clsd_IsWf refl refl

abbrev seg : ℕ → ℕ → Bool → Seg
seg off len fin = record { off = off; len = len; fin = fin }

-- 1500 bytes in order, and 100 from offset 1600 on.
abbrev gapped : Strm
gapped = record (strm_of 4) { in_segs = seg 0 1500 false ∷ []; in_ooo = seg 1600 100 false ∷ [] }

gapped-IsOrdered : IsOrdered 0 gapped
gapped-IsOrdered = record {
  chain = (refl, refl);
  bound = omega arith;
  ahead = (omega arith, (omega arith, omega arith), tt);
}

-- The missing bytes, with some that were there before.
place_data_run :
    (strm_of_placed (place_data 8 false pn_data conn gapped (seg 1400 200 false))).in_data_off
    ≡ 1700
unfolding place_data take_in_order append_seg trim_frame trimmed dequeue_ooo absorb take_fin grant
    track_bytes_in do_stream_fc fc_strm need_ctrl_update
place_data_run = refl

place_data-IsOrdered_example :
    IsOrdered 0 (strm_of_placed (place_data 8 false pn_data conn gapped (seg 1400 200 false)))
    × (1500
        ≤ (strm_of_placed
            (place_data 8 false pn_data conn gapped (seg 1400 200 false))).in_data_off)
place_data-IsOrdered_example =
    place_data-IsOrdered 0 8 false pn_data conn gapped (seg 1400 200 false) gapped-IsOrdered
      (omega arith, omega arith)

place_data-is_placed_example :
    is_placed (place_data 9 false pn_data conn gapped (seg 1400 150 true)) ≡ true
place_data-is_placed_example =
    place_data-is_placed 0 9 false pn_data conn gapped (seg 1400 150 true) gapped-IsOrdered
      (omega arith, omega arith)
