-- ===== src/Stream/Reassembly.antt =====
-- Stream data that arrives: in order, twice, or ahead of what is missing. This is the part of
-- `dec_stream_or_crypto_frame` (lib/src/frame.c) from "best case: new in-order data" on, with
-- `trim_frame` and `chk_finl_size`. Payload bytes are left out: a stretch is its offset and length.
use quant.Base.{
  ℕ, ◌+◌, ◌-◌, ◌%◌, ◌^◌, Bool, true, false, not, ◌&&◌, Option, none, some, List, [], ◌∷◌, ◌++◌, ltb,
  leb, ◌==◌, if◌then◌else◌, add64, sub64,
}
use quant.Conn.Packets.{PnType, Seg}
use quant.Conn.State.{Conn, Strm, StrmState, strm_hcrm, strm_hclo, strm_clsd, get_pn, set_pn}
use quant.Conn.Close.{err_close}
use quant.Frame.Handled.{err_finl_size}
use quant.Conn.Flow.{do_conn_fc}
use quant.Stream.Store.{strm_to_state}
use quant.Stream.Fc.{do_stream_fc, track_bytes_in}

-- `strm_data_len_adj`: the distance of the last byte from the first.
abbrev pub strm_data_len_adj : ℕ → ℕ
strm_data_len_adj sdl = sdl - (if sdl == 0 then 0 else 1)

-- The offset of the last byte.
abbrev pub right_edge : Seg → ℕ
right_edge g = add64 g.off (strm_data_len_adj g.len)

-- Subtraction from a `uint16_t`.
abbrev pub sub16 : ℕ → ℕ → ℕ
sub16 a b = (a + 2 ^ 16 - b % 2 ^ 16) % 2 ^ 16

unfoldable pub trim_frame : Strm → Seg → Seg
trim_frame s g =
    let diff = sub64 s.in_data_off g.off in
    record g { off = add64 g.off diff; len = sub16 g.len diff }

unfoldable pub trimmed : Strm → Seg → Seg
unfolding trim_frame
trimmed s g = if ltb g.off s.in_data_off then trim_frame s g else g

-- The stretch, trimmed, at the end of what is in order.
unfoldable pub append_seg : Strm → Seg → Strm
unfolding trimmed
append_seg s g =
    let g1 = trimmed s g in
    record s { in_data_off = add64 s.in_data_off g1.len; in_segs = s.in_segs ++ g1 ∷ [] }

-- "drop stale frame"
abbrev pub is_stale : Strm → Seg → Bool
is_stale s p = ltb (right_edge p) s.in_data_off

-- "still a gap"
abbrev pub is_gap : Strm → Seg → Bool
is_gap s p = not (is_stale s p) && ltb s.in_data_off p.off

unfoldable pub absorb : Strm → Seg → Strm
unfolding append_seg
absorb s p = if is_stale s p then s else append_seg s p

-- "check if a hole has been filled that lets us dequeue ooo data"
unfoldable pub dequeue_ooo : List Seg → Strm → Strm
unfolding absorb
dequeue_ooo [] s = record s { in_ooo = [] }
dequeue_ooo (p ∷ ps) s = elim (is_gap s p) [
  | true ↦ record s { in_ooo = p ∷ ps }
  | false ↦ dequeue_ooo ps (absorb s p)
]

abbrev pub last_seg : List Seg → Option Seg
last_seg [] = none
last_seg (g ∷ []) = some g
last_seg (g ∷ h ∷ gs) = last_seg (h ∷ gs)

-- `strm_data_type_t`.
pub data Kind : Type 0 where
  sdt_seq sdt_ooo sdt_dup sdt_ign : Kind

-- What becomes of the data; or the connection was closed with an error.
pub data Placed : Type 0 where
  placed : Kind → Conn → Strm → Placed
  refused : Conn → Strm → Placed

abbrev pub is_done : StrmState → Bool
is_done strm_hcrm = true
is_done strm_clsd = true
is_done _ = false

abbrev pub after_fin : StrmState → StrmState
after_fin strm_hclo = strm_clsd
after_fin strm_clsd = strm_clsd
after_fin _ = strm_hcrm

-- The flow control after data of a stream.
unfoldable pub grant : Bool → Conn → Strm → Placed
unfolding do_stream_fc do_conn_fc
grant cry c s =
    if cry
    then placed sdt_seq c s
    else (let (c1, s1) = do_stream_fc c s 0 in
        placed sdt_seq (record (do_conn_fc c1 0) { have_new_data = true }) s1)

abbrev pub ack_now : Conn → PnType → Conn
ack_now c p = set_pn c p (record (get_pn c p) { imm_ack = true })

-- "check if we have delivered a FIN, and act on it if we did"
unfoldable pub take_fin : ℕ → Bool → PnType → Conn → Strm → Option Seg → Placed
unfolding grant strm_to_state err_close
take_fin type cry p c s none = grant cry c s
take_fin type cry p c s (some g) =
    if not g.fin
    then grant cry c s
    else if not (add64 g.off g.len == s.in_data_off)
    then refused (err_close c err_finl_size type) s
    else grant cry (ack_now c p) (strm_to_state s (after_fin s.state))

-- "best case: new in-order data"
unfoldable pub take_in_order : ℕ → Bool → PnType → Conn → Strm → Seg → Placed
unfolding track_bytes_in append_seg dequeue_ooo take_fin trimmed
take_in_order type cry p c s g =
    let (c1, s1) = track_bytes_in c s (trimmed s g).len in
    let s2 = dequeue_ooo s1.in_ooo (append_seg s1 g) in
    take_fin type cry p c1 s2 (last_seg s2.in_segs)

-- The first stored stretch that does not end before an offset.
abbrev pub first_from : ℕ → List Seg → Option Seg
first_from off [] = none
first_from off (p ∷ ps) = if ltb (right_edge p) off then first_from off ps else some p

abbrev pub overlaps : Seg → Option Seg → Bool
overlaps g none = false
overlaps g (some p) = leb p.off (right_edge g)

-- `splay_insert` in the tree that is ordered by offset.
abbrev pub ins_ooo : Seg → List Seg → List Seg
ins_ooo g [] = g ∷ []
ins_ooo g (p ∷ ps) =
    if ltb g.off p.off then g ∷ p ∷ ps else if g.off == p.off then p ∷ ps else p ∷ ins_ooo g ps

-- "data is out of order"
unfoldable pub store_ooo : Conn → Strm → Seg → Placed
unfolding track_bytes_in
store_ooo c s g =
    if overlaps g (first_from g.off s.in_ooo)
    then placed sdt_ign c s
    else (let (c1, s1) = track_bytes_in c s g.len in
        placed sdt_ooo c1 (record s1 { in_ooo = ins_ooo g s1.in_ooo }))

unfoldable pub place_data : ℕ → Bool → PnType → Conn → Strm → Seg → Placed
unfolding take_in_order store_ooo
place_data type cry p c s g =
    if leb g.off s.in_data_off && leb s.in_data_off (right_edge g)
    then (if is_done s.state then placed sdt_ign c s else take_in_order type cry p c s g)
    else if leb (add64 g.off g.len) s.in_data_off
    then placed sdt_dup c s
    else if is_done s.state
    then placed sdt_ign c s
    else store_ooo c s g
