-- ===== src/Ack/Ops.antt =====
-- The encoder of ACK frames, `enc_ack_frame` of lib/src/frame.c, and the reader of the ACK frames
-- that were sent, `track_acked_pkts` of lib/src/recovery.c.
use quant.Base.{
  ℕ, zero, suc, ◌/◌, ◌^◌, false, not, ◌||◌, Option, none, some, List, [], ◌∷◌, ◌++◌, ltb, ◌==◌,
  if◌then◌else◌, ◌>>=◌, add64, sub64,
}
use quant.Diet.Tree.{Diet, Ival, SplayOps, flatten}
use quant.Diet.Ops.{remove_ival_loop}
use quant.Conn.Packets.{PktMeta, PnSpace, PnType}
use quant.Conn.State.{Conn, get_pn, set_pn}
use quant.Marshall.Buffer.{Writer}
use quant.Marshall.Enc.{enc1, encv, varint_size}
use quant.Marshall.Dec.{decv}
use quant.Recovery.Rtt.{ns_per_us}
use quant.Frame.{frm_ack, frm_ace}
use quant.Frame.Data.{lh_init, lh_hshk}
use quant.Frame.Enc.{Enc, track_frame}

-- `encv_chk`: the outer `none` is a failed check, the inner one the jump to `no_ack`.
unfoldable pub encv_chk : Writer → ℕ → Option (Option Writer)
unfolding varint_size encv
encv_chk w val =
    varint_size val
    >>= (λ n. if ltb w.room n then some none else (encv w val >>= (λ w1. some (some w1))))

-- One number after the other.
unfoldable pub encv_all : Writer → List ℕ → Option (Option Writer)
unfolding encv_chk
encv_all w [] = some (some w)
encv_all w (v ∷ vs) = encv_chk w v >>= (λ o. elim o [ none ↦ some none | some w1 ↦ encv_all w1 vs ])

-- `diet_foreach_rev`
abbrev pub downward : List Ival → List Ival
downward [] = []
downward (i ∷ is) = downward is ++ i ∷ []

-- The numbers that the loop over the intervals writes; `prev_lo` is the variable of that name.
abbrev pub rng_vals : ℕ → List Ival → List ℕ
rng_vals prev_lo [] = []
rng_vals prev_lo (b ∷ bs) =
    let rest = rng_vals b.lo bs in
    let gap = sub64 (sub64 prev_lo b.hi) 2 in
    if prev_lo == 0 then sub64 b.hi b.lo ∷ rest else gap ∷ sub64 b.hi b.lo ∷ rest

abbrev pub ack_type : PnSpace → ℕ
ack_type pn =
    if not (pn.ecn_ect0 == 0) || (not (pn.ecn_ect1 == 0) || not (pn.ecn_ce == 0))
    then frm_ace
    else frm_ack

abbrev pub ecn_vals : PnSpace → List ℕ
ecn_vals pn = if ack_type pn == frm_ace then pn.ecn_ect0 ∷ pn.ecn_ect1 ∷ pn.ecn_ce ∷ [] else []

abbrev pub def_ack_del_exp : ℕ
def_ack_del_exp = 3

-- The exponent of the delay.
abbrev pub ack_exp : Conn → PktMeta → ℕ
ack_exp c m =
    if m.hdr_type == lh_init || m.hdr_type == lh_hshk
    then def_ack_del_exp
    else c.tp_mine.ack_del_exp

abbrev pub ack_delay : ℕ → Conn → PktMeta → Ival → ℕ
ack_delay now c m first = sub64 now first.t / ns_per_us / 2 ^ ack_exp c m

-- All numbers of the frame; `first_rng` is the highest interval.
abbrev pub ack_vals : ℕ → Conn → PktMeta → PnSpace → Ival → List Ival → List ℕ
ack_vals now c m pn first ivals =
    first.hi ∷ ack_delay now c m first ∷ sub64 pn.recv.cnt 1 ∷ rng_vals 0 ivals ++ ecn_vals pn

abbrev pub acked_pn : PnSpace → PnSpace
acked_pn pn = record pn {
  rx_frames = λ i. false;
  pkts_lost_since_last_ack_tx = 0;
  pkts_rxed_since_last_ack_tx = 0;
  imm_ack = false;
}

abbrev pub ack_sent : Enc → PnType → Writer → Enc
ack_sent e p w = record {
  writer = w;
  conn = set_pn (record (e.conn) { ack_alarm = none }) p (acked_pn (get_pn e.conn p));
  pkt = track_frame e.pkt frm_ack;
}

-- The position in the packet at which the frame begins is left out.
unfoldable pub enc_ack_frame : ℕ → Enc → PnType → Option (Option Enc)
unfolding encv_all enc1 track_frame
enc_ack_frame now e p =
    let pn = get_pn e.conn p in
    let ivals = downward (flatten pn.recv.root) in
    if e.writer.room == 0
    then some none
    else enc1 e.writer (ack_type pn) >>= (λ w. elim ivals [
      | [] ↦ some none
      | first ∷ is ↦
          encv_all w (ack_vals now e.conn e.pkt pn first (first ∷ is))
          >>= (λ o. elim o [ none ↦ some none | some w1 ↦ some (some (ack_sent e p w1)) ])
    ])

-- A call of `decv` whose result is not tested: without a number, the variable stays 0.
abbrev pub dec_or_zero : ℕ → List ℕ → ℕ × List ℕ
dec_or_zero past inp = elim (decv past inp) [ none ↦ (0, inp) | some r ↦ r ]

abbrev pub range_of : ℕ → ℕ → Ival
range_of lg_ack ack_rng = record { lo = sub64 lg_ack ack_rng; hi = lg_ack; t = 0 }

-- The ranges that the loop removes, with `n` of them to come.
unfoldable pub acked_ranges : ℕ → ℕ → ℕ → List ℕ → List Ival
acked_ranges past zero lg_ack inp = []
acked_ranges past (suc zero) lg_ack inp = range_of lg_ack (dec_or_zero past inp).0 ∷ []
acked_ranges past (suc (suc n)) lg_ack inp =
    let (ack_rng, r1) = dec_or_zero past inp in
    let (gap, r2) = dec_or_zero past r1 in
    range_of lg_ack ack_rng
    ∷ acked_ranges past (suc n) (sub64 lg_ack (add64 (add64 ack_rng gap) 2)) r2

-- The numbers in front of the ranges, and the ranges.
unfoldable pub acked_ivals : ℕ → List ℕ → List Ival
unfolding acked_ranges
acked_ivals past inp =
    let (lg_ack, r1) = dec_or_zero past inp in
    let (delay, r2) = dec_or_zero past r1 in
    let (cnt, r3) = dec_or_zero past r2 in acked_ranges past (add64 cnt 1) lg_ack r3

module _ (ops : SplayOps) (fuel : ℕ) where
  -- The ranges leave the diet; `none` is there that the fuel of a removal ran out.
  unfoldable pub remove_all : List Ival → Diet → Option Diet
  unfolding remove_ival_loop
  remove_all [] d = some d
  remove_all (i ∷ is) d = remove_ival_loop ops fuel i d i.lo i.hi >>= remove_all is

  -- `inp` is the payload of the packet from behind the type of its ACK frame on.
  unfoldable pub track_acked_pkts : ℕ → PnSpace → List ℕ → Option PnSpace
  unfolding remove_all acked_ivals
  track_acked_pkts past pn inp =
      remove_all (acked_ivals past inp) pn.recv >>= (λ d. some (record pn { recv = d }))
