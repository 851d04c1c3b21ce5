-- ===== src/Pn/Sent.antt =====
-- The packets in flight of a packet number space, kept twice by lib/src/pn.c: in a hash table, and
-- their numbers in a diet.
use quant.Base.{
  is_some, ℕ, ◌≡◌, sym, ap, ◌∙◌, Bool, true, false, not, ◌&&◌, ◌||◌, Option, none, some, List, [],
  ◌∷◌, ◌==◌, if◌then◌else◌, IsU64, uint_t_max, arith,
}
use quant.Diet.Tree.{Diet, SplayOps, IsSplay, flatten, leaf}
use quant.Diet.Ops.{diet_insert, diet_remove, mk_diet}
use quant.Diet.Span.{covers}
use quant.Diet.Adding.{IsWf}
use quant.Diet.Insert.{diet_insert-Inserted}
use quant.Diet.Remove.{diet_remove_lem}
use quant.Conn.Packets.{PktMeta, PnSpace, PnType, Frames}

-- `kh_get` on the table of sent packets.
abbrev pub find_nr : List PktMeta → ℕ → Option PktMeta
find_nr [] nr = none
find_nr (m ∷ ms) nr = if m.nr == nr then some m else find_nr ms nr

-- `kh_del`.
abbrev pub del_nr : List PktMeta → ℕ → List PktMeta
del_nr [] nr = []
del_nr (m ∷ ms) nr = if m.nr == nr then del_nr ms nr else m ∷ del_nr ms nr

unfoldable pub find_sent_pkt : PnSpace → ℕ → Option PktMeta
find_sent_pkt pn nr = find_nr pn.sent_pkts nr

abbrev pub no_frames : Frames
no_frames i = false

abbrev pub diet_init : Diet
diet_init = mk_diet leaf 0

unfoldable pub init_pn : PnSpace → PnType → PnSpace
init_pn pn type = record pn {
  recv = diet_init;
  recv_all = diet_init;
  acked_or_lost = diet_init;
  sent_pkt_nrs = diet_init;
  lg_sent = uint_t_max;
  lg_acked = uint_t_max;
  type = type;
  abandoned = false;
}

-- The table and the diets are emptied; the buffers that this frees are not modelled.
unfoldable pub free_pn : PnSpace → PnSpace
free_pn pn = record pn {
  sent_pkts = if pn.abandoned then pn.sent_pkts else [];
  abandoned = true;
  recv = diet_init;
  recv_all = diet_init;
  acked_or_lost = diet_init;
  sent_pkt_nrs = diet_init;
}

unfoldable pub reset_pn : PnSpace → Bool → PnSpace
unfolding free_pn
reset_pn pn rst_lg_sent = record (free_pn pn) {
  sent_pkts = [];
  lg_acked = uint_t_max;
  lg_sent = if rst_lg_sent then uint_t_max else pn.lg_sent;
  pkts_rxed_since_last_ack_tx = 0;
  pkts_lost_since_last_ack_tx = 0;
  abandoned = false;
  rx_frames = no_frames;
  tx_frames = no_frames;
}

module _ (ops : SplayOps) where
  -- `none` is the failed assertion that the packet is in the table.
  unfoldable pub pm_by_nr_del : PnSpace → PktMeta → Option PnSpace
  unfolding find_sent_pkt
  pm_by_nr_del pn m = elim (find_sent_pkt pn m.nr) [
    | none ↦ none
    | some _ ↦ some (record pn {
      sent_pkts = del_nr pn.sent_pkts m.nr;
      sent_pkt_nrs = diet_remove ops pn.sent_pkt_nrs m.nr;
    })
  ]

  -- The packet in both.
  abbrev pub inserted_pn : PnSpace → PktMeta → PnSpace
  inserted_pn pn m = record pn {
    sent_pkts = m ∷ pn.sent_pkts;
    sent_pkt_nrs = (diet_insert ops pn.sent_pkt_nrs m.nr 0).0;
  }

  -- `none` is the failed assertion that no packet with this number was in the table.
  unfoldable pub pm_by_nr_ins : PnSpace → PktMeta → Option PnSpace
  unfolding find_sent_pkt
  pm_by_nr_ins pn m = elim (find_sent_pkt pn m.nr) [
    | some _ ↦ none
    | none ↦ some (inserted_pn pn m)
  ]

-- The diet holds the numbers of exactly the packets in the table.
pub record InSync (pn : PnSpace) : Type 0 where
  pub diet : IsWf pn.sent_pkt_nrs
  pub same : (nr : ℕ) → covers nr (flatten pn.sent_pkt_nrs.root) ≡ is_some (find_sent_pkt pn nr)

find_nr-del_nr :
    (ms : List PktMeta) (nr k : ℕ)
    → is_some (find_nr (del_nr ms nr) k) ≡ (not (k == nr) && is_some (find_nr ms k))
find_nr-del_nr [] nr k = ground arith
find_nr-del_nr (m ∷ ms) nr k = ground (arith, find_nr-del_nr ms nr k)

module _ (ops : SplayOps) (laws : IsSplay ops) where
  -- Adding a sent packet with a new 64-bit number keeps the table and the diet of numbers in
  -- step, and the packet is then found by its number.
  pub pm_by_nr_ins_lem :
      (pn : PnSpace) (m : PktMeta)
      → InSync pn
      → IsU64 m.nr
      → find_sent_pkt pn m.nr ≡ none
      → (pn' : PnSpace) × (pm_by_nr_ins ops pn m ≡ some pn')
        × InSync pn'
        × (find_sent_pkt pn' m.nr ≡ some m)
  unfolding pm_by_nr_ins find_sent_pkt
  pm_by_nr_ins_lem pn m s u e =
      let (w, h) = diet_insert-Inserted ops laws pn.sent_pkt_nrs m.nr 0 s.diet u in
      (
        inserted_pn ops pn m,
        rw (pm_by_nr_ins, find_sent_pkt, e),
        record { diet = w; same = λ k. h k ∙ ap (λ b. k == m.nr || b) (s.same k) ∙ ground arith },
        ground arith,
      )

  -- Deleting a packet whose 64-bit number is in the table keeps the table and the diet of numbers
  -- in step; that number is then no longer found, and every other one is found as before.
  pub pm_by_nr_del_lem :
      (pn : PnSpace) (m old : PktMeta)
      → InSync pn
      → IsU64 m.nr
      → find_sent_pkt pn m.nr ≡ some old
      → (pn' : PnSpace) × (pm_by_nr_del ops pn m ≡ some pn')
        × InSync pn'
        × ((k : ℕ)
            → is_some (find_sent_pkt pn' k) ≡ (not (k == m.nr) && is_some (find_sent_pkt pn k)))
  unfolding pm_by_nr_del find_sent_pkt
  pm_by_nr_del_lem pn m old s u e =
      let (w, h) = diet_remove_lem ops laws pn.sent_pkt_nrs m.nr s.diet u in
      (
        record pn {
          sent_pkts = del_nr pn.sent_pkts m.nr;
          sent_pkt_nrs = diet_remove ops pn.sent_pkt_nrs m.nr;
        },
        rw (pm_by_nr_del, find_sent_pkt, e),
        record {
          diet = w;
          same = λ k.
              h k
              ∙ ap (λ b. not (k == m.nr) && b) (s.same k)
              ∙ sym (find_nr-del_nr pn.sent_pkts m.nr k);
        },
        λ k. find_nr-del_nr pn.sent_pkts m.nr k,
      )
