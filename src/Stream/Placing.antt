-- ===== src/Stream/Placing.antt =====
-- Every stretch of data keeps the queue of its stream in order (`dec_stream_or_crypto_frame` of
-- lib/src/frame.c).
use quant.Base.{
  ℕ, ◌+◌, ◌≤◌, ◌<◌, ◌≡◌, refl, subst, ◌∙◌, inl, inr, Bool, true, false, ◌&&◌, Option, none, some,
  List, [], ◌∷◌, arith, ltb, leb, ◌==◌, if◌then◌else◌, Bool-cases, add64,
}
use quant.Conn.Packets.{PnType, Seg}
use quant.Conn.State.{Conn, Strm, StrmState}
use quant.Stream.Store.{strm_to_state, need_ctrl_update}
use quant.Stream.Fc.{do_stream_fc, fc_strm, track_bytes_in}
use quant.Stream.Reassembly.{
  strm_data_len_adj, right_edge, trimmed, append_seg, dequeue_ooo, last_seg, Placed, placed,
  refused, grant, take_fin, take_in_order, first_from, overlaps, ins_ooo, store_ooo, place_data,
  after_fin, ack_now, is_done,
}
use quant.Stream.InOrder.{
  IsSmall, IsOoo, IsOrdered, right_edge_lem, IsChain-append_seg, dequeue_ooo_lem, Kept,
}

-- The same data, whatever else changes.
abbrev SameData : Strm → Strm → Type 0
SameData s t = (t.in_segs ≡ s.in_segs) × (t.in_data_off ≡ s.in_data_off) × (t.in_ooo ≡ s.in_ooo)

Kept-SameData : (start : ℕ) (r s t : Strm) → Kept start r s → SameData s t → Kept start r t
Kept-SameData start r s t (w, l) (p, q, o) = (
  record { chain = rw (p, q) (w.chain); bound = rw q (w.bound); ahead = rw (q, o) (w.ahead) },
  rw q l,
)

SameData-trans : (r s t : Strm) → SameData r s → SameData s t → SameData r t
SameData-trans r s t (a, b, c) (d, e, f) = (d ∙ a, e ∙ b, f ∙ c)

need_ctrl_update-SameData : (c : Conn) (s : Strm) → SameData s (need_ctrl_update c s).1
unfolding need_ctrl_update
need_ctrl_update-SameData c s = ground arith

do_stream_fc-SameData : (c : Conn) (s : Strm) → SameData s (do_stream_fc c s 0).1
unfolding do_stream_fc need_ctrl_update fc_strm
do_stream_fc-SameData c s = ground arith

strm_to_state-SameData : (s : Strm) (q : StrmState) → SameData s (strm_to_state s q)
unfolding strm_to_state
strm_to_state-SameData s q = ground arith

abbrev pub strm_of_placed : Placed → Strm
strm_of_placed (placed k c s) = s
strm_of_placed (refused c s) = s

grant-SameData : (cry : Bool) (c : Conn) (s : Strm) → SameData s (strm_of_placed (grant cry c s))
unfolding grant
grant-SameData true c s = (refl, refl, refl)
grant-SameData false c s = do_stream_fc-SameData c s

take_fin-SameData :
    (type : ℕ) (cry : Bool) (p : PnType) (c : Conn) (s : Strm) (last : Option Seg)
    → SameData s (strm_of_placed (take_fin type cry p c s last))
unfolding take_fin
take_fin-SameData type cry p c s none = grant-SameData cry c s
take_fin-SameData type cry p c s (some g) = elim (Bool-cases g.fin) [
  | inr e ↦ rw e (grant-SameData cry c s)
  | inl e ↦ elim (Bool-cases (add64 g.off g.len == s.in_data_off)) [
    | inr q ↦ rw (e, q) (refl, refl, refl)
    | inl q ↦
        rw (e, q)
          (SameData-trans s (strm_to_state s (after_fin s.state))
            (strm_of_placed (grant cry (ack_now c p) (strm_to_state s (after_fin s.state))))
            (strm_to_state-SameData s (after_fin s.state))
            (grant-SameData cry (ack_now c p) (strm_to_state s (after_fin s.state))))
  ]
]

IsOoo-ins_ooo :
    (b : ℕ) (g : Seg) (ps : List Seg)
    → IsOoo b ps
    → IsSmall g
    → b < g.off
    → overlaps g (first_from g.off ps) ≡ false
    → IsOoo b (ins_ooo g ps)
IsOoo-ins_ooo b g [] o m l h = (l, m, tt)
IsOoo-ins_ooo b g (p ∷ ps) (k, n, o) m l h =
    let rp = right_edge_lem p n in
    let rg = right_edge_lem g m in
    elim (Bool-cases (ltb (right_edge p) g.off)) [
      | inl e ↦
          (let h' : overlaps g (first_from g.off ps) ≡ false =
              subst (λ t. overlaps g (if t then first_from g.off ps else some p) ≡ false) e h in
            let e1 : ltb g.off p.off ≡ false = ground arith in
            let e2 : g.off == p.off ≡ false = ground arith in
            rw (e1, e2)
              (k, n, IsOoo-ins_ooo (p.off + strm_data_len_adj p.len) g ps o m (ground arith) h'))
      | inr e ↦
          (let h' : overlaps g (some p) ≡ false =
              subst (λ t. overlaps g (if t then first_from g.off ps else some p) ≡ false) e h in
            let e1 : ltb g.off p.off ≡ true = ground arith in rw e1 (l, m, (ground arith, n, o)))
    ]

store_ooo-Kept :
    (start : ℕ) (c : Conn) (s : Strm) (g : Seg)
    → IsOrdered start s
    → IsSmall g
    → s.in_data_off < g.off
    → Kept start s (strm_of_placed (store_ooo c s g))
unfolding store_ooo track_bytes_in
store_ooo-Kept start c s g w m l = elim (Bool-cases (overlaps g (first_from g.off s.in_ooo))) [
  | inl e ↦ rw e (w, omega arith)
  | inr e ↦ rw e (
    record {
      chain = w.chain;
      bound = w.bound;
      ahead = IsOoo-ins_ooo s.in_data_off g s.in_ooo (w.ahead) m l e;
    },
    omega arith,
  )
]

take_in_order-Kept :
    (start type : ℕ) (cry : Bool) (p : PnType) (c : Conn) (s : Strm) (g : Seg)
    → IsOrdered start s
    → IsSmall g
    → g.off ≤ s.in_data_off
    → s.in_data_off ≤ right_edge g
    → Kept start s (strm_of_placed (take_in_order type cry p c s g))
unfolding take_in_order track_bytes_in
take_in_order-Kept start type cry p c s g w m l r =
    let (c1, s1) = track_bytes_in c s (trimmed s g).len in
    let (k, n) = IsChain-append_seg start s1 g (w.chain) (w.bound) m l r in
    let (v, t) =
      dequeue_ooo_lem start s.in_data_off s1.in_ooo (append_seg s1 g) k (omega (arith, n, m.1))
        (w.ahead) in
    let s2 = dequeue_ooo s1.in_ooo (append_seg s1 g) in
    let e = right_edge_lem g m in
    Kept-SameData start s s2 (strm_of_placed (take_fin type cry p c1 s2 (last_seg s2.in_segs)))
      (v, ground (arith, n)) (take_fin-SameData type cry p c1 s2 (last_seg s2.in_segs))

-- Whatever stretch of data arrives, the queue of a stream stays without gap or overlap up to the
-- next expected offset, which never moves back, and what is stored ahead of it stays sorted, apart
-- and beyond a gap; stretches have at most 65535 bytes and end below 2 ^ 63.
pub place_data-IsOrdered :
    (start type : ℕ) (cry : Bool) (p : PnType) (c : Conn) (s : Strm) (g : Seg)
    → IsOrdered start s
    → IsSmall g
    → IsOrdered start (strm_of_placed (place_data type cry p c s g))
      × (s.in_data_off ≤ (strm_of_placed (place_data type cry p c s g)).in_data_off)
unfolding place_data
place_data-IsOrdered start type cry p c s g w m =
    let e = right_edge_lem g m in
    elim (Bool-cases (leb g.off s.in_data_off && leb s.in_data_off (right_edge g))) [
      | inl a ↦ elim (Bool-cases (is_done s.state)) [
        | inl b ↦ rw (a, b) (w, omega arith)
        | inr b ↦
            rw (a, b) (take_in_order-Kept start type cry p c s g w m (ground arith) (ground arith))
      ]
      | inr a ↦ elim (Bool-cases (leb (add64 g.off g.len) s.in_data_off)) [
        | inl b ↦ rw (a, b) (w, omega arith)
        | inr b ↦ elim (Bool-cases (is_done s.state)) [
          | inl d ↦ rw (a, b, d) (w, omega arith)
          | inr d ↦ rw (a, b, d) (store_ooo-Kept start c s g w m (ground arith))
        ]
      ]
    ]
