-- ===== src/Stream/FinalSize.antt =====
-- The final size of a stream, which `chk_finl_size` of lib/src/frame.c compares with what arrived.
use quant.Base.{
  ℕ, ◌+◌, ◌^◌, ◌≤◌, ◌<◌, ◌≡◌, refl, sym, ap, ◌∙◌, inl, inr, Bool, true, false, ◌&&◌, some, List, [],
  ◌∷◌, arith, leb, ◌==◌, Bool-cases, Option-cases, some_inj, add64,
}
use quant.Conn.Packets.{PnType, Seg}
use quant.Conn.State.{Conn, Strm}
use quant.Stream.Fc.{track_bytes_in}
use quant.Stream.Reassembly.{
  right_edge, trimmed, append_seg, dequeue_ooo, last_seg, Placed, placed, refused, grant, take_fin,
  take_in_order, store_ooo, place_data, overlaps, first_from, is_done,
}
use quant.Stream.InOrder.{IsSmall, IsChain, IsOrdered, IsChain-append_seg, dequeue_ooo_lem}

abbrev pub is_placed : Placed → Bool
is_placed (placed k c s) = true
is_placed (refused c s) = false

-- A chain ends where its last stretch does.
IsChain-last_seg :
    (a b : ℕ) (gs : List Seg) (g : Seg) → IsChain a gs b → last_seg gs ≡ some g → g.off + g.len ≡ b
IsChain-last_seg a b [] g c e = ground (arith, e)
IsChain-last_seg a b (h ∷ []) g (o, c) e =
    ap (λ (x : Seg). x.off + x.len) (sym (some_inj e)) ∙ ap (λ n. n + h.len) o ∙ c
IsChain-last_seg a b (h ∷ i ∷ gs) g (o, c) e = IsChain-last_seg (a + h.len) b (i ∷ gs) g c e

grant-is_placed : (cry : Bool) (c : Conn) (s : Strm) → is_placed (grant cry c s) ≡ true
unfolding grant
grant-is_placed true c s = refl
grant-is_placed false c s = refl

take_fin-is_placed :
    (start type : ℕ) (cry : Bool) (p : PnType) (c : Conn) (s : Strm) (gs : List Seg)
    → IsChain start gs s.in_data_off
    → s.in_data_off < 2 ^ 63
    → is_placed (take_fin type cry p c s (last_seg gs)) ≡ true
unfolding take_fin
take_fin-is_placed start type cry p c s gs k b = elim (Option-cases (last_seg gs)) [
  | inl e ↦ rw e (grant-is_placed cry c s)
  | inr (g, e) ↦ elim (Bool-cases g.fin) [
    | inr f ↦ rw (e, f) (grant-is_placed cry c s)
    | inl f ↦
        (let n = IsChain-last_seg start s.in_data_off gs g k e in
          let q : add64 g.off g.len == s.in_data_off ≡ true = ground (arith, n) in
          rw (e, f, q) (grant-is_placed cry _ _))
  ]
]

store_ooo-is_placed : (c : Conn) (s : Strm) (g : Seg) → is_placed (store_ooo c s g) ≡ true
unfolding store_ooo
store_ooo-is_placed c s g = elim (Bool-cases (overlaps g (first_from g.off s.in_ooo))) [
  | inl e ↦ rw e refl
  | inr e ↦ rw e refl
]

take_in_order-is_placed :
    (start type : ℕ) (cry : Bool) (p : PnType) (c : Conn) (s : Strm) (g : Seg)
    → IsOrdered start s
    → IsSmall g
    → g.off ≤ s.in_data_off
    → s.in_data_off ≤ right_edge g
    → is_placed (take_in_order type cry p c s g) ≡ true
unfolding take_in_order track_bytes_in
take_in_order-is_placed start type cry p c s g w m l r =
    let (c1, s1) = track_bytes_in c s (trimmed s g).len in
    let (k, n) = IsChain-append_seg start s1 g (w.chain) (w.bound) m l r in
    let (v, t) =
      dequeue_ooo_lem start s.in_data_off s1.in_ooo (append_seg s1 g) k (omega (arith, n, m.1))
        (w.ahead) in
    let s2 = dequeue_ooo s1.in_ooo (append_seg s1 g) in
    take_fin-is_placed start type cry p c1 s2 s2.in_segs (v.chain) (v.bound)

-- No data of a stream whose queue is in order is refused for its final size: whatever stretch
-- arrives, with the end mark or beyond an earlier one, the comparison of the final size with the
-- next expected offset does not fail; stretches have at most 65535 bytes and end below 2 ^ 63.
pub place_data-is_placed :
    (start type : ℕ) (cry : Bool) (p : PnType) (c : Conn) (s : Strm) (g : Seg)
    → IsOrdered start s
    → IsSmall g
    → is_placed (place_data type cry p c s g) ≡ true
unfolding place_data
place_data-is_placed start type cry p c s g w m =
    elim (Bool-cases (leb g.off s.in_data_off && leb s.in_data_off (right_edge g))) [
      | inl a ↦ elim (Bool-cases (is_done s.state)) [
        | inl b ↦ rw (a, b) refl
        | inr b ↦
            rw (a, b)
              (take_in_order-is_placed start type cry p c s g w m (ground arith) (ground arith))
      ]
      | inr a ↦ elim (Bool-cases (leb (add64 g.off g.len) s.in_data_off)) [
        | inl b ↦ rw (a, b) refl
        | inr b ↦ elim (Bool-cases (is_done s.state)) [
          | inl d ↦ rw (a, b, d) refl
          | inr d ↦ rw (a, b, d) (store_ooo-is_placed c s g)
        ]
      ]
    ]
