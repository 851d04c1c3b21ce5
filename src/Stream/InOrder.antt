-- ===== src/Stream/InOrder.antt =====
-- The queue of a stream's data has no gap and no overlap, whatever order the data comes in
-- (`dec_stream_or_crypto_frame` of lib/src/frame.c).
use quant.Base.{
  ℕ, ◌+◌, ◌-◌, ◌^◌, ◌≤◌, ◌<◌, ◌≡◌, refl, sym, ap, subst, ◌∙◌, inl, inr, true, false, List, [], ◌∷◌,
  ◌++◌, arith, ltb, Bool-cases, add64, sub64, sub64_le,
}
use quant.Conn.Packets.{Seg}
use quant.Conn.State.{Strm}
use quant.Stream.Reassembly.{
  strm_data_len_adj, right_edge, trim_frame, trimmed, append_seg, is_stale, is_gap, absorb,
  dequeue_ooo,
}

-- A stretch that a packet can hold, below the largest offset.
abbrev pub IsSmall : Seg → Type 0
IsSmall g = (g.len < 2 ^ 16) × (g.off + g.len < 2 ^ 63)

-- Each stretch begins where the one before it ended, from one offset to another.
abbrev pub IsChain : ℕ → List Seg → ℕ → Type 0
IsChain a [] b = a ≡ b
IsChain a (g ∷ gs) b = (g.off ≡ a) × IsChain (a + g.len) gs b

-- Stretches by their offset that are beyond a limit and apart from each other.
abbrev pub IsOoo : ℕ → List Seg → Type 0
IsOoo b [] = Unit
IsOoo b (p ∷ ps) = (b < p.off) × IsSmall p × IsOoo (p.off + strm_data_len_adj p.len) ps

-- The data of a stream: in order without gap or overlap from `start` to the next expected offset,
-- and ahead of it only what is beyond a gap.
pub record IsOrdered (start : ℕ) (s : Strm) : Type 0 where
  pub chain : IsChain start s.in_segs s.in_data_off
  pub bound : s.in_data_off < 2 ^ 63
  pub ahead : IsOoo s.in_data_off s.in_ooo

IsChain-snoc :
    (a b : ℕ) (gs : List Seg) (g : Seg)
    → IsChain a gs b
    → g.off ≡ b
    → IsChain a (gs ++ g ∷ []) (b + g.len)
IsChain-snoc a b [] g c e = (e ∙ sym c, ap (λ n. n + g.len) c)
IsChain-snoc a b (x ∷ gs) g (h, c) e = (h, IsChain-snoc (a + x.len) b gs g c e)

pub right_edge_lem : (g : Seg) → IsSmall g → right_edge g ≡ g.off + strm_data_len_adj g.len
right_edge_lem g (h, k) = ground arith

trim_frame_lem :
    (s : Strm) (g : Seg) (d : ℕ)
    → s.in_data_off < 2 ^ 63
    → g.len < 2 ^ 16
    → g.off + d ≡ s.in_data_off
    → d ≤ g.len
    → ((trim_frame s g).off ≡ s.in_data_off) × ((trim_frame s g).len + d ≡ g.len)
unfolding trim_frame
trim_frame_lem s g d b h e l =
    let q : sub64 s.in_data_off g.off ≡ d = ground (arith, sub64_le s.in_data_off g.off) in
    rw q (ground arith, ground arith)

-- A stretch that reaches the next expected offset continues the queue after it was trimmed.
trimmed_lem :
    (s : Strm) (g : Seg)
    → s.in_data_off < 2 ^ 63
    → IsSmall g
    → g.off ≤ s.in_data_off
    → s.in_data_off ≤ right_edge g
    → ((trimmed s g).off ≡ s.in_data_off) × (s.in_data_off + (trimmed s g).len ≡ g.off + g.len)
unfolding trimmed
trimmed_lem s g b (h, k) l r = elim (Bool-cases (ltb g.off s.in_data_off)) [
  | inl e ↦
      (let (o, n) =
          trim_frame_lem s g (s.in_data_off - g.off) b h (ground arith)
            (ground (arith, right_edge_lem g (h, k))) in
        rw e (o, ground arith))
  | inr e ↦ rw e (ground arith, ground arith)
]

pub IsChain-append_seg :
    (start : ℕ) (s : Strm) (g : Seg)
    → IsChain start s.in_segs s.in_data_off
    → s.in_data_off < 2 ^ 63
    → IsSmall g
    → g.off ≤ s.in_data_off
    → s.in_data_off ≤ right_edge g
    → let s' = append_seg s g in
      IsChain start s'.in_segs s'.in_data_off × (s'.in_data_off ≡ g.off + g.len)
unfolding append_seg
IsChain-append_seg start s g c b m l r =
    let (o, n) = trimmed_lem s g b m l r in
    let e : add64 s.in_data_off (trimmed s g).len ≡ s.in_data_off + (trimmed s g).len =
      ground (arith, n, m.1) in
    (rw e (IsChain-snoc start s.in_data_off s.in_segs (trimmed s g) c o), e ∙ n)

IsOoo-mono : (a b : ℕ) (ps : List Seg) → a ≤ b → IsOoo b ps → IsOoo a ps
IsOoo-mono a b [] l o = tt
IsOoo-mono a b (p ∷ ps) l (h, m, k) = (omega (arith, l, h), m, k)

dequeue_ooo_gap :
    (p : Seg) (ps : List Seg) (s : Strm)
    → is_gap s p ≡ true
    → dequeue_ooo (p ∷ ps) s ≡ record s { in_ooo = p ∷ ps }
unfolding dequeue_ooo
dequeue_ooo_gap p ps s e =
    ap (λ b. elim b [ true ↦ record s { in_ooo = p ∷ ps } | false ↦ dequeue_ooo ps (absorb s p) ]) e

dequeue_ooo_next :
    (p : Seg) (ps : List Seg) (s : Strm)
    → is_gap s p ≡ false
    → dequeue_ooo (p ∷ ps) s ≡ dequeue_ooo ps (absorb s p)
unfolding dequeue_ooo
dequeue_ooo_next p ps s e =
    ap (λ b. elim b [ true ↦ record s { in_ooo = p ∷ ps } | false ↦ dequeue_ooo ps (absorb s p) ]) e

absorb_stale : (s : Strm) (p : Seg) → is_stale s p ≡ true → absorb s p ≡ s
unfolding absorb
absorb_stale s p e = rw e refl

absorb_fresh : (s : Strm) (p : Seg) → is_stale s p ≡ false → absorb s p ≡ append_seg s p
unfolding absorb
absorb_fresh s p e = rw e refl

-- The data of a stream is in order, and none of what was is lost.
abbrev pub Kept : ℕ → Strm → Strm → Type 0
Kept start s t = IsOrdered start t × (s.in_data_off ≤ t.in_data_off)

-- Taking stored stretches keeps the queue without gaps and leaves only what is beyond a gap.
pub dequeue_ooo_lem :
    (start limit : ℕ) (ps : List Seg) (s : Strm)
    → IsChain start s.in_segs s.in_data_off
    → s.in_data_off < 2 ^ 63
    → IsOoo limit ps
    → Kept start s (dequeue_ooo ps s)
unfolding dequeue_ooo
dequeue_ooo_lem start limit [] s c b o = (record { chain = c; bound = b; ahead = tt }, omega arith)
dequeue_ooo_lem start limit (p ∷ ps) s c b (l, m, o) = elim (Bool-cases (is_gap s p)) [
  | inl e ↦
      subst (Kept start s) (sym (dequeue_ooo_gap p ps s e))
        (record { chain = c; bound = b; ahead = (ground arith, m, o) }, omega arith)
  | inr e ↦
      subst (Kept start s) (sym (dequeue_ooo_next p ps s e)) (elim (Bool-cases (is_stale s p)) [
        | inl q ↦
            subst (λ t. Kept start s (dequeue_ooo ps t)) (sym (absorb_stale s p q))
              (dequeue_ooo_lem start (p.off + strm_data_len_adj p.len) ps s c b o)
        | inr q ↦
            (let (c1, n) = IsChain-append_seg start s p c b m (ground arith) (ground arith) in
              let r = right_edge_lem p m in
              let (w, k) =
                dequeue_ooo_lem start (p.off + strm_data_len_adj p.len) ps (append_seg s p) c1
                  (omega (arith, n, m.1)) o in
              subst (λ t. Kept start s (dequeue_ooo ps t)) (sym (absorb_fresh s p q))
                (w, ground arith))
      ])
]
