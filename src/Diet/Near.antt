-- ===== src/Diet/Near.antt =====
-- What `diet_splay` brings to the root in lib/src/diet.c, for the interval of one number.
use quant.Base.{
  ℕ, ◌+◌, ◌^◌, ◌≤◌, ◌<◌, ◌≡◌, ◌≢◌, refl, sym, subst, List, [], ◌∷◌, ◌++◌, All, IsU64, arith,
}
use quant.Diet.Tree.{
  Ival, Tree, leaf, node, flatten, below, above, ival_cmp, SplayOps, IsSplay, Span,
}
use quant.Diet.Ops.{mk_ival}
use quant.Diet.Span.{IsDiet, Span-split, Span-below, Span-above}

-- A root `x` that holds `n` or is a neighbour of it: nothing lies between the two.
pub data Near (n : ℕ) (xs : List Ival) : Tree → Type 0 where
  near :
      (l r : Tree) (x : Ival)
      → flatten l ++ x ∷ flatten r ≡ xs
      → Span 0 x.lo (flatten l)
      → x.lo < x.hi + 1
      → Span (x.hi + 2) (2 ^ 64 + 1) (flatten r)
      → (n < x.lo → Span 0 (n + 1) (flatten l))
      → (x.hi < n → Span (n + 1) (2 ^ 64 + 1) (flatten r))
      → Near n xs (node l x r)

cmp_below : (n t : ℕ) (x : Ival) → x.lo < x.hi + 1 → n < x.lo → ival_cmp (mk_ival n t) x ≡ below
unfolding ival_cmp
cmp_below n t x h k = ground arith

cmp_above : (n t : ℕ) (x : Ival) → x.lo < x.hi + 1 → x.hi < n → ival_cmp (mk_ival n t) x ≡ above
unfolding ival_cmp
cmp_above n t x h k = ground arith

ends_below :
    (n t b e : ℕ) (xs : List Ival)
    → Span b e xs
    → All (λ y. ival_cmp y (mk_ival n t) ≡ below) xs
    → All (λ y. y.hi + 2 ≤ n + 1) xs
unfolding ival_cmp
ends_below n t b e [] s a = tt
ends_below n t b e (y ∷ xs) s a = (ground (arith, a.0), ends_below n t (y.hi + 2) e xs s.2 a.1)

starts_above :
    (n t : ℕ) (xs : List Ival)
    → All (λ y. ival_cmp (mk_ival n t) y ≡ below) xs
    → All (λ y. n + 1 ≤ y.lo) xs
unfolding ival_cmp
starts_above n t [] a = tt
starts_above n t (y ∷ xs) a = (ground (arith, a.0), starts_above n t xs a.1)

pub nil-ne-append : (xs ys : List Ival) (y : Ival) → [] ≢ xs ++ y ∷ ys
nil-ne-append [] ys y e = cc
nil-ne-append (x ∷ xs) ys y e = cc

module _ (ops : SplayOps) (laws : IsSplay ops) where
  open ops use {splay}
  open laws use {flatten-splay, splay_left, splay_right}

  Near-cases :
      (s s' : Tree) (n : ℕ)
      → IsDiet (flatten s)
      → IsU64 n
      → s ≢ leaf
      → splay s (mk_ival n 0) ≡ s'
      → flatten s' ≡ flatten s
      → Near n (flatten s) s'
  Near-cases leaf leaf n d h ne e f = absurd (ne refl)
  Near-cases (node sl sx sr) leaf n d h ne e f =
      absurd (nil-ne-append (flatten sl) (flatten sr) sx f)
  Near-cases s (node l x r) n d h ne e f =
      near l r x f parts.0 parts.1 parts.2
        (λ k. Span-below 0 x.lo (n + 1) (flatten l) (omega arith) parts.0 (
          ends_below n 0 0 x.lo (flatten l) parts.0 (
            splay_left 0 (2 ^ 64 + 1) s l r (mk_ival n 0) x d (omega arith) e
              (cmp_below n 0 x parts.1 k))))
        (λ k. Span-above (x.hi + 2) (2 ^ 64 + 1) (n + 1) (flatten r) (omega arith) parts.2 (
          starts_above n 0 (flatten r) (
            splay_right 0 (2 ^ 64 + 1) s l r (mk_ival n 0) x d (omega arith) e
              (cmp_above n 0 x parts.1 k))))
    where
      parts : Span 0 x.lo (flatten l) × (x.lo < x.hi + 1) × Span (x.hi + 2) (2 ^ 64 + 1) (flatten r)
      parts = Span-split 0 (2 ^ 64 + 1) (flatten l) (flatten r) x (subst IsDiet (sym f) d)

  pub splay-Near :
      (s : Tree) (n : ℕ)
      → IsDiet (flatten s)
      → IsU64 n
      → s ≢ leaf
      → Near n (flatten s) (splay s (mk_ival n 0))
  splay-Near s n d h ne =
      Near-cases s _ n d h ne refl (flatten-splay 0 (2 ^ 64 + 1) s (mk_ival n 0) d (omega arith))
