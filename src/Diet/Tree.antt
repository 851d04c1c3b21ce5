-- ===== src/Diet/Tree.antt =====
-- The data of lib/src/diet.h, and what diet.c uses of the splay trees of lib/src/tree.h.
use quant.Base.{
  ℕ, ◌+◌, ◌<◌, ◌≡◌, Bool, false, List, [], ◌∷◌, ◌++◌, ltb, leb, ◌&&◌, ◌||◌, if◌then◌else◌, All,
}

pub record Ival : Type 0 where
  pub lo : ℕ
  pub hi : ℕ
  pub t : ℕ

-- The two children of a node, and the interval in it.
pub data Tree : Type 0 where
  leaf : Tree
  node : Tree → Ival → Tree → Tree

-- `struct diet`: the root and the number of nodes.
pub record Diet : Type 0 where
  pub root : Tree
  pub cnt : ℕ

-- The intervals in order.
abbrev pub flatten : Tree → List Ival
flatten leaf = []
flatten (node l x r) = flatten l ++ x ∷ flatten r

-- The sign of a C comparison: negative, zero, positive.
pub data Sign : Type 0 where
  below same above : Sign

abbrev pub ival_eq : Ival → Ival → Bool
ival_eq a b = leb b.lo a.lo && leb a.hi b.hi || leb a.lo b.lo && leb b.hi a.hi

unfoldable pub ival_cmp : Ival → Ival → Sign
ival_cmp a b = if ival_eq a b then same else if ltb b.lo a.lo then above else below

-- The operations of tree.h that diet.c calls, on the tree alone.
pub record SplayOps : Type 0 where
  pub splay : Tree → Ival → Tree
  pub splay_insert : Tree → Ival → Tree
  pub splay_remove : Tree → Ival → Tree

-- Intervals in order, with a gap of one number at least between two: they lie from `b` on, and the
-- next one may begin at `e`.
abbrev pub Span : ℕ → ℕ → List Ival → Type 0
Span b e [] = b < e + 1
Span b e (x ∷ xs) = (b < x.lo + 1) × (x.lo < x.hi + 1) × Span (x.hi + 2) e xs

-- Where `splay_insert` puts an interval that compares equal to none.
abbrev pub insert_ival : Ival → List Ival → List Ival
insert_ival i [] = i ∷ []
insert_ival i (x ∷ xs) = if ltb i.lo x.lo then i ∷ x ∷ xs else x ∷ insert_ival i xs

-- What tree.h documents of them, on search trees: splaying keeps the order and brings an element
-- that compares equal to the key to the root, or else a neighbour of the key; insertion puts an
-- element that is not there in its place; removal at the root takes out the root.
pub record IsSplay (ops : SplayOps) : Type 0 where
  pub flatten-splay :
      (b e : ℕ) (s : Tree) (k : Ival)
      → Span b e (flatten s)
      → k.lo < k.hi + 1
      → flatten (ops.splay s k) ≡ flatten s
  pub splay_left :
      (b e : ℕ) (s l r : Tree) (k x : Ival)
      → Span b e (flatten s)
      → k.lo < k.hi + 1
      → ops.splay s k ≡ node l x r
      → ival_cmp k x ≡ below
      → All (λ y. ival_cmp y k ≡ below) (flatten l)
  pub splay_right :
      (b e : ℕ) (s l r : Tree) (k x : Ival)
      → Span b e (flatten s)
      → k.lo < k.hi + 1
      → ops.splay s k ≡ node l x r
      → ival_cmp k x ≡ above
      → All (λ y. ival_cmp k y ≡ below) (flatten r)
  pub flatten-splay_insert :
      (b e : ℕ) (s : Tree) (i : Ival)
      → Span b e (flatten s)
      → i.lo < i.hi + 1
      → All (λ y. ival_eq i y ≡ false) (flatten s)
      → flatten (ops.splay_insert s i) ≡ insert_ival i (flatten s)
  pub flatten-splay_remove :
      (b e : ℕ) (l r : Tree) (x : Ival)
      → Span b e (flatten (node l x r))
      → flatten (ops.splay_remove (node l x r) x) ≡ flatten l ++ flatten r
