-- ===== src/Diet/Views.antt =====
-- The two ends of a tree in lib/src/diet.c: what `find_max` and `find_min` return, and what a write
-- through the returned pointer does to the intervals in order.
use quant.Base.{
  ◌≡◌, refl, sym, ◌∙◌, ◌⊎◌, inl, inr, List, [], ◌∷◌, ◌++◌, Option, none, some, append_assoc,
}
use quant.Diet.Tree.{Ival, Tree, leaf, node, flatten}
use quant.Diet.Ops.{find_max, find_min, graft_max, graft_min}

abbrev last : List Ival → Option Ival
last [] = none
last (x ∷ []) = some x
last (x ∷ y ∷ xs) = last (y ∷ xs)

abbrev first : List Ival → Option Ival
first [] = none
first (x ∷ xs) = some x

last-append : (xs ys : List Ival) (y : Ival) → last (xs ++ y ∷ ys) ≡ last (y ∷ ys)
last-append [] ys y = refl
last-append (x ∷ []) ys y = refl
last-append (x ∷ z ∷ xs) ys y = last-append (z ∷ xs) ys y

first-append :
    (xs ys zs : List Ival) (y : Ival) → first ((xs ++ y ∷ ys) ++ zs) ≡ first (xs ++ y ∷ ys)
first-append [] ys zs y = refl
first-append (x ∷ xs) ys zs y = refl

find_max-last : (s : Tree) → find_max s ≡ last (flatten s)
unfolding find_max
find_max-last leaf = refl
find_max-last (node l x leaf) = sym (last-append (flatten l) [] x)
find_max-last (node l x (node rl y rr)) =
    find_max-last (node rl y rr)
    ∙ rw (last-append (flatten rl) (flatten rr) y, last-append (flatten l) _ x)
        (deeper (flatten rl))
  where
    deeper : (zs : List Ival) → last (y ∷ flatten rr) ≡ last (x ∷ (zs ++ y ∷ flatten rr))
    deeper zs = sym (last-append (x ∷ zs) (flatten rr) y)

find_min-first : (s : Tree) → find_min s ≡ first (flatten s)
unfolding find_min
find_min-first leaf = refl
find_min-first (node leaf x r) = refl
find_min-first (node (node ll y lr) x r) =
    find_min-first (node ll y lr) ∙ sym (first-append (flatten ll) (flatten lr) (x ∷ flatten r) y)

-- The last interval `m` behind the others, and the tree after a write.
pub record Max (s : Tree) : Type 0 where
  pub front : List Ival
  pub m : Ival
  pub shape : flatten s ≡ front ++ m ∷ []
  pub grafted : (f : Ival → Ival) (r : Tree) → flatten (graft_max f r s) ≡ front ++ f m ∷ flatten r

pub record Min (s : Tree) : Type 0 where
  pub back : List Ival
  pub m : Ival
  pub shape : flatten s ≡ m ∷ back
  pub grafted : (f : Ival → Ival) (l : Tree) → flatten (graft_min f l s) ≡ flatten l ++ f m ∷ back

Max-step : (l rl rr : Tree) (x y : Ival) → Max (node rl y rr) → Max (node l x (node rl y rr))
unfolding graft_max
Max-step l rl rr x y v = record {
  front = flatten l ++ x ∷ v.front;
  m = v.m;
  shape = rw (v.shape, append_assoc) refl;
  grafted = λ f r. rw (v.grafted f r, append_assoc) refl;
}

pub Max-of : (l : Tree) (x : Ival) (r : Tree) → Max (node l x r)
unfolding graft_max
Max-of l x leaf = record { front = flatten l; m = x; shape = refl; grafted = λ f r. refl }
Max-of l x (node rl y rr) = Max-step l rl rr x y (Max-of rl y rr)

Min-step : (ll lr r : Tree) (y x : Ival) → Min (node ll y lr) → Min (node (node ll y lr) x r)
unfolding graft_min
Min-step ll lr r y x v = record {
  back = v.back ++ x ∷ flatten r;
  m = v.m;
  shape = rw (v.shape) refl;
  grafted = λ f l. rw (v.grafted f l, append_assoc) refl;
}

pub Min-of : (l : Tree) (x : Ival) (r : Tree) → Min (node l x r)
unfolding graft_min
Min-of leaf x r = record { back = flatten r; m = x; shape = refl; grafted = λ f l. refl }
Min-of (node ll y lr) x r = Min-step ll lr r y x (Min-of ll y lr)

-- The pointers: null for the empty tree, else the end.
pub find_max-append :
    (s : Tree) (xs : List Ival) (m : Ival) → flatten s ≡ xs ++ m ∷ [] → find_max s ≡ some m
find_max-append s xs m e = rw (find_max-last s, e) (last-append xs [] m)

pub find_min-cons :
    (s : Tree) (xs : List Ival) (m : Ival) → flatten s ≡ m ∷ xs → find_min s ≡ some m
find_min-cons s xs m e = rw (find_min-first s, e)

-- Every tree is empty or has both ends.
pub Max-cases : (s : Tree) → ((s ≡ leaf) × (find_max s ≡ none)) ⊎ Max s
unfolding find_max
Max-cases leaf = inl (refl, refl)
Max-cases (node l x r) = inr (Max-of l x r)

pub Min-cases : (s : Tree) → ((s ≡ leaf) × (find_min s ≡ none)) ⊎ Min s
unfolding find_min
Min-cases leaf = inl (refl, refl)
Min-cases (node l x r) = inr (Min-of l x r)
