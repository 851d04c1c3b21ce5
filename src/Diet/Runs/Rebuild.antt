-- ===== src/Diet/Runs/Rebuild.antt =====
-- A lawful choice of the splay operations that lib/src/diet.c takes from tree.h.
use quant.Base.{ℕ, ◌+◌, ◌<◌, ◌≡◌, refl, ap, subst, ◌∙◌, List, [], ◌∷◌, ◌++◌, All, arith}
use quant.Diet.Tree.{
  Ival, Tree, leaf, node, flatten, Sign, below, same, above, ival_cmp, SplayOps, IsSplay, Span,
  insert_ival,
}

-- A tree that leans to the right.
unfoldable pub build : List Ival → Tree
build [] = leaf
build (x ∷ xs) = node leaf x (build xs)

abbrev under : Ival → Tree → Tree
under x leaf = node leaf x leaf
under x (node l y r) = node (node leaf x l) y r

abbrev pub place : Sign → Ival → Tree → Tree → Tree
place above x stay go = go
place same x stay go = stay
place below x stay go = stay

-- The first interval that the key is not above becomes the root, or else the last one.
unfoldable pub splay_list : Ival → List Ival → Tree
splay_list k [] = leaf
splay_list k (x ∷ []) = node leaf x leaf
splay_list k (x ∷ y ∷ xs) =
    place (ival_cmp k x) x (node leaf x (build (y ∷ xs))) (under x (splay_list k (y ∷ xs)))

unfoldable pub remove_first : Tree → Ival → Tree
unfolding build
remove_first leaf x = leaf
remove_first (node l y r) x = build (flatten l ++ flatten r)

unfoldable pub insert_list : Tree → Ival → Tree
unfolding build
insert_list s i = build (insert_ival i (flatten s))

abbrev pub rebuild : SplayOps
rebuild = record {
  splay = λ s k. splay_list k (flatten s);
  splay_insert = insert_list;
  splay_remove = remove_first;
}

flatten-build : (xs : List Ival) → flatten (build xs) ≡ xs
unfolding build
flatten-build [] = refl
flatten-build (x ∷ xs) = ap (λ (ys : List Ival). x ∷ ys) (flatten-build xs)

flatten-under : (x : Ival) (s : Tree) → flatten (under x s) ≡ x ∷ flatten s
flatten-under x leaf = refl
flatten-under x (node l y r) = refl

flatten-place :
    (c : Sign) (x : Ival) (s u : Tree) (xs : List Ival)
    → flatten s ≡ xs
    → flatten u ≡ xs
    → flatten (place c x s u) ≡ xs
flatten-place above x s u xs e f = f
flatten-place same x s u xs e f = e
flatten-place below x s u xs e f = e

flatten-splay_list : (k : Ival) (xs : List Ival) → flatten (splay_list k xs) ≡ xs
unfolding splay_list
flatten-splay_list k [] = refl
flatten-splay_list k (x ∷ []) = refl
flatten-splay_list k (x ∷ y ∷ xs) =
    flatten-place (ival_cmp k x) x _ _ (x ∷ y ∷ xs)
      (ap (λ (ys : List Ival). x ∷ ys) (flatten-build (y ∷ xs)))
      (flatten-under x (splay_list k (y ∷ xs))
        ∙ ap (λ (ys : List Ival). x ∷ ys) (flatten-splay_list k (y ∷ xs)))

-- The key lies between the left subtree and the right one.
abbrev Between : Ival → Tree → Type 0
Between k leaf = Unit {0}
Between k (node l x r) =
    All (λ y. ival_cmp y k ≡ below) (flatten l)
    × (ival_cmp k x ≡ above → All (λ y. ival_cmp k y ≡ below) (flatten r))

Between-under : (k x : Ival) (s : Tree) → ival_cmp x k ≡ below → Between k s → Between k (under x s)
Between-under k x leaf e b = (tt, λ h. tt)
Between-under k x (node l y r) e b = ((e, b.0), b.1)

cmp_flip : (k x : Ival) → ival_cmp k x ≡ above → ival_cmp x k ≡ below
unfolding ival_cmp
cmp_flip k x h = ground arith

Between-place :
    (k x : Ival) (s u : Tree) (c : Sign)
    → ival_cmp k x ≡ c
    → Between k u
    → Between k (place c x (node leaf x s) (under x u))
Between-place k x s u above e b = Between-under k x u (cmp_flip k x e) b
Between-place k x s u same e b = (tt, λ h. cc)
Between-place k x s u below e b = (tt, λ h. cc)

splay_list-Between :
    (b e : ℕ) (k : Ival) (xs : List Ival)
    → Span b e xs
    → k.lo < k.hi + 1
    → Between k (splay_list k xs)
unfolding splay_list
splay_list-Between b e k [] s o = tt
splay_list-Between b e k (x ∷ []) s o = (tt, λ h. tt)
splay_list-Between b e k (x ∷ y ∷ xs) s o =
    Between-place k x (build (y ∷ xs)) (splay_list k (y ∷ xs)) (ival_cmp k x) refl
      (splay_list-Between (x.hi + 2) e k (y ∷ xs) s.2 o)

pub rebuild-IsSplay : IsSplay rebuild
unfolding insert_list remove_first
rebuild-IsSplay = record {
  flatten-splay = λ b e s k w o. flatten-splay_list k (flatten s);
  splay_left =
      λ b e s l r k x w o h c. (subst (Between k) h (splay_list-Between b e k (flatten s) w o)).0;
  splay_right =
      λ b e s l r k x w o h c. (subst (Between k) h (splay_list-Between b e k (flatten s) w o)).1 c;
  flatten-splay_insert = λ b e s i w o a. flatten-build (insert_ival i (flatten s));
  flatten-splay_remove = λ b e l r x w. flatten-build (flatten l ++ flatten r);
}
