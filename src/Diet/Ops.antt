-- ===== src/Diet/Ops.antt =====
-- The operations of lib/src/diet.c. Pointers to nodes are places in the tree; `free` has no trace.
use quant.Base.{
  ℕ, zero, suc, max, Bool, false, Option, none, some, ltb, leb, ◌==◌, ◌&&◌, ◌||◌, if◌then◌else◌,
  add64, sub64,
}
use quant.Diet.Tree.{Ival, Tree, leaf, node, Diet, SplayOps}

-- `find_max` and `find_min`: the interval at the end of the right or left spine.
unfoldable pub find_max : Tree → Option Ival
find_max leaf = none
find_max (node l x leaf) = some x
find_max (node l x (node rl y rr)) = find_max (node rl y rr)

unfoldable pub find_min : Tree → Option Ival
find_min leaf = none
find_min (node leaf x r) = some x
find_min (node (node ll y lr) x r) = find_min (node ll y lr)

-- Writes through the pointer that `find_max` returned: `f` on the interval, `r` as right child.
unfoldable pub graft_max : (Ival → Ival) → Tree → Tree → Tree
graft_max f r leaf = leaf
graft_max f r (node l x leaf) = node l (f x) r
graft_max f r (node l x (node rl y rr)) = node l x (graft_max f r (node rl y rr))

unfoldable pub graft_min : (Ival → Ival) → Tree → Tree → Tree
graft_min f l leaf = leaf
graft_min f l (node leaf x r) = node l (f x) r
graft_min f l (node (node ll y lr) x r) = node (graft_min f l (node ll y lr)) x r

abbrev pub mk_ival : ℕ → ℕ → Ival
mk_ival n t = record { lo = n; hi = n; t = t }

-- The interval at the root, with a bound moved by one and the later time stamp.
abbrev pub touch : ℕ → Ival → Ival
touch t x = record x { t = max x.t t }

abbrev pub grow_lo : ℕ → Ival → Ival
grow_lo t x = record x { lo = sub64 x.lo 1; t = max x.t t }

abbrev pub grow_hi : ℕ → Ival → Ival
grow_hi t x = record x { hi = add64 x.hi 1; t = max x.t t }

abbrev pub mk_diet : Tree → ℕ → Diet
mk_diet s n = record { root = s; cnt = n }

-- The interval at the root; `none` is the null pointer.
abbrev pub root_ival : Tree → Option Ival
root_ival leaf = none
root_ival (node l x r) = some x

-- "check if we can merge the new root with its max left child"
unfoldable pub merge_below : Tree → Ival → Tree → ℕ → ℕ → Diet
merge_below l x r cnt t = elim (find_max l) [
  | none ↦ mk_diet (node l x r) cnt
  | some m ↦
      if m.hi == sub64 x.lo 1
      then mk_diet (graft_max (λ m. record m { hi = x.hi; t = max m.t t }) r l) (sub64 cnt 1)
      else mk_diet (node l x r) cnt
]

-- "check if we can merge the new root with its min right child"
unfoldable pub merge_above : Tree → Ival → Tree → ℕ → ℕ → Diet
merge_above l x r cnt t = elim (find_min r) [
  | none ↦ mk_diet (node l x r) cnt
  | some m ↦
      if m.lo == add64 x.hi 1
      then mk_diet (graft_min (λ m. record m { lo = x.lo; t = max m.t t }) l r) (sub64 cnt 1)
      else mk_diet (node l x r) cnt
]

abbrev pub ends_before : ℕ → Option Ival → Bool
ends_before n none = false
ends_before n (some m) = add64 m.hi 1 == n

abbrev pub starts_after : ℕ → Option Ival → Bool
starts_after n none = false
starts_after n (some m) = sub64 m.lo 1 == n

-- The case `n < root->lo`; `none` is `goto new_ival`.
unfoldable pub insert_below : Tree → Ival → Tree → ℕ → ℕ → ℕ → Option Diet
insert_below l x r cnt n t =
    if add64 n 1 == x.lo
    then some (merge_below l (grow_lo t x) r cnt t)
    else if ends_before n (find_max l)
    then some (merge_below (graft_max (grow_hi t) leaf l) x r cnt t)
    else none

-- The case `n > root->hi`.
unfoldable pub insert_above : Tree → Ival → Tree → ℕ → ℕ → ℕ → Option Diet
insert_above l x r cnt n t =
    if n == add64 x.hi 1
    then some (merge_above l (grow_hi t x) r cnt t)
    else if starts_after n (find_min r)
    then some (merge_above l x (graft_min (grow_lo t) leaf r) cnt t)
    else none

unfoldable pub insert_root : Tree → ℕ → ℕ → ℕ → Option Diet
insert_root leaf cnt n t = none
insert_root (node l x r) cnt n t =
    if leb x.lo n && leb n x.hi
    then some (mk_diet (node l (touch t x) r) cnt)
    else if ltb n x.lo
    then insert_below l x r cnt n t
    else insert_above l x r cnt n t

-- The root split in two around the interval from `lo` to `hi`.
unfoldable pub split_root : Tree → ℕ → ℕ → ℕ → Diet
split_root leaf cnt lo hi = mk_diet leaf cnt
split_root (node l x r) cnt lo hi =
    mk_diet
      (node l (record { lo = x.lo; hi = sub64 lo 1; t = x.t })
        (node leaf (record x { lo = add64 hi 1 }) r))
      (add64 cnt 1)

module _ (ops : SplayOps) where
  open ops use {splay, splay_insert, splay_remove}

  -- The tree is splayed on the way.
  unfoldable pub diet_find : Diet → ℕ → Diet × Option Ival
  diet_find d n = elim d.root [
    | leaf ↦ (d, none)
    | node l x r ↦
        let s = splay d.root (mk_ival n 0) in
        (
          record d { root = s },
          elim (root_ival s) [
            | none ↦ none
            | some y ↦ if ltb n y.lo || ltb y.hi n then none else some y
          ],
        )
  ]

  -- The new diet, and the interval that the returned pointer points at.
  unfoldable pub diet_insert : Diet → ℕ → ℕ → Diet × Option Ival
  unfolding diet_find
  diet_insert d n t =
      let found = (diet_find d n).0 in
      elim (insert_root found.root found.cnt n t) [
        | some d' ↦ (d', root_ival d'.root)
        | none ↦ (
          mk_diet (splay_insert found.root (mk_ival n t)) (add64 found.cnt 1),
          some (mk_ival n t),
        )
      ]

  -- `free(splay_remove(diet, d, splay_root(d)))`
  abbrev remove_root : Tree → ℕ → Diet
  remove_root leaf cnt = mk_diet leaf cnt
  remove_root (node l x r) cnt = mk_diet (splay_remove (node l x r) x) (sub64 cnt 1)

  unfoldable pub take_from_root : Tree → ℕ → ℕ → Diet
  unfolding split_root
  take_from_root leaf cnt n = mk_diet leaf cnt
  take_from_root (node l x r) cnt n =
      if ltb n x.lo || ltb x.hi n
      then mk_diet (node l x r) cnt
      else if n == x.lo
      then (if n == x.hi
          then remove_root (node l x r) cnt
          else mk_diet (node l (record x { lo = add64 x.lo 1 }) r) cnt)
      else if n == x.hi
      then mk_diet (node l (record x { hi = sub64 x.hi 1 }) r) cnt
      else split_root (node l x r) cnt n n

  unfoldable pub diet_remove : Diet → ℕ → Diet
  unfolding diet_find take_from_root
  diet_remove d n = let found = (diet_find d n).0 in take_from_root found.root found.cnt n

  -- What one round of `diet_remove_ival` comes to: the diet that it returns with, or the diet and
  -- the bounds with which it jumps back to `again`.
  pub data Round : Type 0 where
    returns : Diet → Round
    again : Diet → ℕ → ℕ → Round

  unfoldable pub remove_round : Tree → ℕ → ℕ → ℕ → Round
  unfolding split_root
  remove_round leaf cnt lo hi = returns (mk_diet leaf cnt)
  remove_round (node l x r) cnt lo hi =
      if ltb hi x.lo || ltb x.hi lo
      then returns (mk_diet (node l x r) cnt)
      else if ltb x.lo lo
      then (if ltb hi x.hi
          then returns (split_root (node l x r) cnt lo hi)
          else if ltb x.hi hi
          then again (mk_diet (node l (record x { hi = sub64 lo 1 }) r) cnt) (add64 x.hi 1) hi
          else returns (mk_diet (node l (record x { hi = sub64 lo 1 }) r) cnt))
      else if ltb lo x.lo
      then (if ltb hi x.hi
          then again (mk_diet (node l (record x { lo = add64 hi 1 }) r) cnt) lo (sub64 x.lo 1)
          else again (remove_root (node l x r) cnt) lo (if leb hi x.hi then sub64 x.lo 1 else hi))
      else if ltb hi x.hi
      then returns (mk_diet (node l (record x { lo = add64 hi 1 }) r) cnt)
      else again (remove_root (node l x r) cnt) lo (add64 x.hi 1)

  -- The loop: every round splays for the whole interval `i`. `none` means that the fuel ran out.
  unfoldable pub remove_ival_loop : ℕ → Ival → Diet → ℕ → ℕ → Option Diet
  unfolding remove_round
  remove_ival_loop zero i d lo hi = none
  remove_ival_loop (suc f) i d lo hi = elim d.root [
    | leaf ↦ some d
    | node l x r ↦ elim (remove_round (splay d.root i) d.cnt lo hi) [
      | returns d' ↦ some d'
      | again d' lo' hi' ↦ remove_ival_loop f i d' lo' hi'
    ]
  ]
