-- ===== src/Diet/Below.antt =====
-- `diet_insert` of lib/src/diet.c for a number below the root's interval.
use quant.Base.{
  ℕ, ◌+◌, ◌^◌, ◌≤◌, ◌<◌, ◌≡◌, refl, sym, subst, inl, inr, [], ◌∷◌, ◌++◌, none, some, IsU64, arith,
  append_assoc, length, ◌==◌, sub64, Bool-cases, max,
}
use quant.Diet.Tree.{Ival, Tree, leaf, node, flatten, Span}
use quant.Diet.Ops.{find_max, graft_max, grow_lo, grow_hi, mk_diet, merge_below, insert_below}
use quant.Diet.Span.{Span-le, Span-split, Span-join}
use quant.Diet.Views.{Max, Max-cases, find_max-append}
use quant.Diet.Adding.{
  Outcome, room, grown_same, grown_less, length-mid, length-replaced, mids, end, replace-Adds,
  bridge-Adds, sub64_one, add64_one,
}

module _ (n t cnt : ℕ) (l r : Tree) (x : Ival) (u : IsU64 n) (left : Span 0 (n + 1) (flatten l))
    (order : x.lo ≤ x.hi) (right : Span (x.hi + 2) end (flatten r)) (low : n < x.lo)
    (count : cnt ≡ length (mids (flatten l) x (flatten r))) where
  abbrev Goal : Type 0
  Goal = Outcome n (mids (flatten l) x (flatten r)) (insert_below l x r cnt n t)

  top : x.hi < 2 ^ 64
  top = omega (arith, Span-le (x.hi + 2) end (flatten r) right)

  -- The root grows, and nothing below it is next to `n`.
  grow_root :
      n + 1 ≡ x.lo
      → Span 0 n (flatten l)
      → Outcome n (mids (flatten l) x (flatten r)) (some (mk_diet (node l (grow_lo t x) r) cnt))
  grow_root e s =
      grown_same n cnt (node l (grow_lo t x) r) _ _ _ count refl refl
        (length-replaced (flatten l) (flatten r) x (grow_lo t x))
        (replace-Adds n x (grow_lo t x) (flatten l) (flatten r)
          (subst (λ k. Span 0 k (flatten l)) (sym (sub64_one n x.lo u e)) s) (omega arith) right
          (λ m. ground arith))

  apart : n + 1 < x.lo → Span 0 n (flatten l) → Outcome n (mids (flatten l) x (flatten r)) none
  apart e s = room (flatten l) (x ∷ flatten r) refl s (omega arith, omega arith, right)

  alone : l ≡ leaf → find_max l ≡ none → Goal
  unfolding insert_below merge_below
  alone e f = elim (Bool-cases (n + 1 == x.lo)) [
    | inl next ↦
        subst (Outcome n _) (ground (arith, f, top))
          (grow_root (ground arith) (subst (λ k. Span 0 n (flatten k)) (sym e) (omega arith)))
    | inr gap ↦
        subst (Outcome n _) (ground (arith, f, top))
          (apart (ground arith) (subst (λ k. Span 0 n (flatten k)) (sym e) (omega arith)))
  ]

  module _ (v : Max l) where
    open v use {front, m, shape, grafted}

    abbrev merge_into : Ival → Ival
    merge_into m = record m { hi = x.hi; t = max m.t t }

    parts : Span 0 m.lo front × (m.lo < m.hi + 1) × (m.hi + 2 < n + 1 + 1)
    parts = Span-split 0 (n + 1) front [] m (subst (Span 0 (n + 1)) shape left)

    pieces : mids (flatten l) x (flatten r) ≡ front ++ m ∷ x ∷ flatten r
    pieces = rw (shape, append_assoc) refl

    -- The interval below the root ends just before `n`, and the root begins just after it.
    bridge :
        n + 1 ≡ x.lo
        → m.hi + 1 ≡ n
        → Outcome n
            (mids (flatten l) x (flatten r))
            (some (mk_diet (graft_max merge_into r l) (sub64 cnt 1)))
    bridge e f =
        grown_less n cnt (graft_max merge_into r l) _ _ _ count pieces (grafted merge_into r)
          (omega (
            arith,
            length-mid front (flatten r) (merge_into m),
            length-mid front (x ∷ flatten r) m,
          ))
          (bridge-Adds n m x (merge_into m) front (flatten r) parts.0 (omega (arith, parts.1)) f e
            order right refl refl)

    -- Only the interval below the root is next to `n`.
    grow_below :
        n + 1 < x.lo
        → m.hi + 1 ≡ n
        → Outcome n
            (mids (flatten l) x (flatten r))
            (some (mk_diet (node (graft_max (grow_hi t) leaf l) x r) cnt))
    grow_below e f =
        let up = add64_one n m.hi u f in
        grown_same n cnt (node (graft_max (grow_hi t) leaf l) x r) _ _ _ count pieces
          (grown_flat (graft_max (grow_hi t) leaf l) (grafted (grow_hi t) leaf))
          (length-replaced front (x ∷ flatten r) m (grow_hi t m))
          (replace-Adds n m (grow_hi t m) front (x ∷ flatten r) parts.0 (omega (arith, parts.1))
            (omega arith, omega arith, right) (λ i. ground (arith, parts.1)))
      where
        grown_flat :
            (s : Tree)
            → flatten s ≡ front ++ grow_hi t m ∷ []
            → flatten (node s x r) ≡ front ++ grow_hi t m ∷ x ∷ flatten r
        grown_flat s g = rw (g, append_assoc) refl

    free : m.hi + 1 < n → Span 0 n (flatten l)
    free e = subst (Span 0 n) (sym shape) (Span-join 0 n front [] m parts.0 parts.1 (omega arith))

    found : find_max l ≡ some m
    found = find_max-append l front m shape

    still_found : find_max (graft_max (grow_hi t) leaf l) ≡ some (grow_hi t m)
    still_found =
        find_max-append (graft_max (grow_hi t) leaf l) front (grow_hi t m)
          (grafted (grow_hi t) leaf)

    beside : Goal
    unfolding insert_below merge_below
    beside = elim (Bool-cases (n + 1 == x.lo)) [
      | inl next ↦ elim (Bool-cases (m.hi + 1 == n)) [
        | inl touching ↦
            subst (Outcome n _) (ground (arith, found, top)) (bridge (ground arith) (ground arith))
        | inr loose ↦
            subst (Outcome n _) (ground (arith, found, top, parts.2))
              (grow_root (ground arith) (free (ground (arith, parts.2))))
      ]
      | inr gap ↦ elim (Bool-cases (m.hi + 1 == n)) [
        | inl touching ↦
            subst (Outcome n _) (ground (arith, found, still_found, top))
              (grow_below (ground arith) (ground arith))
        | inr loose ↦
            subst (Outcome n _) (ground (arith, found, top, parts.2))
              (apart (ground arith) (free (ground (arith, parts.2))))
      ]
    ]

  pub insert_below-Outcome : Goal
  insert_below-Outcome = elim (Max-cases l) [ inl (e, f) ↦ alone e f | inr v ↦ beside v ]
