-- ===== src/Diet/Above.antt =====
-- `diet_insert` of lib/src/diet.c for a number above the root's interval.
use quant.Base.{
  ℕ, ◌+◌, ◌^◌, ◌≤◌, ◌<◌, ◌≡◌, refl, sym, subst, inl, inr, [], ◌∷◌, ◌++◌, none, some, IsU64, arith,
  append_assoc, length, ◌==◌, sub64, Bool-cases, max,
}
use quant.Diet.Tree.{Ival, Tree, leaf, node, flatten, Span}
use quant.Diet.Ops.{find_min, graft_min, grow_lo, grow_hi, mk_diet, merge_above, insert_above}
use quant.Diet.Span.{Span-join, Span-le}
use quant.Diet.Views.{Min, Min-cases, find_min-cons}
use quant.Diet.Adding.{
  Outcome, room, grown_same, grown_less, length-mid, length-replaced, mids, end, replace-Adds,
  bridge-Adds, sub64_one, add64_one,
}

module _ (n t cnt : ℕ) (l r : Tree) (x : Ival) (u : IsU64 n) (left : Span 0 x.lo (flatten l))
    (order : x.lo ≤ x.hi) (right : Span (n + 1) end (flatten r)) (high : x.hi < n)
    (count : cnt ≡ length (mids (flatten l) x (flatten r))) where
  abbrev Goal : Type 0
  Goal = Outcome n (mids (flatten l) x (flatten r)) (insert_above l x r cnt n t)

  -- The root grows, and nothing above it is next to `n`.
  grow_root :
      x.hi + 1 ≡ n
      → Span (n + 2) end (flatten r)
      → Outcome n (mids (flatten l) x (flatten r)) (some (mk_diet (node l (grow_hi t x) r) cnt))
  grow_root e s =
      let up = add64_one n x.hi u e in
      grown_same n cnt (node l (grow_hi t x) r) _ _ _ count refl refl
        (length-replaced (flatten l) (flatten r) x (grow_hi t x))
        (replace-Adds n x (grow_hi t x) (flatten l) (flatten r) left (omega arith)
          (subst (λ k. Span (k + 2) end (flatten r)) (sym up) s) (λ m. ground arith))

  below_n : x.hi + 1 < n → Span 0 n (flatten l ++ x ∷ [])
  below_n e = Span-join 0 n (flatten l) [] x left (omega arith) (omega arith)

  apart :
      x.hi + 1 < n → Span (n + 2) end (flatten r) → Outcome n (mids (flatten l) x (flatten r)) none
  apart e s =
      room (flatten l ++ x ∷ []) (flatten r) (append_assoc (flatten l) (x ∷ []) (flatten r))
        (below_n e) s

  alone : r ≡ leaf → find_min r ≡ none → Goal
  unfolding insert_above merge_above
  alone e f = elim (Bool-cases (n == x.hi + 1)) [
    | inl next ↦
        subst (Outcome n _) (ground (arith, f)) (
          grow_root (ground arith)
            (subst (λ k. Span (n + 2) end (flatten k)) (sym e) (omega arith)))
    | inr gap ↦
        subst (Outcome n _) (ground (arith, f))
          (apart (ground arith) (subst (λ k. Span (n + 2) end (flatten k)) (sym e) (omega arith)))
  ]

  module _ (v : Min r) where
    open v use {back, m, shape, grafted}

    abbrev merge_into : Ival → Ival
    merge_into m = record m { lo = x.lo; t = max m.t t }

    parts : (n + 1 < m.lo + 1) × (m.lo < m.hi + 1) × Span (m.hi + 2) end back
    parts = subst (Span (n + 1) end) shape right

    pieces : mids (flatten l) x (flatten r) ≡ flatten l ++ x ∷ m ∷ back
    pieces = rw shape refl

    -- The root ends just before `n`, and the interval above it begins just after.
    bridge :
        x.hi + 1 ≡ n
        → n + 1 ≡ m.lo
        → Outcome n
            (mids (flatten l) x (flatten r))
            (some (mk_diet (graft_min merge_into l r) (sub64 cnt 1)))
    bridge e f =
        grown_less n cnt (graft_min merge_into l r) _ _ _ count pieces (grafted merge_into l)
          (omega (
            arith,
            length-mid (flatten l) back (merge_into m),
            length-mid (flatten l) (m ∷ back) x,
          ))
          (bridge-Adds n x m (merge_into m) (flatten l) back left order e f (omega (arith, parts.1))
            parts.2 refl refl)

    -- Only the interval above the root is next to `n`.
    grow_above :
        x.hi + 1 < n
        → n + 1 ≡ m.lo
        → Outcome n
            (mids (flatten l) x (flatten r))
            (some (mk_diet (node l x (graft_min (grow_lo t) leaf r)) cnt))
    grow_above e f =
        let down = sub64_one n m.lo u f in
        grown_same n cnt (node l x (graft_min (grow_lo t) leaf r)) _
          (mids (flatten l ++ x ∷ []) m back) (mids (flatten l ++ x ∷ []) (grow_lo t m) back) count
          (rw (pieces, append_assoc) refl) (rw (grafted (grow_lo t) leaf, append_assoc) refl)
          (length-replaced (flatten l ++ x ∷ []) back m (grow_lo t m))
          (replace-Adds n m (grow_lo t m) (flatten l ++ x ∷ []) back
            (subst (λ k. Span 0 k (flatten l ++ x ∷ [])) (sym down) (below_n e))
            (omega (arith, parts.1)) parts.2 (λ i. ground (arith, parts.1)))

    free : n + 1 < m.lo → Span (n + 2) end (flatten r)
    free e = subst (Span (n + 2) end) (sym shape) (omega arith, parts.1, parts.2)

    top : m.lo < 2 ^ 64
    top = omega (arith, Span-le (m.hi + 2) end back parts.2, parts.1)

    found : find_min r ≡ some m
    found = find_min-cons r back m shape

    still_found : find_min (graft_min (grow_lo t) leaf r) ≡ some (grow_lo t m)
    still_found =
        find_min-cons (graft_min (grow_lo t) leaf r) back (grow_lo t m) (grafted (grow_lo t) leaf)

    beside : Goal
    unfolding insert_above merge_above
    beside = elim (Bool-cases (n == x.hi + 1)) [
      | inl next ↦ elim (Bool-cases (m.lo == n + 1)) [
        | inl touching ↦
            subst (Outcome n _) (ground (arith, found, top)) (bridge (ground arith) (ground arith))
        | inr loose ↦
            subst (Outcome n _) (ground (arith, found, top, parts.0))
              (grow_root (ground arith) (free (ground (arith, parts.0))))
      ]
      | inr gap ↦ elim (Bool-cases (m.lo == n + 1)) [
        | inl touching ↦
            subst (Outcome n _) (ground (arith, found, still_found, top))
              (grow_above (ground arith) (ground arith))
        | inr loose ↦
            subst (Outcome n _) (ground (arith, found, top, parts.0))
              (apart (ground arith) (free (ground (arith, parts.0))))
      ]
    ]

  pub insert_above-Outcome : Goal
  insert_above-Outcome = elim (Min-cases r) [ inl (e, f) ↦ alone e f | inr v ↦ beside v ]
