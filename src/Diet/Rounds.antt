-- ===== src/Diet/Rounds.antt =====
-- One round of `diet_remove_ival` of lib/src/diet.c: what it takes out, and how many intervals are
-- left for the rounds after it.
use quant.Base.{
  ℕ, ◌+◌, ◌^◌, ◌≤◌, ◌<◌, ◌≡◌, refl, sym, ap, subst, ◌∙◌, ◌⊎◌, inl, inr, true, false, not, ◌&&◌,
  ◌||◌, List, ◌∷◌, ◌++◌, arith, ltb, leb, if◌then◌else◌, Bool-cases, length, length-append, add64,
  sub64,
}
use quant.Diet.Tree.{Ival, Tree, leaf, node, flatten, SplayOps, IsSplay, Span}
use quant.Diet.Ops.{mk_diet, split_root, remove_round, Round, returns, again}
use quant.Diet.Meets.{
  meets, meets-append, meets_mono, meets_above, meets_below, Shrinks, Fewer, Removal-Shrinks,
}
use quant.Diet.Span.{covers, IsDiet, Span-le, Span-join, Span-split, length-Span}
use quant.Diet.Adding.{IsWf, mids, end, inside, length-mid, length-replaced}
use quant.Diet.Remove.{cut_whole, cut_part, cut_middle, Span-drop, Removal, removal}

module _ (ops : SplayOps) where
  -- What a round owes to the next one: its range lies in the old one and meets fewer intervals, or
  -- it meets none at all.
  abbrev pub RoundIs : ℕ → ℕ → List Ival → Round ops → Type 0
  RoundIs lo hi xs (returns d) = IsWf d × Shrinks lo hi xs (flatten d.root)
  RoundIs lo hi xs (again d lo' hi') =
      IsWf d
      × Shrinks lo hi xs (flatten d.root)
      × (Fewer lo hi xs lo' hi' (flatten d.root)
          ⊎ (meets lo' hi' (flatten d.root) ≡ 0) × (0 < meets lo hi xs))

  -- With a range that meets no interval a round returns.
  pub idle_round :
      (cnt lo hi : ℕ) (s : Tree)
      → meets lo hi (flatten s) ≡ 0
      → remove_round ops s cnt lo hi ≡ returns (mk_diet s cnt)
  unfolding remove_round
  idle_round cnt lo hi leaf h = refl
  idle_round cnt lo hi (node l x r) h =
      ground (arith, meets-append lo hi (flatten l) (x ∷ flatten r))

module _ (ops : SplayOps) (laws : IsSplay ops) where
  open ops use {splay_remove}
  open laws use {flatten-splay_remove}

  -- A round with the interval `x` at the root.
  module _ (cnt lo hi : ℕ) (l r : Tree) (x : Ival) (order : lo ≤ hi) (small : hi < 2 ^ 64)
      (left : Span 0 x.lo (flatten l)) (mid : x.lo < x.hi + 1)
      (right : Span (x.hi + 2) end (flatten r))
      (count : cnt ≡ length (mids (flatten l) x (flatten r))) where
    whole : IsDiet (mids (flatten l) x (flatten r))
    whole = Span-join 0 end (flatten l) (flatten r) x left mid right

    top : x.hi < 2 ^ 64
    top = omega (arith, Span-le (x.hi + 2) end (flatten r) right)

    met :
        meets lo hi (mids (flatten l) x (flatten r))
        ≡ meets lo hi (flatten l)
          + ((if ltb hi x.lo || ltb x.hi lo then 0 else 1) + meets lo hi (flatten r))
    met = meets-append lo hi (flatten l) (x ∷ flatten r)

    fewer :
        (lo' hi' : ℕ) (x' : Ival)
        → ltb hi x.lo || ltb x.hi lo ≡ false
        → lo ≤ lo'
        → hi' ≤ hi
        → ltb hi' x'.lo || ltb x'.hi lo' ≡ true
        → meets lo' hi' (mids (flatten l) x' (flatten r))
          < meets lo hi (mids (flatten l) x (flatten r))
    fewer lo' hi' x' h p q e = ground (
      arith,
      met,
      meets-append lo' hi' (flatten l) (x' ∷ flatten r),
      meets_mono lo lo' hi hi' (flatten l) p q,
      meets_mono lo lo' hi hi' (flatten r) p q,
    )

    fewer_gone :
        (hi' : ℕ)
        → ltb hi x.lo || ltb x.hi lo ≡ false
        → hi' ≤ hi
        → meets lo hi' (flatten l ++ flatten r) < meets lo hi (mids (flatten l) x (flatten r))
    fewer_gone hi' h q = ground (
      arith,
      met,
      meets-append lo hi' (flatten l) (flatten r),
      meets_mono lo lo hi hi' (flatten l) (omega arith) q,
      meets_mono lo lo hi hi' (flatten r) (omega arith) q,
    )

    none_left : (a b : ℕ) → x.lo ≤ a + 1 → b < x.hi + 2 → meets a b (flatten l ++ flatten r) ≡ 0
    none_left a b p q = omega (
      arith,
      meets-append a b (flatten l) (flatten r),
      meets_below 0 x.lo a b (flatten l) left p,
      meets_above (x.hi + 2) end a b (flatten r) right q,
    )

    root_hit : ltb hi x.lo || ltb x.hi lo ≡ false → 0 < meets lo hi (mids (flatten l) x (flatten r))
    root_hit h = ground (arith, met)

    root_gone :
        IsWf (mk_diet (splay_remove (node l x r) x) (sub64 cnt 1))
        × ((m : ℕ)
            → covers m (flatten (splay_remove (node l x r) x))
              ≡ (not (leb x.lo m && leb m x.hi) && covers m (mids (flatten l) x (flatten r))))
    root_gone =
        removal x.lo x.hi (sub64 cnt 1) (splay_remove (node l x r) x) _ _
          (flatten-splay_remove 0 end l r x whole)
          (omega (
            arith,
            length-mid (flatten l) (flatten r) x,
            length-append (flatten l) (flatten r),
            length-Span 0 end (mids (flatten l) x (flatten r)) whole,
          ))
          (cut_whole x.lo x.hi (flatten l) (flatten r) x left mid right (omega arith) (omega arith)
            (omega arith) refl refl (Span-drop 0 end (flatten l) (flatten r) x left mid right))

    -- The interval at the root loses the numbers from `a` to `b`, at one of its ends.
    cut_end :
        (a b : ℕ) (x' : Ival)
        → x.lo ≤ a
        → b ≤ x.hi
        → a ≤ b
        → x.lo ≤ x'.lo
        → x'.lo < x'.hi + 1
        → x'.hi ≤ x.hi
        → ((m : ℕ) → inside m x' ≡ (not (leb a m && leb m b) && inside m x))
        → Removal a b (mids (flatten l) x (flatten r)) (mk_diet (node l x' r) cnt)
    cut_end a b x' p q o u v w e =
        removal a b cnt (node l x' r) _ _ refl
          (count ∙ length-replaced (flatten l) (flatten r) x' x)
          (cut_part a b (flatten l) (flatten r) x left mid right p q o x' u v w e)

    inner_split :
        x.lo < lo
        → hi < x.hi
        → Removal lo hi (mids (flatten l) x (flatten r)) (split_root (node l x r) cnt lo hi)
    unfolding split_root
    inner_split p q =
        let i : Ival = record { lo = x.lo; hi = sub64 lo 1; t = x.t } in
        let j : Ival = record x { lo = add64 hi 1 } in
        removal lo hi (add64 cnt 1) (node l i (node leaf j r)) _ _ refl
          (omega (
            arith,
            count,
            length-mid (flatten l) (flatten r) x,
            length-mid (flatten l) (j ∷ flatten r) i,
            length-Span 0 end (mids (flatten l) x (flatten r)) whole,
          ))
          (cut_middle lo hi (flatten l) (flatten r) x left mid right (omega arith) (omega arith)
            order i j refl (ground (arith, top, small)) (ground (arith, top, small)) refl p q)

    gone : flatten (splay_remove (node l x r) x) ≡ flatten l ++ flatten r
    gone = flatten-splay_remove 0 end l r x whole

    Shrinks-refl : Shrinks lo hi (mids (flatten l) x (flatten r)) (mids (flatten l) x (flatten r))
    Shrinks-refl = record { less = λ m h. h; kept = λ m h. refl }

    -- The range and the diet with which the next round begins.
    begin_later :
        x.lo < lo
        → x.hi < hi
        → ltb hi x.lo || ltb x.hi lo ≡ false
        → Fewer lo hi
            (mids (flatten l) x (flatten r))
            (add64 x.hi 1)
            hi
            (mids (flatten l) (record x { hi = sub64 lo 1 }) (flatten r))
    begin_later o p h = (
      ground (arith, small, top),
      ground (arith, small, top),
      omega arith,
      fewer (add64 x.hi 1) hi (record x { hi = sub64 lo 1 }) h (ground (arith, small, top))
          (omega arith) (ground (arith, small, top)),
    )

    end_sooner :
        hi < x.hi
        → lo < x.lo
        → x.lo ≤ hi
        → ltb hi x.lo || ltb x.hi lo ≡ false
        → Fewer lo hi
            (mids (flatten l) x (flatten r))
            lo
            (sub64 x.lo 1)
            (mids (flatten l) (record x { lo = add64 hi 1 }) (flatten r))
    end_sooner o p q h = (
      omega arith,
      ground (arith, small, top),
      ground (arith, small, top),
      fewer lo (sub64 x.lo 1) (record x { lo = add64 hi 1 }) h (omega arith)
          (ground (arith, small, top)) (ground (arith, small, top)),
    )

    without_root :
        lo < x.lo
        → ltb hi x.lo || ltb x.hi lo ≡ false
        → Fewer lo hi
            (mids (flatten l) x (flatten r))
            lo
            (if leb hi x.hi then sub64 x.lo 1 else hi)
            (flatten (splay_remove (node l x r) x))
    without_root p h =
        let hi' : ℕ = if leb hi x.hi then sub64 x.lo 1 else hi in
        let q : hi' ≤ hi = ground (arith, small) in
        (
          omega arith,
          ground (arith, small),
          q,
          subst (λ ys. meets lo hi' ys < meets lo hi (mids (flatten l) x (flatten r))) (sym gone)
              (fewer_gone hi' h q),
        )

    none_after : x.lo ≤ lo → meets lo (add64 x.hi 1) (flatten (splay_remove (node l x r) x)) ≡ 0
    none_after p =
        ap (meets lo (add64 x.hi 1)) gone
        ∙ none_left lo (add64 x.hi 1) (omega arith) (ground (arith, top))

    -- The interval at the root loses its upper or its lower end.
    keep_below :
        x.lo < lo
        → lo ≤ x.hi
        → x.hi ≤ hi
        → IsWf (mk_diet (node l (record x { hi = sub64 lo 1 }) r) cnt)
          × Shrinks lo hi
              (mids (flatten l) x (flatten r))
              (mids (flatten l) (record x { hi = sub64 lo 1 }) (flatten r))
    keep_below p q o =
        let e : sub64 lo 1 + 1 ≡ lo = ground (arith, small) in
        Removal-Shrinks lo hi lo x.hi _ _ (omega arith) o (
          cut_end lo x.hi (record x { hi = sub64 lo 1 }) (omega arith) (omega arith) q (omega arith)
            (omega (arith, e)) (omega (arith, e)) (λ m. ground (arith, e)))

    keep_above :
        lo ≤ x.lo
        → x.lo ≤ hi
        → hi < x.hi
        → IsWf (mk_diet (node l (record x { lo = add64 hi 1 }) r) cnt)
          × Shrinks lo hi
              (mids (flatten l) x (flatten r))
              (mids (flatten l) (record x { lo = add64 hi 1 }) (flatten r))
    keep_above p q o =
        let e : add64 hi 1 ≡ hi + 1 = ground (arith, top) in
        Removal-Shrinks lo hi x.lo hi _ _ p (omega arith) (
          cut_end x.lo hi (record x { lo = add64 hi 1 }) (omega arith) (omega arith) q
            (omega (arith, e)) (omega (arith, e)) (omega arith) (λ m. ground (arith, e)))

    drop_root :
        lo ≤ x.lo
        → x.hi ≤ hi
        → IsWf (mk_diet (splay_remove (node l x r) x) (sub64 cnt 1))
          × Shrinks lo hi (mids (flatten l) x (flatten r)) (flatten (splay_remove (node l x r) x))
    drop_root p q = Removal-Shrinks lo hi x.lo x.hi _ _ p q root_gone

    round_run :
        RoundIs ops lo hi (mids (flatten l) x (flatten r)) (remove_round ops (node l x r) cnt lo hi)
    unfolding remove_round
    round_run = elim (Bool-cases (ltb hi x.lo || ltb x.hi lo)) [
      | inl out ↦ rw out (record { span = whole; count = count }, Shrinks-refl)
      | inr h ↦ elim (Bool-cases (ltb x.lo lo)) [
        | inl a ↦ elim (Bool-cases (ltb hi x.hi)) [
          | inl b ↦
              rw (h, a, b)
                (Removal-Shrinks lo hi lo hi _ _ (omega arith) (omega arith)
                  (inner_split (ground arith) (ground arith)))
          | inr b ↦
              (let (w, k) = keep_below (ground arith) (ground arith) (ground arith) in
                elim (Bool-cases (ltb x.hi hi)) [
                  | inl e ↦
                      rw (h, a, b, e) (w, k, inl (begin_later (ground arith) (ground arith) h))
                  | inr e ↦ rw (h, a, b, e) (w, k)
                ])
        ]
        | inr a ↦ elim (Bool-cases (ltb lo x.lo)) [
          | inl b ↦ elim (Bool-cases (ltb hi x.hi)) [
            | inl e ↦
                (let (w, k) = keep_above (ground arith) (ground arith) (ground arith) in
                  rw (h, a, b, e)
                    (w, k, inl (end_sooner (ground arith) (ground arith) (ground arith) h)))
            | inr e ↦
                (let (w, k) = drop_root (ground arith) (ground arith) in
                  rw (h, a, b, e) (w, k, inl (without_root (ground arith) h)))
          ]
          | inr b ↦ elim (Bool-cases (ltb hi x.hi)) [
            | inl e ↦ rw (h, a, b, e) (keep_above (ground arith) (ground arith) (ground arith))
            | inr e ↦
                (let (w, k) = drop_root (ground arith) (ground arith) in
                  rw (h, a, b, e) (w, k, inr (none_after (ground arith), root_hit h)))
          ]
        ]
      ]
    ]

  pub tree_round :
      (cnt lo hi : ℕ) (s : Tree)
      → lo ≤ hi
      → hi < 2 ^ 64
      → IsWf (mk_diet s cnt)
      → RoundIs ops lo hi (flatten s) (remove_round ops s cnt lo hi)
  unfolding remove_round
  tree_round cnt lo hi leaf o u w = (w, record { less = λ m h. h; kept = λ m h. refl })
  tree_round cnt lo hi (node l x r) o u w =
      let (left, mid, right) = Span-split 0 end (flatten l) (flatten r) x w.span in
      round_run cnt lo hi l r x o u left mid right w.count
