-- ===== src/Diet/Insert.antt =====
-- `diet_insert` of lib/src/diet.c adds one number to the set.
use quant.Base.{
  inl, inr, Bool-cases, ltb, leb, All, false, ℕ, ◌+◌, ◌≤◌, ◌<◌, ◌≡◌, refl, sym, ap, subst, ◌∙◌,
  List, [], ◌++◌, Option, none, some, IsU64, arith, length, ◌==◌, ◌||◌, add64, length-append,
}
use quant.Diet.Tree.{
  ival_eq, insert_ival, Ival, Tree, leaf, node, Diet, flatten, SplayOps, IsSplay, Span,
}
use quant.Diet.Ops.{mk_ival, touch, mk_diet, insert_root, diet_insert, root_ival}
use quant.Diet.Span.{covers, IsDiet, length-Span, insert_ival-between, no_eq_between}
use quant.Diet.Near.{Near, near, splay-Near}
use quant.Diet.Adding.{
  IsWf, Adds, Outcome, grown, room, grown_same, length-mid, length-replaced, replace-Adds,
  fresh-Adds, end, mids,
}
use quant.Diet.Below.{insert_below-Outcome}
use quant.Diet.Above.{insert_above-Outcome}

-- The interval at the root holds `n`.
inside_root :
    (n t cnt : ℕ) (l r : Tree) (x : Ival)
    → Span 0 x.lo (flatten l)
    → Span (x.hi + 2) end (flatten r)
    → x.lo ≤ n
    → n ≤ x.hi
    → cnt ≡ length (mids (flatten l) x (flatten r))
    → Outcome n (mids (flatten l) x (flatten r)) (some (mk_diet (node l (touch t x) r) cnt))
inside_root n t cnt l r x left right lo hi count =
    grown_same n cnt (node l (touch t x) r) _ _ _ count refl refl
      (length-replaced (flatten l) (flatten r) x (touch t x))
      (replace-Adds n x (touch t x) (flatten l) (flatten r) left (omega arith) right
        (λ m. ground arith))

root_cases :
    (n t cnt : ℕ) (l r : Tree) (x : Ival)
    → IsU64 n
    → Span 0 x.lo (flatten l)
    → x.lo < x.hi + 1
    → Span (x.hi + 2) end (flatten r)
    → (n < x.lo → Span 0 (n + 1) (flatten l))
    → (x.hi < n → Span (n + 1) end (flatten r))
    → cnt ≡ length (mids (flatten l) x (flatten r))
    → Outcome n (mids (flatten l) x (flatten r)) (insert_root (node l x r) cnt n t)
unfolding insert_root
root_cases n t cnt l r x u left order right nl nr count = elim (Bool-cases (ltb n x.lo)) [
  | inl low ↦ subst (Outcome n _) (ground arith) (
      insert_below-Outcome n t cnt l r x u (nl (ground arith)) (omega arith) right (ground arith)
        count)
  | inr high ↦ elim (Bool-cases (leb n x.hi)) [
    | inl in_root ↦
        subst (Outcome n _) (ground arith)
          (inside_root n t cnt l r x left right (ground arith) (ground arith) count)
    | inr above ↦ subst (Outcome n _) (ground arith) (
        insert_above-Outcome n t cnt l r x u left (omega arith) (nr (ground arith)) (ground arith)
          count)
  ]
]

Near-Outcome :
    (n t cnt : ℕ) (xs : List Ival) (s : Tree)
    → IsU64 n
    → cnt ≡ length xs
    → Near n xs s
    → Outcome n xs (insert_root s cnt n t)
Near-Outcome n t cnt xs _ u c (near l r x f left order right nl nr) =
    subst (λ ys. Outcome n ys (insert_root (node l x r) cnt n t)) f
      (root_cases n t cnt l r x u left order right nl nr (c ∙ ap length (sym f)))

empty-Outcome : (n t : ℕ) → IsU64 n → Outcome n [] (insert_root leaf 0 n t)
unfolding insert_root
empty-Outcome n t u = room [] [] refl (omega arith) (omega arith)

-- A diet with one number more.
abbrev pub Inserted : ℕ → Diet → Diet → Type 0
Inserted n d d' =
    IsWf d' × ((m : ℕ) → covers m (flatten d'.root) ≡ (m == n || covers m (flatten d.root)))

module _ (ops : SplayOps) (laws : IsSplay ops) where
  open ops use {splay, splay_insert}
  open laws use {flatten-splay, flatten-splay_insert}

  -- The rest of `diet_insert`, from an outcome on.
  abbrev finish : Tree → ℕ → ℕ → ℕ → Option Diet → Diet
  finish s cnt n t (some d) = d
  finish s cnt n t none = mk_diet (splay_insert s (mk_ival n t)) (add64 cnt 1)

  finish-Inserted :
      (n t : ℕ) (d : Diet) (s : Tree) (o : Option Diet)
      → IsWf d
      → flatten s ≡ flatten d.root
      → Outcome n (flatten d.root) o
      → Inserted n d (finish s d.cnt n t o)
  finish-Inserted n t d s _ w f (grown d' w' a) = (w', a.members)
  finish-Inserted n t d s _ w f (room ls rs e left right) = (
    record { span = subst IsDiet (sym flat) added.span; count = counted },
    λ m. ap (covers m) flat ∙ added.members m ∙ ap (λ xs. m == n || covers m xs) e,
  )
    where
      added : Adds n (ls ++ rs) (mids ls (mk_ival n t) rs)
      added = fresh-Adds n t ls rs left right

      flat : flatten (splay_insert s (mk_ival n t)) ≡ mids ls (mk_ival n t) rs
      flat =
          flatten-splay_insert 0 end s (mk_ival n t) (subst IsDiet (sym f) w.span) (omega arith) (
            subst (All (λ y. ival_eq (mk_ival n t) y ≡ false)) (e ∙ sym f)
              (no_eq_between 0 n end (mk_ival n t) ls rs refl refl left right))
          ∙ ap (insert_ival (mk_ival n t)) (f ∙ sym e)
          ∙ insert_ival-between 0 n end (mk_ival n t) ls rs refl left right

      counted : add64 d.cnt 1 ≡ length (flatten (splay_insert s (mk_ival n t)))
      counted = omega (
        arith,
        ap length flat,
        length-mid ls rs (mk_ival n t),
        ap length e,
        length-append ls rs,
        length-Span 0 end (mids ls (mk_ival n t) rs) added.span,
      )

  -- The first part of the pair that `diet_insert` returns.
  finish_lem :
      (s : Tree) (cnt n t : ℕ) (o : Option Diet)
      → (let both : Diet × Option Ival = elim o [
        | some d ↦ (d, root_ival d.root)
        | none ↦ (mk_diet (splay_insert s (mk_ival n t)) (add64 cnt 1), some (mk_ival n t))
      ] in
          both.0)
        ≡ finish s cnt n t o
  finish_lem s cnt n t none = refl
  finish_lem s cnt n t (some d) = refl

  insert_run :
      (s : Tree) (cnt n t : ℕ)
      → IsWf (mk_diet s cnt)
      → IsU64 n
      → Inserted n (mk_diet s cnt) (diet_insert ops (mk_diet s cnt) n t).0
  unfolding diet_insert
  insert_run leaf cnt n t w u =
      subst (Inserted n (mk_diet leaf cnt))
        (sym (finish_lem leaf cnt n t (insert_root leaf cnt n t)))
        (finish-Inserted n t (mk_diet leaf cnt) leaf (insert_root leaf cnt n t) w refl
          (unfold insert_root in room [] [] refl (omega arith) (omega arith)))
  insert_run (node l x r) cnt n t w u =
      let s = splay (node l x r) (mk_ival n 0) in
      subst (Inserted n (mk_diet (node l x r) cnt))
        (sym (finish_lem s cnt n t (insert_root s cnt n t)))
        (finish-Inserted n t (mk_diet (node l x r) cnt) s (insert_root s cnt n t) w
          (flatten-splay 0 end (node l x r) (mk_ival n 0) w.span (omega arith))
          (Near-Outcome n t cnt (flatten (node l x r)) s u w.count
            (splay-Near ops laws (node l x r) n w.span u (λ e. cc))))

  -- Inserting a 64-bit number into a well-formed diet gives a well-formed diet, which holds that
  -- number and exactly those it held before; so intervals that come to touch are merged.
  pub diet_insert-Inserted :
      (d : Diet) (n t : ℕ) → IsWf d → IsU64 n → Inserted n d (diet_insert ops d n t).0
  diet_insert-Inserted d n t w u = insert_run d.root d.cnt n t w u
