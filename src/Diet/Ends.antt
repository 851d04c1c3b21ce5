-- ===== src/Diet/Ends.antt =====
-- `diet_remove_ival` of lib/src/diet.c: its loop ends, and takes out nothing beside the range.
use quant.Base.{
  ℕ, zero, suc, ◌^◌, ◌≤◌, ◌<◌, ◌≡◌, refl, sym, ap, subst, ◌∙◌, inl, inr, true, false, ◌&&◌, Option,
  some, List, [], arith, leb, length,
}
use quant.Diet.Tree.{Ival, Tree, leaf, node, Diet, flatten, SplayOps, IsSplay}
use quant.Diet.Ops.{mk_diet, remove_round, remove_ival_loop, Round, returns, again}
use quant.Diet.Span.{covers, IsDiet}
use quant.Diet.Adding.{IsWf, end}
use quant.Diet.Meets.{meets, meets-le-length, Shrinks}
use quant.Diet.Rounds.{RoundIs, tree_round, idle_round}

module _ (ops : SplayOps) (laws : IsSplay ops) (i : Ival) (ordered : i.lo ≤ i.hi) where
  open ops use {splay}
  open laws use {flatten-splay}

  after_round : ℕ → Round ops → Option Diet
  after_round f (returns d) = some d
  after_round f (again d lo hi) = remove_ival_loop ops f i d lo hi

  loop_round :
      (f cnt lo hi : ℕ) (l r : Tree) (x : Ival) (round : Round ops)
      → remove_round ops (splay (node l x r) i) cnt lo hi ≡ round
      → remove_ival_loop ops (suc f) i (mk_diet (node l x r) cnt) lo hi ≡ after_round f round
  unfolding remove_ival_loop after_round
  loop_round f cnt lo hi l r x (returns d) e = rw (remove_ival_loop, e)
  loop_round f cnt lo hi l r x (again d lo' hi') e = rw (remove_ival_loop, e)

  -- The splayed tree holds the same intervals.
  splayed : (s : Tree) (cnt : ℕ) → IsWf (mk_diet s cnt) → flatten (splay s i) ≡ flatten s
  splayed s cnt w = flatten-splay 0 end s i w.span (omega arith)

  splayed-IsWf : (s : Tree) (cnt : ℕ) → IsWf (mk_diet s cnt) → IsWf (mk_diet (splay s i) cnt)
  splayed-IsWf s cnt w = record {
    span = subst IsDiet (sym (splayed s cnt w)) w.span;
    count = w.count ∙ ap length (sym (splayed s cnt w));
  }

  -- What the loop comes to.
  abbrev Ended : ℕ → ℕ → ℕ → Tree → ℕ → Type 0
  Ended f lo hi s cnt =
      (d' : Diet) × (remove_ival_loop ops f i (mk_diet s cnt) lo hi ≡ some d')
      × IsWf d'
      × Shrinks lo hi (flatten s) (flatten d'.root)

  Shrinks-refl : (lo hi : ℕ) (xs ys : List Ival) → ys ≡ xs → Shrinks lo hi xs ys
  Shrinks-refl lo hi xs ys e = record {
    less = λ m h. sym (ap (covers m) e) ∙ h;
    kept = λ m h. ap (covers m) e;
  }

  idle_ends :
      (f cnt lo hi : ℕ) (s : Tree)
      → IsWf (mk_diet s cnt)
      → meets lo hi (flatten s) ≡ 0
      → 0 < f
      → (d' : Diet) × (remove_ival_loop ops f i (mk_diet s cnt) lo hi ≡ some d')
        × IsWf d'
        × (flatten d'.root ≡ flatten s)
  unfolding remove_ival_loop after_round
  idle_ends zero cnt lo hi s w h p = absurd (omega arith)
  idle_ends (suc f) cnt lo hi leaf w h p = (mk_diet leaf cnt, refl, w, refl)
  idle_ends (suc f) cnt lo hi (node l x r) w h p =
      let t = splay (node l x r) i in
      let e = splayed (node l x r) cnt w in
      (
        mk_diet t cnt,
        loop_round f cnt lo hi l r x (returns (mk_diet t cnt))
            (idle_round ops cnt lo hi t (ap (meets lo hi) e ∙ h)),
        splayed-IsWf (node l x r) cnt w,
        e,
      )

  -- What follows a round, where the rest of the loop ends.
  round_ends :
      (f cnt lo hi : ℕ) (l r : Tree) (x : Ival) (xs : List Ival) (round : Round ops)
      → remove_round ops (splay (node l x r) i) cnt lo hi ≡ round
      → xs ≡ flatten (node l x r)
      → RoundIs ops lo hi xs round
      → hi < 2 ^ 64
      → meets lo hi xs < suc f
      → ((s : Tree) (cnt' lo' hi' : ℕ)
          → IsWf (mk_diet s cnt')
          → lo' ≤ hi'
          → hi' < 2 ^ 64
          → meets lo' hi' (flatten s) < f
          → Ended f lo' hi' s cnt')
      → Ended (suc f) lo hi (node l x r) cnt
  unfolding after_round
  round_ends f cnt lo hi l r x xs (returns d) e g (w, k) u m loop = (
    d,
    loop_round f cnt lo hi l r x (returns d) e,
    w,
    subst (λ ys. Shrinks lo hi ys (flatten d.root)) g k,
  )
  round_ends f cnt lo hi l r x xs (again d lo' hi') e g (w, k, inl (a, o, b, c)) u m loop =
      let (d', q, w', k') = loop d.root d.cnt lo' hi' w o (omega arith) (omega arith) in
      (
        d',
        loop_round f cnt lo hi l r x (again d lo' hi') e ∙ q,
        w',
        record {
          less = λ n h. sym (ap (covers n) g) ∙ k.less n (k'.less n h);
          kept = λ n h. k'.kept n (ground arith) ∙ k.kept n h ∙ ap (covers n) g;
        },
      )
  round_ends f cnt lo hi l r x xs (again d lo' hi') e g (w, k, inr (z, p)) u m loop =
      let (d', q, w', k') = idle_ends f d.cnt lo' hi' d.root w z (omega arith) in
      (
        d',
        loop_round f cnt lo hi l r x (again d lo' hi') e ∙ q,
        w',
        record {
          less = λ n h. sym (ap (covers n) g) ∙ k.less n (sym (ap (covers n) k') ∙ h);
          kept = λ n h. ap (covers n) k' ∙ k.kept n h ∙ ap (covers n) g;
        },
      )

  loop_ends :
      (f : ℕ) (s : Tree) (cnt lo hi : ℕ)
      → IsWf (mk_diet s cnt)
      → lo ≤ hi
      → hi < 2 ^ 64
      → meets lo hi (flatten s) < f
      → Ended f lo hi s cnt
  unfolding remove_ival_loop
  loop_ends zero s cnt lo hi w o u m = absurd (omega arith)
  loop_ends (suc f) leaf cnt lo hi w o u m =
      (mk_diet leaf cnt, refl, w, Shrinks-refl lo hi [] [] refl)
  loop_ends (suc f) (node l x r) cnt lo hi w o u m =
      let t = splay (node l x r) i in
      let e = splayed (node l x r) cnt w in
      round_ends f cnt lo hi l r x (flatten t) (remove_round ops t cnt lo hi) refl e
        (tree_round ops laws cnt lo hi t o u (splayed-IsWf (node l x r) cnt w)) u
        (omega (arith, ap (meets lo hi) e)) (loop_ends f)

module _ (ops : SplayOps) (laws : IsSplay ops) where
  -- On a well-formed diet, and for an interval of 64-bit numbers, the loop of diet_remove_ival ends
  -- after at most one round more than the diet has intervals; the diet is well formed then, holds
  -- nothing new, and still holds every number that it held outside of the interval.
  pub remove_ival_loop_ends :
      (fuel : ℕ) (i : Ival) (d : Diet)
      → IsWf d
      → i.lo ≤ i.hi
      → i.hi < 2 ^ 64
      → length (flatten d.root) < fuel
      → (d' : Diet) × (remove_ival_loop ops fuel i d i.lo i.hi ≡ some d')
        × IsWf d'
        × ((m : ℕ) → covers m (flatten d'.root) ≡ true → covers m (flatten d.root) ≡ true)
        × ((m : ℕ)
            → leb i.lo m && leb m i.hi ≡ false
            → covers m (flatten d'.root) ≡ covers m (flatten d.root))
  remove_ival_loop_ends fuel i d w o u f =
      let (d', e, w', k) =
        loop_ends ops laws i o fuel d.root d.cnt i.lo i.hi w o u
          (omega (arith, meets-le-length i.lo i.hi (flatten d.root))) in
      (d', e, w', k.less, k.kept)
