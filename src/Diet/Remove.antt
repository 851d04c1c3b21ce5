-- ===== src/Diet/Remove.antt =====
-- `diet_find` and `diet_remove` of lib/src/diet.c: membership, and taking one number out.
use quant.Base.{
  is_some, ℕ, ◌+◌, ◌^◌, ◌≤◌, ◌<◌, ◌≡◌, refl, sym, ap, subst, ◌∙◌, inl, inr, true, false, not, List,
  [], ◌∷◌, ◌++◌, Option, none, some, IsU64, arith, length, length-append, ltb, leb, ◌==◌, ◌||◌,
  ◌&&◌, add64, sub64, Bool-cases, if◌then◌else◌,
}
use quant.Diet.Tree.{Ival, Tree, leaf, node, Diet, flatten, SplayOps, IsSplay, Span}
use quant.Diet.Ops.{mk_ival, mk_diet, diet_find, diet_remove, take_from_root, split_root, root_ival}
use quant.Diet.Span.{
  covers, covers-append, covers_below, covers_above, IsDiet, Span-le, Span-lo, Span-hi, Span-join,
  length-Span,
}
use quant.Diet.Near.{Near, near, splay-Near}
use quant.Diet.Adding.{IsWf, mids, end, inside, length-mid, length-replaced}

-- `ys` holds what `xs` holds, but for the numbers from `lo` to `hi`.
pub record Cuts (lo hi : ℕ) (xs ys : List Ival) : Type 0 where
  pub span : IsDiet ys
  pub members : (m : ℕ) → covers m ys ≡ (not (leb lo m && leb m hi) && covers m xs)

module _ (lo hi : ℕ) (xs ys : List Ival) (x : Ival) (left : Span 0 x.lo xs)
    (order : x.lo < x.hi + 1) (right : Span (x.hi + 2) end ys) (low : x.lo ≤ lo) (high : hi ≤ x.hi)
    (range : lo ≤ hi) where
  -- The neighbours of `x` hold nothing of the range.
  others : (m : ℕ) → leb lo m && leb m hi ≡ true → (covers m xs ≡ false) × (covers m ys ≡ false)
  others m h = (
    covers_above 0 x.lo m xs left (ground arith),
    covers_below (x.hi + 2) end m ys right (ground arith),
  )

  pub cut_whole :
      lo ≡ x.lo → hi ≡ x.hi → Span 0 end (xs ++ ys) → Cuts lo hi (mids xs x ys) (xs ++ ys)
  unfolding covers
  cut_whole e f s = record {
    span = s;
    members = λ m. ground (arith, others m, covers-append m xs (x ∷ ys), covers-append m xs ys);
  }

  pub cut_part :
      (x' : Ival)
      → x.lo ≤ x'.lo
      → x'.lo < x'.hi + 1
      → x'.hi ≤ x.hi
      → ((m : ℕ) → inside m x' ≡ (not (leb lo m && leb m hi) && inside m x))
      → Cuts lo hi (mids xs x ys) (mids xs x' ys)
  unfolding covers
  cut_part x' a b c e = record {
    span =
        Span-join 0 end xs ys x' (Span-hi 0 x.lo x'.lo xs a left) b
          (Span-lo (x.hi + 2) (x'.hi + 2) end ys (omega arith) right);
    members = λ m.
        ground (arith, e m, others m, covers-append m xs (x ∷ ys), covers-append m xs (x' ∷ ys));
  }

  pub cut_middle :
      (i x' : Ival)
      → i.lo ≡ x.lo
      → i.hi + 1 ≡ lo
      → x'.lo ≡ hi + 1
      → x'.hi ≡ x.hi
      → x.lo < lo
      → hi < x.hi
      → Cuts lo hi (mids xs x ys) (xs ++ i ∷ x' ∷ ys)
  unfolding covers
  cut_middle i x' a b c d j k = record {
    span =
        Span-join 0 end xs (x' ∷ ys) i (subst (λ n. Span 0 n xs) (sym a) left) (omega arith)
          (omega arith, omega arith, subst (λ n. Span (n + 2) end ys) (sym d) right);
    members = λ m.
        ground (arith, others m, covers-append m xs (x ∷ ys), covers-append m xs (i ∷ x' ∷ ys));
  }

-- Without an interval the others keep their gaps.
pub Span-drop :
    (b e : ℕ) (xs ys : List Ival) (x : Ival)
    → Span b x.lo xs
    → x.lo < x.hi + 1
    → Span (x.hi + 2) e ys
    → Span b e (xs ++ ys)
Span-drop b e [] ys x l o r = Span-lo (x.hi + 2) b e ys (omega arith) r
Span-drop b e (y ∷ xs) ys x l o r = (l.0, l.1, Span-drop (y.hi + 2) e xs ys x l.2 o r)

abbrev pub Removal : ℕ → ℕ → List Ival → Diet → Type 0
Removal lo hi xs d =
    IsWf d × ((m : ℕ) → covers m (flatten d.root) ≡ (not (leb lo m && leb m hi) && covers m xs))

pub removal :
    (lo hi cnt : ℕ) (s : Tree) (xs ys : List Ival)
    → flatten s ≡ ys
    → cnt ≡ length ys
    → Cuts lo hi xs ys
    → Removal lo hi xs (mk_diet s cnt)
removal lo hi cnt s xs ys f c k = (
  record { span = subst IsDiet (sym f) k.span; count = c ∙ ap length (sym f) },
  λ m. ap (covers m) f ∙ k.members m,
)

-- Nothing of the range is there.
pub nothing_cut :
    (lo hi cnt : ℕ) (s : Tree) (xs : List Ival)
    → flatten s ≡ xs
    → cnt ≡ length xs
    → IsDiet xs
    → ((m : ℕ) → leb lo m && leb m hi ≡ true → covers m xs ≡ false)
    → Removal lo hi xs (mk_diet s cnt)
nothing_cut lo hi cnt s xs f c w e =
    removal lo hi cnt s xs xs f c (record { span = w; members = λ m. ground (arith, e m) })

-- The test with which `diet_find` ends.
abbrev root_hit : ℕ → Option Ival → Option Ival
root_hit n none = none
root_hit n (some y) = if ltb n y.lo || ltb y.hi n then none else some y

root_hit_lem :
    (n : ℕ) (o : Option Ival)
    → root_hit n o
      ≡ elim o [ none ↦ none | some y ↦ if ltb n y.lo || ltb y.hi n then none else some y ]
root_hit_lem n none = refl
root_hit_lem n (some y) = refl

module _ (ops : SplayOps) (laws : IsSplay ops) where
  open ops use {splay, splay_remove}
  open laws use {flatten-splay, flatten-splay_remove}

  root_removed :
      (n cnt : ℕ) (l r : Tree) (x : Ival)
      → IsU64 n
      → Span 0 x.lo (flatten l)
      → x.lo < x.hi + 1
      → Span (x.hi + 2) end (flatten r)
      → (n < x.lo → Span 0 (n + 1) (flatten l))
      → (x.hi < n → Span (n + 1) end (flatten r))
      → cnt ≡ length (mids (flatten l) x (flatten r))
      → Removal n n (mids (flatten l) x (flatten r)) (take_from_root ops (node l x r) cnt n)
  unfolding take_from_root split_root
  root_removed n cnt l r x u left order right nl nr count =
      elim (Bool-cases (ltb n x.lo || ltb x.hi n)) [
        | inl out ↦ rw out (nothing_cut n n cnt (node l x r) _ refl count whole (absent out))
        | inr here ↦ elim (Bool-cases (n == x.lo)) [
          | inl first ↦ elim (Bool-cases (n == x.hi)) [
            | inl only ↦
                rw (here, first, only)
                  (removal n n (sub64 cnt 1) (splay_remove (node l x r) x) _ _
                    (flatten-splay_remove 0 end l r x whole) one_less
                    (cut_whole n n (flatten l) (flatten r) x left order right (ground arith)
                      (ground arith) (omega arith) (ground arith) (ground arith)
                      (Span-drop 0 end (flatten l) (flatten r) x left order right)))
            | inr more ↦
                rw (here, first, more)
                  (removal n n cnt (node l (record x { lo = add64 x.lo 1 }) r) _ _ refl
                    (count
                      ∙ length-replaced (flatten l) (flatten r) (record x { lo = add64 x.lo 1 }) x)
                    (cut_part n n (flatten l) (flatten r) x left order right (ground arith)
                      (ground arith) (omega arith) (record x { lo = add64 x.lo 1 })
                      (ground (arith, top)) (ground (arith, top)) (omega arith)
                      (λ m. ground (arith, top))))
          ]
          | inr later ↦ elim (Bool-cases (n == x.hi)) [
            | inl final ↦
                rw (here, later, final)
                  (removal n n cnt (node l (record x { hi = sub64 x.hi 1 }) r) _ _ refl
                    (count
                      ∙ length-replaced (flatten l) (flatten r) (record x { hi = sub64 x.hi 1 }) x)
                    (cut_part n n (flatten l) (flatten r) x left order right (ground arith)
                      (ground arith) (omega arith) (record x { hi = sub64 x.hi 1 }) (omega arith)
                      (ground (arith, top)) (ground (arith, top)) (λ m. ground (arith, top))))
            | inr inner ↦
                rw (here, later, inner)
                  (removal n n (add64 cnt 1)
                    (node l (record { lo = x.lo; hi = sub64 n 1; t = x.t })
                      (node leaf (record x { lo = add64 n 1 }) r))
                    _ _ refl
                    (one_more (record { lo = x.lo; hi = sub64 n 1; t = x.t })
                      (record x { lo = add64 n 1 }))
                    (cut_middle n n (flatten l) (flatten r) x left order right (ground arith)
                      (ground arith) (omega arith) (record { lo = x.lo; hi = sub64 n 1; t = x.t })
                      (record x { lo = add64 n 1 }) refl (ground (arith, top)) (ground (arith, top))
                      refl (ground (arith, top)) (ground (arith, top))))
          ]
        ]
      ]
    where
      whole : IsDiet (mids (flatten l) x (flatten r))
      whole = Span-join 0 end (flatten l) (flatten r) x left order right

      top : x.hi < 2 ^ 64
      top = omega (arith, Span-le (x.hi + 2) end (flatten r) right)

      one_less : sub64 cnt 1 ≡ length (flatten l ++ flatten r)
      one_less = omega (
        arith,
        length-mid (flatten l) (flatten r) x,
        length-append (flatten l) (flatten r),
        length-Span 0 end (mids (flatten l) x (flatten r)) whole,
      )

      one_more : (i j : Ival) → add64 cnt 1 ≡ length (flatten l ++ i ∷ j ∷ flatten r)
      one_more i j = omega (
        arith,
        length-mid (flatten l) (flatten r) x,
        length-mid (flatten l) (j ∷ flatten r) i,
        length-Span 0 end (mids (flatten l) x (flatten r)) whole,
      )

      absent :
          ltb n x.lo || ltb x.hi n ≡ true
          → (m : ℕ) → leb n m && leb m n ≡ true
          → covers m (mids (flatten l) x (flatten r)) ≡ false
      absent out m h = elim (Bool-cases (ltb n x.lo)) [
        | inl low ↦
            unfold covers in
            ground (
              arith,
              covers-append m (flatten l) (x ∷ flatten r),
              covers_above 0 (n + 1) m (flatten l) (nl (ground arith)) (ground arith),
              covers_below (x.hi + 2) end m (flatten r) right (ground arith),
            )
        | inr high ↦
            unfold covers in
            ground (
              arith,
              covers-append m (flatten l) (x ∷ flatten r),
              covers_above 0 x.lo m (flatten l) left (ground arith),
              covers_below (n + 1) end m (flatten r) (nr (ground arith)) (ground arith),
            )
      ]

  Near-removed :
      (n cnt : ℕ) (xs : List Ival) (s : Tree)
      → IsU64 n
      → cnt ≡ length xs
      → Near n xs s
      → Removal n n xs (take_from_root ops s cnt n)
  Near-removed n cnt xs _ u c (near l r x f left order right nl nr) =
      subst (λ ys. Removal n n ys (take_from_root ops (node l x r) cnt n)) f
        (root_removed n cnt l r x u left order right nl nr (c ∙ ap length (sym f)))

  remove_run :
      (s : Tree) (cnt n : ℕ)
      → IsWf (mk_diet s cnt)
      → IsU64 n
      → Removal n n (flatten s) (diet_remove ops (mk_diet s cnt) n)
  unfolding diet_remove
  remove_run leaf cnt n w u =
      nothing_cut n n cnt leaf [] refl w.count w.span (λ m h. unfold covers in refl)
  remove_run (node l x r) cnt n w u =
      Near-removed n cnt (flatten (node l x r)) (splay (node l x r) (mk_ival n 0)) u w.count
        (splay-Near ops laws (node l x r) n w.span u (λ e. cc))

  -- Removing a 64-bit number from a well-formed diet gives a well-formed diet, which holds exactly
  -- the other numbers that it held before; so an interval is shortened, split or dropped.
  pub diet_remove_lem :
      (d : Diet) (n : ℕ)
      → IsWf d
      → IsU64 n
      → IsWf (diet_remove ops d n)
        × ((m : ℕ)
            → covers m (flatten (diet_remove ops d n).root)
              ≡ (not (m == n) && covers m (flatten d.root)))
  diet_remove_lem d n w u =
      let (w', h) = remove_run d.root d.cnt n w u in
      (w', λ m. h m ∙ ap (λ b. not b && covers m (flatten d.root)) (ground arith))

  -- What `diet_find` answers at a splayed root.
  Near-found :
      (n : ℕ) (xs : List Ival) (s : Tree)
      → Near n xs s
      → covers n xs ≡ is_some (root_hit n (root_ival s))
  unfolding covers
  Near-found n xs _ (near l r x f left order right nl nr) =
      ap (covers n) (sym f)
      ∙ ground (
        arith,
        covers-append n (flatten l) (x ∷ flatten r),
        covers_above 0 x.lo n (flatten l) left,
        covers_below (x.hi + 2) end n (flatten r) right,
        λ (k : n < x.lo). covers_above 0 (n + 1) n (flatten l) (nl k) (omega arith),
        λ (k : x.hi < n). covers_below (n + 1) end n (flatten r) (nr k) (omega arith),
      )

  find_run :
      (s : Tree) (cnt n : ℕ)
      → IsWf (mk_diet s cnt)
      → IsU64 n
      → (covers n (flatten s) ≡ is_some (diet_find ops (mk_diet s cnt) n).1)
        × (flatten (diet_find ops (mk_diet s cnt) n).0.root ≡ flatten s)
  unfolding diet_find covers
  find_run leaf cnt n w u = (refl, refl)
  find_run (node l x r) cnt n w u =
      let s = splay (node l x r) (mk_ival n 0) in
      (
        Near-found n (flatten (node l x r)) s
              (splay-Near ops laws (node l x r) n w.span u (λ e. cc))
            ∙ ap is_some (root_hit_lem n (root_ival s)),
        flatten-splay 0 end (node l x r) (mk_ival n 0) w.span (omega arith),
      )

  -- Looking for a 64-bit number in a well-formed diet returns an interval exactly when the diet
  -- holds the number, and leaves the same intervals in the same order.
  pub diet_find_lem :
      (d : Diet) (n : ℕ)
      → IsWf d
      → IsU64 n
      → (covers n (flatten d.root) ≡ is_some (diet_find ops d n).1)
        × (flatten (diet_find ops d n).0.root ≡ flatten d.root)
  diet_find_lem d n w u = find_run d.root d.cnt n w u
