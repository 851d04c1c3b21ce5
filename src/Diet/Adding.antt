-- ===== src/Diet/Adding.antt =====
-- What it takes to add one number to the intervals of a diet (lib/src/diet.c), list by list.
use quant.Base.{
  ℕ, ◌+◌, ◌^◌, ◌≤◌, ◌≡◌, sym, ap, subst, ◌∙◌, Bool, List, ◌∷◌, ◌++◌, Option, none, some, IsU64,
  arith, length, length-append, leb, ◌==◌, ◌||◌, ◌&&◌, add64, sub64,
}
use quant.Diet.Tree.{Ival, Tree, Diet, flatten, Span}
use quant.Diet.Ops.{mk_ival, mk_diet}
use quant.Diet.Span.{covers, covers-append, IsDiet, Span-join, length-Span}

-- A diet is well formed: the intervals are in order with gaps, and the counter counts them.
pub record IsWf (d : Diet) : Type 0 where
  pub span : IsDiet (flatten d.root)
  pub count : d.cnt ≡ length (flatten d.root)

-- The list `ys` has one number more than `xs`.
pub record Adds (n : ℕ) (xs ys : List Ival) : Type 0 where
  pub span : IsDiet ys
  pub members : (m : ℕ) → covers m ys ≡ (m == n || covers m xs)

abbrev pub end : ℕ
end = 2 ^ 64 + 1

abbrev pub mids : List Ival → Ival → List Ival → List Ival
mids xs x ys = xs ++ x ∷ ys

abbrev pub inside : ℕ → Ival → Bool
inside m x = leb x.lo m && leb m x.hi

-- One interval is replaced by another that also holds `n`.
pub replace-Adds :
    (n : ℕ) (x x' : Ival) (xs ys : List Ival)
    → Span 0 x'.lo xs
    → x'.lo ≤ x'.hi
    → Span (x'.hi + 2) end ys
    → ((m : ℕ) → inside m x' ≡ (m == n || inside m x))
    → Adds n (mids xs x ys) (mids xs x' ys)
unfolding covers
replace-Adds n x x' xs ys l o r e = record {
  span = Span-join 0 end xs ys x' l (omega arith) r;
  members = λ m. ground (arith, e m, covers-append m xs (x ∷ ys), covers-append m xs (x' ∷ ys));
}

-- Two intervals with only `n` between them become one.
pub bridge-Adds :
    (n : ℕ) (m x y : Ival) (xs ys : List Ival)
    → Span 0 m.lo xs
    → m.lo ≤ m.hi
    → m.hi + 1 ≡ n
    → n + 1 ≡ x.lo
    → x.lo ≤ x.hi
    → Span (x.hi + 2) end ys
    → y.lo ≡ m.lo
    → y.hi ≡ x.hi
    → Adds n (xs ++ m ∷ x ∷ ys) (mids xs y ys)
unfolding covers
bridge-Adds n m x y xs ys l o e f p r g h = record {
  span =
      Span-join 0 end xs ys y (subst (λ k. Span 0 k xs) (sym g) l) (omega arith)
        (subst (λ k. Span (k + 2) end ys) (sym h) r);
  members = λ i. ground (arith, covers-append i xs (m ∷ x ∷ ys), covers-append i xs (y ∷ ys));
}

-- A new interval between two others.
pub fresh-Adds :
    (n t : ℕ) (xs ys : List Ival)
    → Span 0 n xs
    → Span (n + 2) end ys
    → Adds n (xs ++ ys) (mids xs (mk_ival n t) ys)
unfolding covers
fresh-Adds n t xs ys l r = record {
  span = Span-join 0 end xs ys (mk_ival n t) l (omega arith) r;
  members = λ i. ground (arith, covers-append i xs ys, covers-append i xs (mk_ival n t ∷ ys));
}

-- The bounds of an interval that moves by one, without wrapping.
pub sub64_one : (n k : ℕ) → IsU64 n → n + 1 ≡ k → sub64 k 1 ≡ n
sub64_one n k h e = omega arith

pub add64_one : (n k : ℕ) → IsU64 n → k + 1 ≡ n → add64 k 1 ≡ n
add64_one n k h e = omega arith

-- What the part of `diet_insert` before `new_ival` comes to: a diet with `n` added, or a place for a
-- new interval, not next to another one.
pub data Outcome (n : ℕ) (xs : List Ival) : Option Diet → Type 0 where
  grown : (d : Diet) → IsWf d → Adds n xs (flatten d.root) → Outcome n xs (some d)
  room : (ls rs : List Ival) → ls ++ rs ≡ xs → Span 0 n ls → Span (n + 2) end rs → Outcome n xs none

-- An outcome with the same number of intervals, or with one less.
pub grown_same :
    (n cnt : ℕ) (s : Tree) (old xs ys : List Ival)
    → cnt ≡ length old
    → old ≡ xs
    → flatten s ≡ ys
    → length ys ≡ length xs
    → Adds n xs ys
    → Outcome n old (some (mk_diet s cnt))
grown_same n cnt s old xs ys c p e k a =
    grown (mk_diet s cnt)
      (record {
        span = subst IsDiet (sym e) a.span;
        count = c ∙ ap length p ∙ sym k ∙ ap length (sym e);
      })
      (subst (Adds n old) (sym e) (subst (λ zs. Adds n zs ys) (sym p) a))

pub grown_less :
    (n cnt : ℕ) (s : Tree) (old xs ys : List Ival)
    → cnt ≡ length old
    → old ≡ xs
    → flatten s ≡ ys
    → length xs ≡ length ys + 1
    → Adds n xs ys
    → Outcome n old (some (mk_diet s (sub64 cnt 1)))
grown_less n cnt s old xs ys c p e k a =
    grown (mk_diet s (sub64 cnt 1))
      (record {
        span = subst IsDiet (sym e) a.span;
        count = omega (arith, length-Span 0 end ys a.span, ap length e, ap length p);
      })
      (subst (Adds n old) (sym e) (subst (λ zs. Adds n zs ys) (sym p) a))

pub length-mid : (xs ys : List Ival) (x : Ival) → length (xs ++ x ∷ ys) ≡ length xs + length ys + 1
length-mid xs ys x = omega (arith, length-append xs (x ∷ ys))

pub length-replaced :
    (xs ys : List Ival) (x y : Ival) → length (mids xs y ys) ≡ length (mids xs x ys)
length-replaced xs ys x y = omega (arith, length-mid xs ys x, length-mid xs ys y)
