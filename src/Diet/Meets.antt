-- ===== src/Diet/Meets.antt =====
-- How many intervals a range meets, and what stays of a list of them: the measure of the loop of
-- `diet_remove_ival` in lib/src/diet.c.
use quant.Base.{
  ℕ, ◌+◌, ◌≤◌, ◌<◌, ◌≡◌, refl, true, false, ◌&&◌, ◌||◌, List, [], ◌∷◌, ◌++◌, arith, ltb, leb,
  if◌then◌else◌, length,
}
use quant.Diet.Tree.{Ival, Diet, flatten, Span}
use quant.Diet.Span.{covers, Span-le}
use quant.Diet.Adding.{IsWf}
use quant.Diet.Remove.{Removal}

-- How many intervals share a number with the range.
abbrev pub meets : ℕ → ℕ → List Ival → ℕ
meets lo hi [] = 0
meets lo hi (x ∷ xs) = (if ltb hi x.lo || ltb x.hi lo then 0 else 1) + meets lo hi xs

pub meets-append :
    (lo hi : ℕ) (xs ys : List Ival) → meets lo hi (xs ++ ys) ≡ meets lo hi xs + meets lo hi ys
meets-append lo hi [] ys = omega arith
meets-append lo hi (x ∷ xs) ys = ground (arith, meets-append lo hi xs ys)

pub meets-le-length : (lo hi : ℕ) (xs : List Ival) → meets lo hi xs ≤ length xs
meets-le-length lo hi [] = omega arith
meets-le-length lo hi (x ∷ xs) = ground (arith, meets-le-length lo hi xs)

-- A smaller range meets no more intervals.
pub meets_mono :
    (lo lo' hi hi' : ℕ) (xs : List Ival) → lo ≤ lo' → hi' ≤ hi → meets lo' hi' xs ≤ meets lo hi xs
meets_mono lo lo' hi hi' [] p q = omega arith
meets_mono lo lo' hi hi' (x ∷ xs) p q = ground (arith, meets_mono lo lo' hi hi' xs p q)

pub meets_above : (b e lo hi : ℕ) (xs : List Ival) → Span b e xs → hi < b → meets lo hi xs ≡ 0
meets_above b e lo hi [] s h = refl
meets_above b e lo hi (x ∷ xs) s h =
    ground (arith, meets_above (x.hi + 2) e lo hi xs s.2 (omega arith))

pub meets_below : (b e lo hi : ℕ) (xs : List Ival) → Span b e xs → e ≤ lo + 1 → meets lo hi xs ≡ 0
meets_below b e lo hi [] s h = refl
meets_below b e lo hi (x ∷ xs) s h =
    ground (arith, meets_below (x.hi + 2) e lo hi xs s.2 h, Span-le (x.hi + 2) e xs s.2)

-- `ys` holds some of the numbers of `xs`, and all of those outside of the range.
pub record Shrinks (lo hi : ℕ) (xs ys : List Ival) : Type 0 where
  pub less : (m : ℕ) → covers m ys ≡ true → covers m xs ≡ true
  pub kept : (m : ℕ) → leb lo m && leb m hi ≡ false → covers m ys ≡ covers m xs

pub Removal-Shrinks :
    (lo hi a b : ℕ) (xs : List Ival) (d : Diet)
    → lo ≤ a
    → b ≤ hi
    → Removal a b xs d
    → IsWf d × Shrinks lo hi xs (flatten d.root)
Removal-Shrinks lo hi a b xs d p q (w, h) =
    (w, record { less = λ m. ground (arith, h m); kept = λ m. ground (arith, h m) })

-- A smaller range, and fewer intervals that share a number with it.
abbrev pub Fewer : ℕ → ℕ → List Ival → ℕ → ℕ → List Ival → Type 0
Fewer lo hi xs lo' hi' ys =
    (lo ≤ lo') × (lo' ≤ hi') × (hi' ≤ hi) × (meets lo' hi' ys < meets lo hi xs)
