-- ===== src/Ack/Down.antt =====
-- The intervals of a diet in the order in which `enc_ack_frame` (lib/src/frame.c) goes through them.
use quant.Base.{
  ℕ, ◌+◌, ◌-◌, ◌≤◌, ◌<◌, ◌≡◌, refl, List, [], ◌∷◌, ◌++◌, arith, length, All, length-append,
  All-append,
}
use quant.Diet.Tree.{Ival, Span}
use quant.Ack.Ops.{downward}
use quant.Ack.Ranges.{IsDown}

IsDown-snoc :
    (top : ℕ) (is : List Ival) (i : Ival)
    → IsDown top is
    → i.lo ≤ i.hi
    → i.hi < top
    → All (λ j. i.hi + 2 ≤ j.lo) is
    → IsDown top (is ++ i ∷ [])
IsDown-snoc top [] i d l h a = (h, l, tt)
IsDown-snoc top (j ∷ js) i (m, n, d) l h (b, a) =
    (m, n, IsDown-snoc (j.lo - 1) js i d l (omega (arith, b)) a)

All-downward : (P : Ival → Type 0) (is : List Ival) → All P is → All P (downward is)
All-downward P [] a = tt
All-downward P (i ∷ is) (p, a) = All-append P (downward is) (i ∷ []) (All-downward P is a) (p, tt)

All-mono : (P Q : Ival → Type 0) (is : List Ival) → ((i : Ival) → P i → Q i) → All P is → All Q is
All-mono P Q [] f a = tt
All-mono P Q (i ∷ is) f (p, a) = (f i p, All-mono P Q is f a)

Span-All : (b e : ℕ) (is : List Ival) → Span b e is → All (λ j. b ≤ j.lo) is
Span-All b e [] s = tt
Span-All b e (i ∷ is) (l, h, s) = (
  omega (arith, l),
  All-mono (λ j. i.hi + 2 ≤ j.lo) (λ j. b ≤ j.lo) is (λ j k. omega (arith, k, l, h))
      (Span-All (i.hi + 2) e is s),
)

-- The intervals of a diet of numbers below a bound, from the highest to the lowest.
pub IsDown-downward :
    (b e top : ℕ) (is : List Ival)
    → Span b e is
    → All (λ i. i.hi < top) is
    → IsDown top (downward is)
IsDown-downward b e top [] s a = tt
IsDown-downward b e top (i ∷ is) (l, h, s) (m, a) =
    IsDown-snoc top (downward is) i (IsDown-downward (i.hi + 2) e top is s a) (omega (arith, h)) m
      (All-downward (λ j. i.hi + 2 ≤ j.lo) is (Span-All (i.hi + 2) e is s))

pub length-downward : (is : List Ival) → length (downward is) ≡ length is
length-downward [] = refl
length-downward (i ∷ is) = ground (arith, length-append (downward is) (i ∷ []), length-downward is)
