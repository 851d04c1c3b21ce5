-- ===== src/Diet/Span.antt =====
-- Lists of intervals that a diet holds: bounds, membership, and how they split at an interval.
use quant.Base.{
  ℕ, ◌+◌, ◌*◌, ◌^◌, ◌≤◌, ◌<◌, ◌≡◌, refl, Bool, false, List, [], ◌∷◌, ◌++◌, leb, ◌&&◌, ◌||◌, All,
  All-append, length, arith,
}
use quant.Diet.Tree.{Ival, Span, insert_ival, ival_eq}

-- Whether `n` lies in one of the intervals.
unfoldable pub covers : ℕ → List Ival → Bool
covers n [] = false
covers n (x ∷ xs) = leb x.lo n && leb n x.hi || covers n xs

pub covers-append : (n : ℕ) (xs ys : List Ival) → covers n (xs ++ ys) ≡ (covers n xs || covers n ys)
unfolding covers
covers-append n [] ys = refl
covers-append n (x ∷ xs) ys = ground (arith, covers-append n xs ys)

-- The intervals of a diet of 64-bit numbers.
abbrev pub IsDiet : List Ival → Type 0
IsDiet = Span 0 (2 ^ 64 + 1)

pub Span-le : (b e : ℕ) (xs : List Ival) → Span b e xs → b ≤ e
Span-le b e [] h = omega arith
Span-le b e (x ∷ xs) h = omega (arith, Span-le (x.hi + 2) e xs h.2)

-- Wider bounds.
pub Span-lo : (b c e : ℕ) (xs : List Ival) → c ≤ b → Span b e xs → Span c e xs
Span-lo b c e [] k h = omega arith
Span-lo b c e (x ∷ xs) k h = (omega arith, h.1, h.2)

pub Span-hi : (b e f : ℕ) (xs : List Ival) → e ≤ f → Span b e xs → Span b f xs
Span-hi b e f [] k h = omega arith
Span-hi b e f (x ∷ xs) k h = (h.0, h.1, Span-hi (x.hi + 2) e f xs k h.2)

-- Tighter bounds, where the intervals keep to them.
pub Span-below :
    (b e n : ℕ) (xs : List Ival) → b ≤ n → Span b e xs → All (λ y. y.hi + 2 ≤ n) xs → Span b n xs
Span-below b e n [] k h a = omega arith
Span-below b e n (x ∷ xs) k h a = (h.0, h.1, Span-below (x.hi + 2) e n xs a.0 h.2 a.1)

pub Span-above :
    (b e n : ℕ) (xs : List Ival) → n ≤ e → Span b e xs → All (λ y. n ≤ y.lo) xs → Span n e xs
Span-above b e n [] k h a = omega arith
Span-above b e n (x ∷ xs) k h a = (omega arith, h.1, h.2)

-- No number outside the bounds is covered.
pub covers_below : (b e n : ℕ) (xs : List Ival) → Span b e xs → n < b → covers n xs ≡ false
unfolding covers
covers_below b e n [] h k = refl
covers_below b e n (x ∷ xs) h k = ground (arith, covers_below (x.hi + 2) e n xs h.2 (omega arith))

pub covers_above : (b e n : ℕ) (xs : List Ival) → Span b e xs → e < n + 2 → covers n xs ≡ false
unfolding covers
covers_above b e n [] h k = refl
covers_above b e n (x ∷ xs) h k =
    ground (arith, covers_above (x.hi + 2) e n xs h.2 k, Span-le (x.hi + 2) e xs h.2)

-- The gaps bound the number of intervals.
pub length-Span : (b e : ℕ) (xs : List Ival) → Span b e xs → b + 2 * length xs ≤ e
length-Span b e [] h = omega arith
length-Span b e (x ∷ xs) h = omega (arith, length-Span (x.hi + 2) e xs h.2)

pub Span-split :
    (b e : ℕ) (xs ys : List Ival) (x : Ival)
    → Span b e (xs ++ x ∷ ys)
    → Span b x.lo xs × (x.lo < x.hi + 1) × Span (x.hi + 2) e ys
Span-split b e [] ys x h = ground arith
Span-split b e (y ∷ xs) ys x h = ground (arith, Span-split (y.hi + 2) e xs ys x)

pub Span-join :
    (b e : ℕ) (xs ys : List Ival) (x : Ival)
    → Span b x.lo xs
    → x.lo < x.hi + 1
    → Span (x.hi + 2) e ys
    → Span b e (xs ++ x ∷ ys)
Span-join b e [] ys x h k l = ground arith
Span-join b e (y ∷ xs) ys x h k l = ground (arith, Span-join (y.hi + 2) e xs ys x)

-- A new interval goes between those before it and those after it.
insert_ival-front :
    (n e : ℕ) (k : Ival) (ys : List Ival) → k.lo ≡ n → Span (n + 2) e ys → insert_ival k ys ≡ k ∷ ys
insert_ival-front n e k [] h s = refl
insert_ival-front n e k (y ∷ ys) h s = ground arith

pub insert_ival-between :
    (b n e : ℕ) (k : Ival) (xs ys : List Ival)
    → k.lo ≡ n
    → Span b n xs
    → Span (n + 2) e ys
    → insert_ival k (xs ++ ys) ≡ xs ++ k ∷ ys
insert_ival-between b n e k [] ys h l r = insert_ival-front n e k ys h r
insert_ival-between b n e k (x ∷ xs) ys h l r =
    ground (arith, insert_ival-between (x.hi + 2) n e k xs ys h l.2 r, Span-le (x.hi + 2) n xs l.2)

no_eq_below :
    (b n : ℕ) (k : Ival) (xs : List Ival)
    → k.lo ≡ n
    → k.hi ≡ n
    → Span b n xs
    → All (λ y. ival_eq k y ≡ false) xs
no_eq_below b n k [] h i s = tt
no_eq_below b n k (x ∷ xs) h i s =
    (ground (arith, Span-le (x.hi + 2) n xs s.2), no_eq_below (x.hi + 2) n k xs h i s.2)

no_eq_above :
    (c n e : ℕ) (k : Ival) (ys : List Ival)
    → k.lo ≡ n
    → k.hi ≡ n
    → n < c
    → Span c e ys
    → All (λ y. ival_eq k y ≡ false) ys
no_eq_above c n e k [] h i m s = tt
no_eq_above c n e k (y ∷ ys) h i m s =
    (ground arith, no_eq_above (y.hi + 2) n e k ys h i (omega arith) s.2)

-- It compares equal to none of them.
pub no_eq_between :
    (b n e : ℕ) (k : Ival) (xs ys : List Ival)
    → k.lo ≡ n
    → k.hi ≡ n
    → Span b n xs
    → Span (n + 2) e ys
    → All (λ y. ival_eq k y ≡ false) (xs ++ ys)
no_eq_between b n e k xs ys h i l r =
    All-append (λ y. ival_eq k y ≡ false) xs ys (no_eq_below b n k xs h i l)
      (no_eq_above (n + 2) n e k ys h i (omega arith) r)
