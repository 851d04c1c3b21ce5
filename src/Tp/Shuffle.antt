-- ===== src/Tp/Shuffle.antt =====
-- The random order of init_tp (lib/src/tls.c) has every transport parameter once.
use quant.Base.{
  ℕ, zero, suc, ◌+◌, ◌*◌, ◌≤◌, ◌<◌, ◌≡◌, refl, ◌∙◌, ◌≢◌, List, [], ◌∷◌, arith, ◌==◌, if◌then◌else◌,
  length, get_or,
}
use quant.Tp.Params.{param_nr}
use quant.Tp.Init.{set, swap, shuffle, tp_order}

abbrev pub count : ℕ → List ℕ → ℕ
count v [] = 0
count v (x ∷ xs) = (if v == x then 1 else 0) + count v xs

length-set : (xs : List ℕ) (i v : ℕ) → length (set xs i v) ≡ length xs
length-set [] i v = refl
length-set (x ∷ xs) zero v = refl
length-set (x ∷ xs) (suc i) v = omega (arith, length-set xs i v)

get_or-set :
    (xs : List ℕ) (i j v d : ℕ)
    → i < length xs
    → get_or (set xs i v) j d ≡ (if j == i then v else get_or xs j d)
get_or-set [] i j v d h = absurd (omega arith)
get_or-set (x ∷ xs) zero zero v d h = refl
get_or-set (x ∷ xs) zero (suc j) v d h = ground arith
get_or-set (x ∷ xs) (suc i) zero v d h = ground arith
get_or-set (x ∷ xs) (suc i) (suc j) v d h = get_or-set xs i j v d (omega arith) ∙ ground arith

count-set :
    (v : ℕ) (xs : List ℕ) (i y d : ℕ)
    → i < length xs
    → count v (set xs i y) + (if v == get_or xs i d then 1 else 0)
      ≡ count v xs + (if v == y then 1 else 0)
count-set v [] i y d h = absurd (omega arith)
count-set v (x ∷ xs) zero y d h = ground arith
count-set v (x ∷ xs) (suc i) y d h = ground (arith, count-set v xs i y d (omega arith))

count-swap :
    (v : ℕ) (xs : List ℕ) (r j : ℕ)
    → r < length xs
    → j < length xs
    → count v (swap xs r j) ≡ count v xs
unfolding swap
count-swap v xs r j h k =
    let a = get_or xs r 0 in
    let b = get_or xs j 0 in
    ground (
      arith,
      count-set v xs r b 0 h,
      count-set v (set xs r b) j a 0 (omega (arith, length-set xs r b)),
      get_or-set xs r j b 0 h,
    )

length-swap : (xs : List ℕ) (r j : ℕ) → length (swap xs r j) ≡ length xs
unfolding swap
length-swap xs r j =
    length-set (set xs r (get_or xs j 0)) j (get_or xs r 0) ∙ length-set xs r (get_or xs j 0)

-- Shuffling from a position in the list keeps how often each number occurs, if the random numbers
-- stay below their bounds.
pub count-shuffle :
    (rnd : ℕ → ℕ) (v j : ℕ) (xs : List ℕ)
    → ((k : ℕ) → 0 < k → rnd k < k)
    → j < length xs
    → count v (shuffle rnd j xs) ≡ count v xs
unfolding shuffle
count-shuffle rnd v zero xs b h = refl
count-shuffle rnd v (suc j) xs b h =
    let r = b (suc j) (omega arith) in
    count-shuffle rnd v j (swap xs (rnd (suc j)) (suc j)) b
      (omega (arith, length-swap xs (rnd (suc j)) (suc j)))
    ∙ count-swap v xs (rnd (suc j)) (suc j) (omega (arith, r)) h

-- The numbers of the order differ, with one of the form that a grease type has, unless that is the
-- number of quantum readiness, which has the form too.
pub count-tp_order : (v r : ℕ) → r ≢ 100 → count v (tp_order (31 * r + 27)) ≤ 1
unfolding tp_order param_nr
count-tp_order v r h = ground arith
