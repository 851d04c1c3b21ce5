-- ===== src/Ack/Ranges.antt =====
-- What the ACK frame says, read back, are the intervals of received numbers (lib/src/frame.c and
-- lib/src/recovery.c).
use quant.Base.{
  ℕ, suc, ◌-◌, ◌^◌, ◌≤◌, ◌<◌, ◌≡◌, refl, ap, ◌∙◌, false, Option, none, some, List, [], ◌∷◌, ◌++◌,
  append_assoc, arith, ◌==◌, length, add64, sub64,
}
use quant.Diet.Tree.{Ival}
use quant.Marshall.Varint.{varint_bytes}
use quant.Marshall.RoundTrip.{decv-varint_bytes}
use quant.Frame.RoundTrip.{decv_small}
use quant.Ack.Ops.{rng_vals, dec_or_zero, range_of, acked_ranges, acked_ivals}

abbrev pub bytes_of : List ℕ → List ℕ
bytes_of [] = []
bytes_of (v ∷ vs) = varint_bytes v ++ bytes_of vs

-- Intervals from the highest to the lowest, with room between them, below a bound.
abbrev pub IsDown : ℕ → List Ival → Type 0
IsDown top [] = Unit
IsDown top (i ∷ is) = (i.hi < top) × (i.lo ≤ i.hi) × IsDown (i.lo - 1) is

-- An interval without its time.
abbrev pub bounds : Ival → Ival
bounds i = record { lo = i.lo; hi = i.hi; t = 0 }

abbrev pub all_bounds : List Ival → List Ival
all_bounds [] = []
all_bounds (i ∷ is) = bounds i ∷ all_bounds is

dec_or_zero_small :
    (past v : ℕ) (rest : List ℕ)
    → v < 2 ^ 48
    → dec_or_zero past (varint_bytes v ++ rest) ≡ (v, rest)
dec_or_zero_small past v rest h =
    ap
      (λ (o : Option (ℕ × List ℕ)). elim o as (λ x. ℕ × List ℕ) [
        | none ↦ (0, varint_bytes v ++ rest)
        | some r ↦ r
      ])
      (decv_small past v rest h)

range_of_lem : (i : Ival) → i.lo ≤ i.hi → i.hi < 2 ^ 48 → range_of i.hi (sub64 i.hi i.lo) ≡ bounds i
range_of_lem i l h = ap (λ n. record { lo = n; hi = i.hi; t = 0 }) (omega (arith, l, h))

acked_ranges_next :
    (past n lg a b : ℕ) (inp r1 r2 : List ℕ)
    → dec_or_zero past inp ≡ (a, r1)
    → dec_or_zero past r1 ≡ (b, r2)
    → acked_ranges past (suc (suc n)) lg inp
      ≡ range_of lg a ∷ acked_ranges past (suc n) (sub64 lg (add64 (add64 a b) 2)) r2
unfolding acked_ranges
acked_ranges_next past n lg a b inp r1 r2 d e =
    ap
      (λ (r : ℕ × List ℕ).
        range_of lg r.0
        ∷ acked_ranges past (suc n) (sub64 lg (add64 (add64 r.0 (dec_or_zero past r.1).0) 2))
            (dec_or_zero past r.1).1)
      d
    ∙ ap
        (λ (r : ℕ × List ℕ).
          range_of lg a ∷ acked_ranges past (suc n) (sub64 lg (add64 (add64 a r.0) 2)) r.1)
        e

rng_vals_next :
    (prev_lo : ℕ) (b : Ival) (bs : List Ival)
    → 0 < prev_lo
    → rng_vals prev_lo (b ∷ bs) ≡ sub64 (sub64 prev_lo b.hi) 2 ∷ sub64 b.hi b.lo ∷ rng_vals b.lo bs
rng_vals_next prev_lo b bs h = (let e : prev_lo == 0 ≡ false = ground arith in rw e refl)

-- The bytes of the ranges from one interval on are read as these intervals.
acked_ranges_lem :
    (past : ℕ) (i : Ival) (is : List Ival) (rest : List ℕ)
    → IsDown (2 ^ 48) (i ∷ is)
    → acked_ranges past
        (suc (length is))
        i.hi
        (varint_bytes (sub64 i.hi i.lo) ++ (bytes_of (rng_vals i.lo is) ++ rest))
      ≡ all_bounds (i ∷ is)
unfolding acked_ranges
acked_ranges_lem past i [] rest (h, l, d) =
    ap (λ (r : ℕ × List ℕ). range_of i.hi r.0 ∷ [])
      (dec_or_zero_small past (sub64 i.hi i.lo) rest (omega (arith, h, l)))
    ∙ ap (λ x. x ∷ []) (range_of_lem i l h)
acked_ranges_lem past i (j ∷ js) rest (h, l, (k, m, d)) =
    let rng_i = sub64 i.hi i.lo in
    let gap = sub64 (sub64 i.lo j.hi) 2 in
    let rng_j = sub64 j.hi j.lo in
    let r2 = varint_bytes rng_j ++ (bytes_of (rng_vals j.lo js) ++ rest) in
    let split =
      ap (λ vs. bytes_of vs ++ rest) (rng_vals_next i.lo j js (omega (arith, k)))
      ∙ append_assoc (varint_bytes gap) (varint_bytes rng_j ++ bytes_of (rng_vals j.lo js)) rest
      ∙ ap (λ x. varint_bytes gap ++ x)
          (append_assoc (varint_bytes rng_j) (bytes_of (rng_vals j.lo js)) rest) in
    let lg : sub64 i.hi (add64 (add64 rng_i gap) 2) ≡ j.hi = omega (arith, h, l, k) in
    ap (λ x. acked_ranges past (suc (suc (length js))) i.hi (varint_bytes rng_i ++ x)) split
    ∙ acked_ranges_next past (length js) i.hi rng_i gap
        (varint_bytes rng_i ++ (varint_bytes gap ++ r2)) (varint_bytes gap ++ r2) r2
        (dec_or_zero_small past rng_i (varint_bytes gap ++ r2) (omega (arith, h, l)))
        (dec_or_zero_small past gap r2 (omega (arith, h, l, k)))
    ∙ ap (λ x. range_of i.hi rng_i ∷ acked_ranges past (suc (length js)) x r2) lg
    ∙ ap (λ x. range_of i.hi rng_i ∷ x)
        (acked_ranges_lem past j js rest (omega (arith, h, l, k), m, d))
    ∙ ap (λ x. x ∷ all_bounds (j ∷ js)) (range_of_lem i l h)

dec_or_zero_any :
    (past v : ℕ) (rest : List ℕ) → v < 2 ^ 62 → (dec_or_zero past (varint_bytes v ++ rest)).1 ≡ rest
dec_or_zero_any past v rest h =
    ap
      (λ (o : Option (ℕ × List ℕ)).
        (elim o as (λ x. ℕ × List ℕ) [ none ↦ (0, varint_bytes v ++ rest) | some r ↦ r ]).1)
      (decv-varint_bytes past v rest h)

pub acked_ivals_lem :
    (past delay n : ℕ) (i : Ival) (is : List Ival) (rest : List ℕ)
    → IsDown (2 ^ 48) (i ∷ is)
    → delay < 2 ^ 62
    → n ≡ length is
    → n < 2 ^ 48
    → acked_ivals past (
        varint_bytes i.hi
        ++ (varint_bytes delay
            ++ (varint_bytes n
                ++ (varint_bytes (sub64 i.hi i.lo) ++ (bytes_of (rng_vals i.lo is) ++ rest)))))
      ≡ all_bounds (i ∷ is)
unfolding acked_ivals
acked_ivals_lem past delay n i is rest d h e k =
    let r3 = varint_bytes (sub64 i.hi i.lo) ++ (bytes_of (rng_vals i.lo is) ++ rest) in
    let r2 = varint_bytes n ++ r3 in
    let r1 = varint_bytes delay ++ r2 in
    let last : add64 n 1 ≡ suc (length is) = omega (arith, e, k) in
    ap
      (λ (r : ℕ × List ℕ).
        acked_ranges past (add64 (dec_or_zero past (dec_or_zero past r.1).1).0 1) r.0
          (dec_or_zero past (dec_or_zero past r.1).1).1)
      (dec_or_zero_small past i.hi r1 d.0)
    ∙ ap
        (λ (r : List ℕ).
          acked_ranges past (add64 (dec_or_zero past r).0 1) i.hi (dec_or_zero past r).1)
        (dec_or_zero_any past delay r2 h)
    ∙ ap (λ (r : ℕ × List ℕ). acked_ranges past (add64 r.0 1) i.hi r.1)
        (dec_or_zero_small past n r3 k)
    ∙ ap (λ m. acked_ranges past m i.hi r3) last
    ∙ acked_ranges_lem past i is rest d
