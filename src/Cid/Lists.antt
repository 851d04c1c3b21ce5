-- ===== src/Cid/Lists.antt =====
-- The lists of connection IDs of lib/src/cid.h: look-up by sequence number and by bytes, and the
-- extreme sequence numbers.
use quant.Base.{
  ℕ, zero, suc, ◌≤◌, Bool, true, false, ◌&&◌, Option, none, some, List, [], ◌∷◌, ltb, ◌==◌,
  if◌then◌else◌, min, max, uint_t_max, All, arith,
}

-- `struct cid`; `slot` is the position in the array `cids->cids`, which is what a pointer to it is.
pub record Cid : Type 0 where
  pub slot : ℕ
  pub seq : ℕ
  pub len : ℕ
  pub id : List ℕ
  pub srt : List ℕ
  pub has_srt : Bool
  pub in_cbi : Bool
  pub retired : Bool
  pub available : Bool
  pub local_choice : Bool

-- `struct cids`: the three lists that the entries of the array are on.
pub record Cids : Type 0 where
  pub ret : List Cid
  pub act : List Cid
  pub avl : List Cid
  pub act_cnt : ℕ

abbrev pub bytes_eq : ℕ → List ℕ → List ℕ → Bool
bytes_eq zero xs ys = true
bytes_eq (suc n) (x ∷ xs) (y ∷ ys) = x == y && bytes_eq n xs ys
bytes_eq (suc n) [] [] = true
bytes_eq (suc n) _ _ = false

-- `cid_cmp` is 0: the lengths and that many bytes are the same.
abbrev pub cid_same : Cid → Cid → Bool
cid_same a b = a.len == b.len && bytes_eq a.len a.id b.id

unfoldable pub cid_by_seq : List Cid → ℕ → Option Cid
cid_by_seq [] seq = none
cid_by_seq (i ∷ is) seq = if i.seq == seq then some i else cid_by_seq is seq

unfoldable pub cid_by_id : List Cid → Cid → Option Cid
cid_by_id [] id = none
cid_by_id (i ∷ is) id = if cid_same i id then some i else cid_by_id is id

-- The loops of `min_seq`, `max_seq` and `next_cid`, from a value on.
abbrev pub min_from : ℕ → List Cid → ℕ
min_from m [] = m
min_from m (i ∷ is) = min_from (min m i.seq) is

abbrev pub max_from : ℕ → List Cid → ℕ
max_from m [] = m
max_from m (i ∷ is) = max_from (max m i.seq) is

unfoldable pub min_seq : Cids → ℕ
min_seq ids = min_from uint_t_max ids.act

unfoldable pub max_seq : Cids → ℕ
max_seq ids = max_from 0 ids.act

abbrev pub better_next : ℕ → Option Cid → Cid → Bool
better_next seq none i = ltb seq i.seq
better_next seq (some n) i = ltb seq i.seq && ltb i.seq n.seq

abbrev pub next_from : ℕ → Option Cid → List Cid → Option Cid
next_from seq next [] = next
next_from seq next (i ∷ is) = next_from seq (if better_next seq next i then some i else next) is

unfoldable pub next_cid : Cids → ℕ → Option Cid
next_cid ids seq = next_from seq none ids.act

min_from_le : (m : ℕ) (is : List Cid) → min_from m is ≤ m
min_from_le m [] = omega arith
min_from_le m (i ∷ is) = omega (arith, min_from_le (min m i.seq) is)

max_from_le : (m : ℕ) (is : List Cid) → m ≤ max_from m is
max_from_le m [] = omega arith
max_from_le m (i ∷ is) = omega (arith, max_from_le (max m i.seq) is)

min_from-All : (m : ℕ) (is : List Cid) → All (λ i. min_from m is ≤ i.seq) is
min_from-All m [] = tt
min_from-All m (i ∷ is) =
    (omega (arith, min_from_le (min m i.seq) is), min_from-All (min m i.seq) is)

max_from-All : (m : ℕ) (is : List Cid) → All (λ i. i.seq ≤ max_from m is) is
max_from-All m [] = tt
max_from-All m (i ∷ is) =
    (omega (arith, max_from_le (max m i.seq) is), max_from-All (max m i.seq) is)

-- Every active connection ID has a sequence number from min_seq to max_seq.
pub min_seq-max_seq :
    (ids : Cids) → All (λ i. min_seq ids ≤ i.seq) ids.act × All (λ i. i.seq ≤ max_seq ids) ids.act
unfolding min_seq max_seq
min_seq-max_seq ids = (min_from-All uint_t_max ids.act, max_from-All 0 ids.act)
