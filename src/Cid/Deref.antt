-- ===== src/Cid/Deref.antt =====
-- The entry that a pointer into the array `cids->cids` (lib/src/cid.h) is to, and what moving an entry
-- to the list of retired ones does to it.
use quant.Base.{
  ℕ, ◌≡◌, refl, ap, subst, ◌∙◌, inl, inr, true, false, Option, none, some, List, [], ◌∷◌, ◌++◌,
  arith, ◌==◌, if◌then◌else◌, Bool-cases, ◌>>=◌, All, sub64,
}
use quant.Cid.Lists.{Cid, Cids}
use quant.Cid.Ops.{remove_slot}
use quant.Cid.Laws.{has_slot}

abbrev pub find_slot : List Cid → ℕ → Option Cid
find_slot [] k = none
find_slot (i ∷ is) k = if i.slot == k then some i else find_slot is k

abbrev or_else {ℓ} : {A : Type ℓ} → Option A → Option A → Option A
or_else none b = b
or_else (some a) b = some a

-- The entry of the array that a pointer is to, whatever list it is on.
unfoldable pub deref_cid : Cids → ℕ → Option Cid
deref_cid ids k =
    or_else (find_slot ids.act k) (or_else (find_slot ids.ret k) (find_slot ids.avl k))

pub has_slot-mid : (pre is : List Cid) (i : Cid) → has_slot (pre ++ i ∷ is) i.slot ≡ true
has_slot-mid [] is i = ground arith
has_slot-mid (x ∷ pre) is i = ground (arith, has_slot-mid pre is i)

pub remove_slot-mid :
    (pre is : List Cid) (i : Cid)
    → has_slot pre i.slot ≡ false
    → remove_slot (pre ++ i ∷ is) i.slot ≡ pre ++ is
remove_slot-mid [] is i h = ground arith
remove_slot-mid (x ∷ pre) is i h = elim (Bool-cases (x.slot == i.slot)) [
  | inl e ↦ ground arith
  | inr e ↦ (let r = remove_slot-mid pre is i (ground arith) in rw (e, r))
]

abbrev pub retired_cids : Cids → Cid → Cids
retired_cids ids id = record ids {
  act = remove_slot ids.act id.slot;
  act_cnt = sub64 ids.act_cnt 1;
  ret = record id { retired = true } ∷ ids.ret;
}

-- The number of the entry at a position, on whatever list it is.
abbrev pub seq_at : Cids → ℕ → Option ℕ
unfolding deref_cid
seq_at ids k = deref_cid ids k >>= (λ i. some i.seq)

find_slot-remove_slot :
    (is : List Cid) (j k : ℕ) → j == k ≡ false → find_slot (remove_slot is j) k ≡ find_slot is k
find_slot-remove_slot [] j k e = refl
find_slot-remove_slot (x ∷ is) j k e = elim (Bool-cases (x.slot == j)) [
  | inl q ↦ ground arith
  | inr q ↦ (let r = find_slot-remove_slot is j k e in ground arith)
]

find_slot-mid :
    (pre is : List Cid) (i : Cid)
    → has_slot pre i.slot ≡ false
    → find_slot (pre ++ i ∷ is) i.slot ≡ some i
find_slot-mid [] is i h = ground arith
find_slot-mid (x ∷ pre) is i h = elim (Bool-cases (x.slot == i.slot)) [
  | inl q ↦ ground arith
  | inr q ↦ (let r = find_slot-mid pre is i (ground arith) in ground arith)
]

find_slot-apart :
    (pre is : List Cid) (i : Cid)
    → has_slot pre i.slot ≡ false
    → All (λ j. j.slot == i.slot ≡ false) is
    → find_slot (pre ++ is) i.slot ≡ none
find_slot-apart [] [] i h d = refl
find_slot-apart [] (j ∷ is) i h d = (let r = find_slot-apart [] is i h d.1 in ground (arith, d.0))
find_slot-apart (x ∷ pre) is i h d = elim (Bool-cases (x.slot == i.slot)) [
  | inl q ↦ ground arith
  | inr q ↦ (let r = find_slot-apart pre is i (ground arith) d in ground arith)
]

pub seq_at-retire :
    (pre is : List Cid) (ids : Cids) (i : Cid) (k : ℕ)
    → ids.act ≡ pre ++ i ∷ is
    → has_slot pre i.slot ≡ false
    → All (λ j. j.slot == i.slot ≡ false) is
    → seq_at (retired_cids ids i) k ≡ seq_at ids k
unfolding deref_cid
seq_at-retire pre is ids i k e h d = elim (Bool-cases (i.slot == k)) [
  | inl q ↦
      (let q' : i.slot ≡ k = ground arith in
        let a : find_slot (remove_slot ids.act i.slot) i.slot ≡ none =
          ap (λ l. find_slot (remove_slot l i.slot) i.slot) e
          ∙ ap (λ l. find_slot l i.slot) (remove_slot-mid pre is i h)
          ∙ find_slot-apart pre is i h d in
        let b : find_slot ids.act i.slot ≡ some i =
          ap (λ l. find_slot l i.slot) e ∙ find_slot-mid pre is i h in
        subst (λ n. seq_at (retired_cids ids i) n ≡ seq_at ids n) q' (ground (arith, a, b)))
  | inr q ↦ (let r = find_slot-remove_slot ids.act i.slot k q in ground (arith, r))
]
