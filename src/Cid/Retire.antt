-- ===== src/Cid/Retire.antt =====
-- The loop of `retire_prior_to` (lib/src/cid.c) over the list that it changes.
use quant.Base.{
  ℕ, ◌≡◌, refl, sym, ap, subst, ◌∙◌, inl, inr, true, false, ◌||◌, some, List, [], ◌∷◌, ◌++◌,
  append_assoc, arith, ltb, ◌==◌, if◌then◌else◌, Bool-cases, some_inj, All,
}
use quant.Cid.Lists.{Cid, Cids}
use quant.Cid.Ops.{cid_retire, retire_from, retire_prior_to, remove_slot}
use quant.Cid.Deref.{has_slot-mid, remove_slot-mid, retired_cids, seq_at, seq_at-retire}
use quant.Cid.Laws.{IsCids, is_active, has_slot, cid_retire-IsCids}

-- No two entries are one position of the array.
abbrev pub IsApart : List Cid → Type 0
IsApart [] = Unit
IsApart (i ∷ is) = All (λ j. j.slot == i.slot ≡ false) is × IsApart is

-- The entries with a number that is not below `seq`.
abbrev pub keep_from : ℕ → List Cid → List Cid
keep_from seq [] = []
keep_from seq (i ∷ is) = if ltb i.seq seq then keep_from seq is else i ∷ keep_from seq is

All-mid : (P : Cid → Type 0) (pre is : List Cid) (i : Cid) → All P (pre ++ i ∷ is) → P i
All-mid P [] is i h = h.0
All-mid P (x ∷ pre) is i h = All-mid P pre is i h.1

has_slot-snoc :
    (pre : List Cid) (i j : Cid)
    → has_slot pre j.slot ≡ false
    → j.slot == i.slot ≡ false
    → has_slot (pre ++ i ∷ []) j.slot ≡ false
has_slot-snoc [] i j h e = ground arith
has_slot-snoc (x ∷ pre) i j h e = elim (Bool-cases (x.slot == j.slot)) [
  | inl q ↦ ground arith
  | inr q ↦ (let r = has_slot-snoc pre i j (ground arith) e in ground arith)
]

All-has_slot-snoc :
    (pre is : List Cid) (i : Cid)
    → All (λ j. has_slot pre j.slot ≡ false) is
    → All (λ j. j.slot == i.slot ≡ false) is
    → All (λ j. has_slot (pre ++ i ∷ []) j.slot ≡ false) is
All-has_slot-snoc pre [] i h e = tt
All-has_slot-snoc pre (j ∷ is) i h e =
    (has_slot-snoc pre i j h.0 e.0, All-has_slot-snoc pre is i h.1 e.1)

cid_retire_eq :
    (ids ids' : Cids) (id : Cid) → cid_retire ids id ≡ some ids' → ids' ≡ retired_cids ids id
unfolding cid_retire
cid_retire_eq ids ids' id q = elim (Bool-cases (id.available || id.retired)) [
  | inl e ↦ ground (arith, e, q)
  | inr e ↦ (let r = rw e at q in sym (some_inj r))
]

cid_retire_act :
    (ids ids' : Cids) (id : Cid)
    → cid_retire ids id ≡ some ids'
    → ids'.act ≡ remove_slot ids.act id.slot
cid_retire_act ids ids' id q = ap (λ (x : Cids). x.act) (cid_retire_eq ids ids' id q)

has_slot-none : (is : List Cid) → All (λ i. has_slot [] i.slot ≡ false) is
has_slot-none [] = tt
has_slot-none (i ∷ is) = (refl, has_slot-none is)

retire_from_drop :
    (seq : ℕ) (is : List Cid) (ids ids1 : Cids) (i : Cid)
    → ltb i.seq seq ≡ true
    → cid_retire ids i ≡ some ids1
    → retire_from seq (i ∷ is) ids ≡ retire_from seq is ids1
retire_from_drop seq is ids ids1 i q r = rw (retire_from, q, r) refl

retire_from_keep :
    (seq : ℕ) (is : List Cid) (ids : Cids) (i : Cid)
    → ltb i.seq seq ≡ false
    → retire_from seq (i ∷ is) ids ≡ retire_from seq is ids
retire_from_keep seq is ids i q = rw (retire_from, q) refl

keep_from_drop :
    (seq : ℕ) (is : List Cid) (i : Cid)
    → ltb i.seq seq ≡ true
    → keep_from seq (i ∷ is) ≡ keep_from seq is
keep_from_drop seq is i q = rw q refl

keep_from_keep :
    (seq : ℕ) (is : List Cid) (i : Cid)
    → ltb i.seq seq ≡ false
    → keep_from seq (i ∷ is) ≡ i ∷ keep_from seq is
keep_from_keep seq is i q = rw q refl

-- The loop has kept `pre` and still has `is` to look at.
abbrev Retires : ℕ → List Cid → List Cid → Cids → Type 0
Retires seq pre is ids =
    (ids' : Cids) × (retire_from seq is ids ≡ some ids')
    × IsCids ids'
    × (ids'.act ≡ pre ++ keep_from seq is)
    × ((k : ℕ) → seq_at ids' k ≡ seq_at ids k)

retire_run :
    (seq : ℕ) (is pre : List Cid) (ids : Cids)
    → IsCids ids
    → ids.act ≡ pre ++ is
    → All (λ i. has_slot pre i.slot ≡ false) is
    → IsApart is
    → Retires seq pre is ids
unfolding cid_retire
retire_run seq [] pre ids w e h d = (ids, refl, w, e, λ k. refl)
retire_run seq (i ∷ is) pre ids w e h d = elim (Bool-cases (ltb i.seq seq)) [
  | inl q ↦
      (let a =
          All-mid (λ x. is_active x ≡ true) pre is i
            (subst (All (λ x. is_active x ≡ true)) e w.act_all) in
        let b : has_slot ids.act i.slot ≡ true =
          ap (λ l. has_slot l i.slot) e ∙ has_slot-mid pre is i in
        let (ids1, r, w1, _) = cid_retire-IsCids ids i w a b in
        let e1 =
          cid_retire_act ids ids1 i r
          ∙ ap (λ l. remove_slot l i.slot) e
          ∙ remove_slot-mid pre is i h.0 in
        let (ids', r', w', k, v) = retire_run seq is pre ids1 w1 e1 h.1 d.1 in
        (
          ids',
          retire_from_drop seq is ids ids1 i q r ∙ r',
          w',
          k ∙ ap (λ l. pre ++ l) (sym (keep_from_drop seq is i q)),
          λ n.
              v n
              ∙ ap (λ x. seq_at x n) (cid_retire_eq ids ids1 i r)
              ∙ seq_at-retire pre is ids i n e h.0 d.0,
        ))
  | inr q ↦
      (let (ids', r, w', k, v) =
          retire_run seq is (pre ++ i ∷ []) ids w (e ∙ sym (append_assoc pre (i ∷ []) is))
            (All-has_slot-snoc pre is i h.1 d.0) d.1 in
        (
          ids',
          retire_from_keep seq is ids i q ∙ r,
          w',
          k
              ∙ append_assoc pre (i ∷ []) (keep_from seq is)
              ∙ ap (λ l. pre ++ l) (sym (keep_from_keep seq is i q)),
          v,
        ))
]

-- Where the array is divided among the lists and no entry is on the active list twice,
-- retire_prior_to fails no check, keeps the division, and leaves on the active list exactly the
-- entries with a number that is not below the given one, in the order they had; and at each
-- position of the array the number stays what it was.
pub retire_prior_to_lem :
    (ids : Cids) (seq : ℕ)
    → IsCids ids
    → IsApart ids.act
    → (ids' : Cids) × (retire_prior_to ids seq ≡ some ids')
      × IsCids ids'
      × (ids'.act ≡ keep_from seq ids.act)
      × ((k : ℕ) → seq_at ids' k ≡ seq_at ids k)
unfolding retire_prior_to
retire_prior_to_lem ids seq w d = retire_run seq ids.act [] ids w refl (has_slot-none ids.act) d
