-- ===== src/Cid/Laws.antt =====
-- How the entries of `struct cids` (lib/src/cid.h) are divided among its three lists.
use quant.Base.{
  ℕ, ◌+◌, ◌≡◌, refl, inl, inr, Bool, true, false, not, ◌&&◌, Option, none, some, List, [], ◌∷◌,
  ◌==◌, if◌then◌else◌, length, All, is_some, add64, sub64, arith, Bool-cases,
}
use quant.Cid.Lists.{Cid, Cids}
use quant.Cid.Ops.{cid_ins, cid_del, cid_retire, init_cids, remove_slot, cids_max}

abbrev pub is_active : Cid → Bool
is_active i = not i.available && not i.retired

abbrev pub is_ret : Cid → Bool
is_ret i = not i.available && i.retired

-- The count is right, all entries of the array are on the lists, and the marks of each say on which.
pub record IsCids (ids : Cids) : Type 0 where
  pub count : ids.act_cnt ≡ length ids.act
  pub total : length ids.act + length ids.ret + length ids.avl ≡ cids_max
  pub act_all : All (λ i. is_active i ≡ true) ids.act
  pub ret_all : All (λ i. is_ret i ≡ true) ids.ret
  pub avl_all : All (λ i. i.available ≡ true) ids.avl

abbrev mk_cids : List Cid → List Cid → List Cid → ℕ → Cids
mk_cids ret act avl cnt = record { ret = ret; act = act; avl = avl; act_cnt = cnt }

abbrev pub has_slot : List Cid → ℕ → Bool
has_slot [] k = false
has_slot (i ∷ is) k = if i.slot == k then true else has_slot is k

length-remove_slot :
    (is : List Cid) (k : ℕ) → has_slot is k ≡ true → length (remove_slot is k) + 1 ≡ length is
length-remove_slot [] k h = ground arith
length-remove_slot (i ∷ is) k h = elim (Bool-cases (i.slot == k)) [
  | inl e ↦ ground arith
  | inr e ↦ (let r = length-remove_slot is k (ground arith) in ground arith)
]

All-remove_slot : (P : Cid → Type 0) (is : List Cid) (k : ℕ) → All P is → All P (remove_slot is k)
All-remove_slot P [] k h = h
All-remove_slot P (i ∷ is) k h = elim (Bool-cases (i.slot == k)) [
  | inl e ↦ rw e h.1
  | inr e ↦ rw e (h.0, All-remove_slot P is k h.1)
]

-- init_cids gives empty lists of active and retired entries, and makes the whole array available.
pub init_cids-IsCids : (cids : ℕ → Cid) → IsCids (init_cids cids)
unfolding init_cids
init_cids-IsCids cids = record {
  count = refl;
  total = refl;
  act_all = tt;
  ret_all = tt;
  avl_all = ground arith;
}

-- Where the array is divided among the lists, retiring an active entry works, keeps the division,
-- and leaves one active entry less.
pub cid_retire-IsCids :
    (ids : Cids) (id : Cid)
    → IsCids ids
    → is_active id ≡ true
    → has_slot ids.act id.slot ≡ true
    → (ids' : Cids) × (cid_retire ids id ≡ some ids')
      × IsCids ids'
      × (length ids'.act + 1 ≡ length ids.act)
unfolding cid_retire
cid_retire-IsCids ids id w a h =
    let l = length-remove_slot ids.act id.slot h in
    (
      mk_cids (record id { retired = true } ∷ ids.ret) (remove_slot ids.act id.slot) ids.avl
          (sub64 ids.act_cnt 1),
      ground arith,
      record {
        count = omega (arith, w.count, w.total);
        total = omega (arith, w.total);
        act_all = All-remove_slot (λ i. is_active i ≡ true) ids.act id.slot w.act_all;
        ret_all = (ground arith, w.ret_all);
        avl_all = w.avl_all;
      },
      l,
    )

-- How many entries of a list, and of all three, stand for a position of the array.
abbrev pub uses : ℕ → List Cid → ℕ
uses k [] = 0
uses k (i ∷ is) = (if i.slot == k then 1 else 0) + uses k is

abbrev pub all_uses : ℕ → Cids → ℕ
all_uses k ids = uses k ids.act + uses k ids.ret + uses k ids.avl

-- The entry that an insertion gives is the first active one and has all that the connection ID has;
-- without one, nothing changed.
abbrev pub Holds : Cids → Cid → Cids × Option Cid → Type 0
Holds ids id (ids', none) = ids' ≡ ids
Holds ids id (ids', some new) =
    (ids'.act ≡ new ∷ ids.act)
    × (new.seq ≡ id.seq)
    × (new.len ≡ id.len)
    × (new.id ≡ id.id)
    × (new.srt ≡ id.srt)
    × (new.has_srt ≡ id.has_srt)
    × (new.in_cbi ≡ id.in_cbi)
    × (new.local_choice ≡ id.local_choice)

abbrev Inserts : Cids → Cid → Type 0
Inserts ids id =
    (r : Cids × Option Cid) × (cid_ins ids id ≡ some r)
    × IsCids r.0
    × (is_some r.1 ≡ not (length ids.act == cids_max))
    × Holds ids id r
    × ((k : ℕ) → all_uses k r.0 ≡ all_uses k ids)

ins_run :
    (ret act avl : List Cid) (cnt : ℕ) (id : Cid)
    → IsCids (mk_cids ret act avl cnt)
    → Inserts (mk_cids ret act avl cnt) id
unfolding cid_ins cid_del
ins_run ret act (i ∷ rest) cnt id w = (
  (
    mk_cids ret (record id { slot = i.slot; retired = false; available = false } ∷ act) rest
        (add64 cnt 1),
    some (record id { slot = i.slot; retired = false; available = false }),
  ),
  refl,
  record {
    count = omega (arith, w.count, w.total);
    total = omega (arith, w.total);
    act_all = (refl, w.act_all);
    ret_all = w.ret_all;
    avl_all = w.avl_all.1;
  },
  ground (arith, w.total),
  (refl, refl, refl, refl, refl, refl, refl, refl),
  λ k. omega arith,
)
ins_run (i ∷ rest) act [] cnt id w =
    let m = w.ret_all.0 in
    (
      (
        mk_cids rest (record id { slot = i.slot; retired = false; available = false } ∷ act) []
            (add64 cnt 1),
        some (record id { slot = i.slot; retired = false; available = false }),
      ),
      ground arith,
      record {
        count = omega (arith, w.count, w.total);
        total = omega (arith, w.total);
        act_all = (refl, w.act_all);
        ret_all = w.ret_all.1;
        avl_all = tt;
      },
      ground (arith, w.total),
      (refl, refl, refl, refl, refl, refl, refl, refl),
      λ k. omega arith,
    )
ins_run [] act [] cnt id w =
    ((mk_cids [] act [] cnt, none), refl, w, ground (arith, w.total), refl, λ k. refl)

-- Where the array is divided among the lists, inserting a connection ID never fails a check,
-- keeps the division, and gives an entry exactly if not all eight are active already. That entry is
-- put in front of the active ones, which stay, and has the number, the bytes and the token of the
-- connection ID; without one, nothing changes. Every position of the array is on the three lists as
-- often as before, so once if it was there once.
pub cid_ins-IsCids :
    (ids : Cids) (id : Cid)
    → IsCids ids
    → (r : Cids × Option Cid) × (cid_ins ids id ≡ some r)
      × IsCids r.0
      × (is_some r.1 ≡ not (length ids.act == cids_max))
      × Holds ids id r
      × ((k : ℕ) → all_uses k r.0 ≡ all_uses k ids)
cid_ins-IsCids ids id w = ins_run ids.ret ids.act ids.avl ids.act_cnt id w
