-- ===== src/Cid/Ops.antt =====
-- The life of a connection ID between the lists: `init_cids`, `cid_ins`, `cid_del`, `cid_retire` and
-- `retire_prior_to` of lib/src/cid.c.
use quant.Base.{
  ℕ, zero, suc, Bool, true, false, ◌||◌, Option, none, some, List, [], ◌∷◌, ltb, ◌==◌, ◌>>=◌,
  if◌then◌else◌, min, add64, sub64,
}
use quant.Cid.Lists.{Cid, Cids}

abbrev pub cids_max : ℕ
cids_max = 8

-- `sl_remove`: the entry that the pointer is to.
abbrev pub remove_slot : List Cid → ℕ → List Cid
remove_slot [] k = []
remove_slot (i ∷ is) k = if i.slot == k then is else i ∷ remove_slot is k

-- The `n` first entries of the array, as the loop leaves them; other members keep what they held.
abbrev pub avl_slots : (ℕ → Cid) → ℕ → List Cid
avl_slots cids zero = []
avl_slots cids (suc n) =
    record (cids n) { slot = n; available = true; retired = false; local_choice = false }
    ∷ avl_slots cids n

unfoldable pub init_cids : (ℕ → Cid) → Cids
init_cids cids = record { ret = []; act = []; avl = avl_slots cids cids_max; act_cnt = 0 }

unfoldable pub need_more_cids : Cids → ℕ → Bool
need_more_cids ids act_cid_lim = ltb ids.act_cnt (min 4 (min act_cid_lim cids_max))

-- `none` is the failed check that the connection ID is not available.
unfoldable pub cid_del : Cids → Cid → Option Cids
cid_del ids id =
    if id.available
    then none
    else if id.retired
    then some (record ids {
      ret = remove_slot ids.ret id.slot;
      avl = record id { retired = false; available = true } ∷ ids.avl;
    })
    else some (record ids {
      act = remove_slot ids.act id.slot;
      act_cnt = sub64 ids.act_cnt 1;
      avl = record id { available = true } ∷ ids.avl;
    })

-- `none` is the failed check that the connection ID is active.
unfoldable pub cid_retire : Cids → Cid → Option Cids
cid_retire ids id =
    if id.available || id.retired
    then none
    else some (record ids {
      act = remove_slot ids.act id.slot;
      act_cnt = sub64 ids.act_cnt 1;
      ret = record id { retired = true } ∷ ids.ret;
    })

-- The loop over the entries that the list held.
abbrev pub retire_from : ℕ → List Cid → Cids → Option Cids
retire_from seq [] ids = some ids
retire_from seq (i ∷ is) ids =
    (if ltb i.seq seq then cid_retire ids i else some ids) >>= retire_from seq is

unfoldable pub retire_prior_to : Cids → ℕ → Option Cids
unfolding cid_retire
retire_prior_to ids seq = retire_from seq ids.act ids

-- The copy into the first available entry, which becomes active.
abbrev pub activate : Cids → Cid → Option (Cids × Option Cid)
activate ids id = elim ids.avl [
  | [] ↦ none
  | i ∷ rest ↦
      (let new = record id { slot = i.slot; retired = false; available = false } in
        some
          (record ids { avl = rest; act = new ∷ ids.act; act_cnt = add64 ids.act_cnt 1 }, some new))
]

-- With no entry available, the last one that was retired is deleted first. The inner `none` is the
-- null pointer, the outer one a failed check.
unfoldable pub cid_ins : Cids → Cid → Option (Cids × Option Cid)
unfolding cid_del
cid_ins ids id = elim ids.avl [
  | i ∷ rest ↦ activate ids id
  | [] ↦ elim ids.ret [
    | [] ↦ some (ids, none)
    | i ∷ rest ↦ elim (cid_del ids i) [ none ↦ none | some ids1 ↦ activate ids1 id ]
  ]
]
