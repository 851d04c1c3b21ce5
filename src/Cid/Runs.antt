-- ===== src/Cid/Runs.antt =====
-- Concrete lists of connection IDs.
use quant.Base.{ℕ, ◌≡◌, refl, true, false, not, Option, some, [], ◌∷◌, ◌==◌, is_some}
use quant.Cid.Ops.{retire_prior_to}
use quant.Cid.Deref.{seq_at}
use quant.Cid.Retire.{IsApart, keep_from, retire_prior_to_lem}
use quant.Cid.Lists.{Cid, Cids, next_cid}
use quant.Cid.Ops.{cid_ins, init_cids, cids_max}
use quant.Cid.Laws.{Holds, all_uses, IsCids, cid_ins-IsCids, init_cids-IsCids}

abbrev cid_of : ℕ → ℕ → Cid
cid_of slot seq = record {
  slot = slot;
  seq = seq;
  len = 2;
  id = slot ∷ seq ∷ [];
  srt = [];
  has_srt = false;
  in_cbi = false;
  retired = false;
  available = false;
  local_choice = false;
}

abbrev fresh : Cid → Cid
fresh i = record i { available = true }

-- Two active entries, six available ones.
abbrev two : Cids
two = record {
  ret = [];
  act = cid_of 7 5 ∷ cid_of 6 3 ∷ [];
  avl =
      fresh (cid_of 5 0)
      ∷ fresh (cid_of 4 0)
      ∷ fresh (cid_of 3 0)
      ∷ fresh (cid_of 2 0)
      ∷ fresh (cid_of 1 0)
      ∷ fresh (cid_of 0 0)
      ∷ [];
  act_cnt = 2;
}

two-IsCids : IsCids two
two-IsCids = record {
  count = refl;
  total = refl;
  act_all = (refl, (refl, tt));
  ret_all = tt;
  avl_all = (refl, (refl, (refl, (refl, (refl, (refl, tt))))));
}

next_run : next_cid two 3 ≡ some (cid_of 7 5)
unfolding next_cid
next_run = refl

cid_ins-IsCids_example :
    (r : Cids × Option Cid) × (cid_ins two (cid_of 0 6) ≡ some r)
    × IsCids r.0
    × (is_some r.1 ≡ not (2 == cids_max))
    × Holds two (cid_of 0 6) r
    × ((k : ℕ) → all_uses k r.0 ≡ all_uses k two)
cid_ins-IsCids_example = cid_ins-IsCids two (cid_of 0 6) two-IsCids

init_cids-IsCids_example : IsCids (init_cids (λ n. cid_of n 0))
init_cids-IsCids_example = init_cids-IsCids (λ n. cid_of n 0)

two-IsApart : IsApart two.act
two-IsApart = ((refl, tt), (tt, tt))

retire_prior_to_lem_example :
    (ids : Cids) × (retire_prior_to two 4 ≡ some ids)
    × IsCids ids
    × (ids.act ≡ keep_from 4 two.act)
    × ((k : ℕ) → seq_at ids k ≡ seq_at two k)
retire_prior_to_lem_example = retire_prior_to_lem two 4 two-IsCids two-IsApart
