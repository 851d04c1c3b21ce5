-- ===== src/Diet/Runs.antt =====
-- The theorems about lib/src/diet.c at concrete inputs, and runs of the code. The splay operations
-- here rebuild the tree from the list of its intervals.
pub mod Rebuild
use quant.Base.{
  is_some, ℕ, ◌+◌, ◌*◌, ◌^◌, ◌≡◌, refl, Bool, true, false, not, List, [], ◌∷◌, Option, none, some,
  arith, ◌==◌, ◌&&◌, ◌||◌, if◌then◌else◌, ltb, leb,
}
use quant.Diet.Tree.{Ival, Tree, leaf, node, Diet, flatten, SplayOps, ival_cmp}
use quant.Diet.Ops.{
  mk_diet, mk_ival, diet_insert, diet_remove, diet_find, remove_ival_loop, remove_round,
  insert_root, insert_below, merge_below, find_max, graft_max, take_from_root,
}
use quant.Diet.Span.{covers}
use quant.Diet.Adding.{IsWf}
use quant.Diet.Insert.{Inserted, diet_insert-Inserted}
use quant.Diet.Ends.{remove_ival_loop_ends}
use quant.Diet.Remove.{diet_remove_lem, diet_find_lem}
use Rebuild.{rebuild, rebuild-IsSplay, splay_list, build, place, insert_list, remove_first}

abbrev ival : ℕ → ℕ → ℕ → Ival
ival lo hi t = record { lo = lo; hi = hi; t = t }

-- The intervals 1-3, 5-7 and 20-21, the middle one at the root.
abbrev three : Diet
three = mk_diet (node (node leaf (ival 1 3 9) leaf) (ival 5 7 9) (node leaf (ival 20 21 9) leaf)) 3

three-IsWf : IsWf three
three-IsWf = record { span = omega arith; count = refl }

-- The number 4 joins two intervals.
insert_run_4 : flatten (diet_insert rebuild three 4 9).0.root ≡ ival 1 7 9 ∷ ival 20 21 9 ∷ []
unfolding diet_insert insert_root insert_below merge_below find_max graft_max splay_list build
    ival_cmp
insert_run_4 = refl

diet_insert-Inserted_example : Inserted 4 three (diet_insert rebuild three 4 9).0
diet_insert-Inserted_example =
    diet_insert-Inserted rebuild rebuild-IsSplay three 4 9 three-IsWf (omega arith)

diet_remove_lem_example :
    IsWf (diet_remove rebuild three 6)
    × ((m : ℕ)
        → covers m (flatten (diet_remove rebuild three 6).root)
          ≡ (not (m == 6) && covers m (flatten three.root)))
diet_remove_lem_example = diet_remove_lem rebuild rebuild-IsSplay three 6 three-IsWf (omega arith)

diet_find_lem_example :
    (covers 6 (flatten three.root) ≡ is_some (diet_find rebuild three 6).1)
    × (flatten (diet_find rebuild three 6).0.root ≡ flatten three.root)
diet_find_lem_example = diet_find_lem rebuild rebuild-IsSplay three 6 three-IsWf (omega arith)

abbrev kept : Option Diet → List Ival
kept none = []
kept (some d) = flatten d.root

-- A range that begins where an interval begins and goes past its end: 20 stays.
remove_run_start :
    kept (remove_ival_loop rebuild 9 (ival 5 20 0) three 5 20) ≡ ival 1 3 9 ∷ ival 20 21 9 ∷ []
unfolding remove_ival_loop remove_round remove_first splay_list build ival_cmp
remove_run_start = refl

-- A range that covers one interval and the end of the one before: 2 and 3 stay.
remove_run_before :
    kept (remove_ival_loop rebuild 9 (ival 2 10 0) three 2 10) ≡ ival 1 3 9 ∷ ival 20 21 9 ∷ []
unfolding remove_ival_loop remove_round remove_first splay_list build ival_cmp
remove_run_before = refl

-- A range inside one interval.
remove_run_inside :
    kept (remove_ival_loop rebuild 9 (ival 6 6 0) three 6 6)
    ≡ ival 1 3 9 ∷ ival 5 5 9 ∷ ival 7 7 9 ∷ ival 20 21 9 ∷ []
unfolding remove_ival_loop remove_round remove_first splay_list build ival_cmp
remove_run_inside = refl

abbrev five_to_twenty : Ival
five_to_twenty = ival 5 20 0

remove_ival_loop_ends_example :
    (d' : Diet) × (remove_ival_loop rebuild 9 five_to_twenty three 5 20 ≡ some d')
    × IsWf d'
    × ((m : ℕ) → covers m (flatten d'.root) ≡ true → covers m (flatten three.root) ≡ true)
    × ((m : ℕ)
        → leb 5 m && leb m 20 ≡ false
        → covers m (flatten d'.root) ≡ covers m (flatten three.root))
remove_ival_loop_ends_example =
    remove_ival_loop_ends rebuild rebuild-IsSplay 9 five_to_twenty three three-IsWf (omega arith)
      (omega arith) (omega arith)
