-- ===== src/Frame/Older.antt =====
-- NEW_CONNECTION_ID frames that ask for older connection IDs to be retired, the one in use among
-- them (lib/src/frame.c).
use quant.Base.{
  ℕ, ◌≤◌, ◌<◌, ◌≡◌, refl, ap, ◌∙◌, inl, inr, Bool, true, false, ◌&&◌, Option, none, some, List, [],
  ◌∷◌, arith, ltb, ◌==◌, lt→ltb, Bool-cases, is_some, ◌>>=◌, some_inj, >>=-some, All,
}
use quant.Cid.Lists.{Cid, Cids, next_cid, next_from}
use quant.Cid.Ops.{retire_prior_to}
use quant.Cid.Deref.{deref_cid, seq_at}
use quant.Cid.Laws.{IsCids}
use quant.Cid.Retire.{IsApart, keep_from, retire_prior_to_lem}
use quant.Conn.State.{Conn}
use quant.Conn.Dcid.{use_next_dcid, switch_dcid}
use quant.Frame.Handled.{died}
use quant.Frame.Paths.{retire_older, take_new_cid, max_act_cids, cid_len_max}

abbrev pub has_any : List Cid → Bool
has_any [] = false
has_any (i ∷ is) = true

next_from-some : (s : ℕ) (n : Cid) (is : List Cid) → is_some (next_from s (some n) is) ≡ true
next_from-some s n [] = refl
next_from-some s n (i ∷ is) = elim (Bool-cases (ltb s i.seq && ltb i.seq n.seq)) [
  | inl e ↦ rw e (next_from-some s i is)
  | inr e ↦ rw e (next_from-some s n is)
]

next_from-none :
    (s : ℕ) (is : List Cid) → All (λ i. s < i.seq) is → is_some (next_from s none is) ≡ has_any is
next_from-none s [] h = refl
next_from-none s (i ∷ is) h = (let e = lt→ltb s i.seq h.0 in rw e (next_from-some s i is))

keep_from-All : (s seq : ℕ) (is : List Cid) → s < seq → All (λ i. s < i.seq) (keep_from seq is)
keep_from-All s seq [] h = tt
keep_from-All s seq (i ∷ is) h = elim (Bool-cases (ltb i.seq seq)) [
  | inl e ↦ rw e (keep_from-All s seq is h)
  | inr e ↦ rw e (ground arith, keep_from-All s seq is h)
]

is_some->>= :
    {A B : Type 0} → (o : Option A) (f : A → B) → is_some (o >>= (λ a. some (f a))) ≡ is_some o
is_some->>= none f = refl
is_some->>= (some a) f = refl

abbrev next_of : Conn → Cid → Option Conn
next_of c cur = next_cid c.dcids cur.seq >>= (λ n. some (switch_dcid c n))

-- With another connection ID to switch to, the switch works; and only then.
use_next-is_some :
    (c : Conn) (s : ℕ)
    → seq_at c.dcids c.dcid ≡ some s
    → is_some (use_next_dcid c false) ≡ is_some (next_cid c.dcids s)
unfolding use_next_dcid
use_next-is_some c s h =
    let (cur, q, e) = >>=-some (deref_cid c.dcids c.dcid) _ h in
    ap (λ (o : Option Cid). is_some (o >>= next_of c)) q
    ∙ is_some->>= (next_cid c.dcids cur.seq) (switch_dcid c)
    ∙ ap (λ n. is_some (next_cid c.dcids n)) (some_inj e)

abbrev older_gone : Conn → Cids → ℕ → Conn
older_gone c ids rpt = record c { dcids = ids; rpt_max = rpt; tx_retire_cid = true }

retire_older_eq :
    (c : Conn) (cur : Cid) (rpt : ℕ) (ids : Cids)
    → ltb c.rpt_max rpt ≡ true
    → ltb cur.seq rpt ≡ true
    → retire_prior_to c.dcids rpt ≡ some ids
    → retire_older c cur rpt ≡ use_next_dcid (older_gone c ids rpt) false
unfolding retire_older use_next_dcid
retire_older_eq c cur rpt ids h l r = rw (retire_older, h, r, l) refl

-- Where the array is divided among the lists, no entry is on the active list twice, and the new
-- limit is above the previous one and above the number in use, retiring the older connection IDs
-- fails no check exactly if an active connection ID from the new limit on is left to switch to.
pub retire_older_lem :
    (c : Conn) (cur : Cid) (rpt : ℕ)
    → IsCids c.dcids
    → IsApart c.dcids.act
    → deref_cid c.dcids c.dcid ≡ some cur
    → c.rpt_max < rpt
    → cur.seq < rpt
    → is_some (retire_older c cur rpt) ≡ has_any (keep_from rpt c.dcids.act)
unfolding next_cid deref_cid
retire_older_lem c cur rpt w d e h l =
    let (ids, r, w', k, v) = retire_prior_to_lem c.dcids rpt w d in
    let a = retire_older_eq c cur rpt ids (lt→ltb c.rpt_max rpt h) (lt→ltb cur.seq rpt l) r in
    let b : seq_at ids c.dcid ≡ some cur.seq =
      v c.dcid ∙ ap (λ (o : Option Cid). o >>= (λ i. some i.seq)) e in
    ap is_some a
    ∙ use_next-is_some (older_gone c ids rpt) cur.seq b
    ∙ ap (λ is. is_some (next_from cur.seq none is)) k
    ∙ next_from-none cur.seq (keep_from rpt c.dcids.act) (keep_from-All cur.seq rpt c.dcids.act l)

none-is_some : {A : Type 0} → (o : Option A) → is_some o ≡ false → o ≡ none
none-is_some none h = refl
none-is_some (some a) h = ground (arith, h)

not_ltb : (a b : ℕ) → b ≤ a → ltb a b ≡ false
not_ltb a b h = ground arith

and_false : (b : Bool) → b && false ≡ false
and_false true = refl
and_false false = refl

-- Where the array is divided among the lists and no entry is on the active list twice, a
-- NEW_CONNECTION_ID frame within all limits, that asks for all active connection IDs and the one
-- in use to be retired, ends the program: there is none to switch to, since the one that the
-- frame brings is put on the list only later.
pub take_new_cid_dies :
    (srt_new : List ℕ → Bool) (c : Conn) (cur : Cid) (rpt : ℕ) (id : Cid) (rest : List ℕ)
    → IsCids c.dcids
    → IsApart c.dcids.act
    → deref_cid c.dcids c.dcid ≡ some cur
    → (0 < id.len) × (id.len ≤ cid_len_max) × (0 < cur.len)
    → c.dcids.act_cnt ≤ max_act_cids c
    → (c.rpt_max < rpt) × (cur.seq < rpt) × (rpt ≤ id.seq)
    → keep_from rpt c.dcids.act ≡ []
    → take_new_cid srt_new c cur rpt id rest ≡ died
unfolding take_new_cid
take_new_cid_dies srt_new c cur rpt id rest w d e (l1, l2, l3) n (h, l, q) k =
    let r =
      none-is_some (retire_older c cur rpt) (retire_older_lem c cur rpt w d e h l ∙ ap has_any k) in
    let e1 : id.len == 0 ≡ false = ground (arith, l1) in
    let e2 : cur.len == 0 ≡ false = ground (arith, l3) in
    let e3 : ltb (max_act_cids c) c.dcids.act_cnt ≡ false =
      not_ltb (max_act_cids c) c.dcids.act_cnt n in
    let e4 : ltb id.seq rpt ≡ false = not_ltb id.seq rpt q in
    let e5 : ltb cid_len_max id.len ≡ false = not_ltb cid_len_max id.len l2 in
    rw (e1, e2, e3, e4, e5, r, and_false) refl
