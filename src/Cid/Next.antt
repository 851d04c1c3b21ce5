-- ===== src/Cid/Next.antt =====
-- The search of `next_cid` of lib/src/cid.c.
use quant.Base.{
  ℕ, ◌≡◌, refl, Bool, true, not, ◌&&◌, Option, none, some, List, [], ◌∷◌, ltb, leb, if◌then◌else◌,
  All, arith,
}
use quant.Cid.Lists.{Cid, Cids, next_cid, next_from, better_next}

-- The answer has a later number; with none, there is nothing to have.
abbrev pub is_later : ℕ → Option Cid → Bool
is_later seq none = true
is_later seq (some n) = ltb seq n.seq

-- The connection ID is no better answer.
abbrev pub no_better : ℕ → Option Cid → Cid → Bool
no_better seq none x = leb x.seq seq
no_better seq (some n) x = not (ltb seq x.seq && ltb x.seq n.seq)

abbrev step : ℕ → Option Cid → Cid → Option Cid
step seq next i = if better_next seq next i then some i else next

step_later :
    (seq : ℕ) (next : Option Cid) (i : Cid)
    → is_later seq next ≡ true
    → is_later seq (step seq next i) ≡ true
step_later seq none i h = ground arith
step_later seq (some n) i h = ground arith

step_keeps :
    (seq : ℕ) (next : Option Cid) (i x : Cid)
    → no_better seq next x ≡ true
    → no_better seq (step seq next i) x ≡ true
step_keeps seq none i x h = ground arith
step_keeps seq (some n) i x h = ground arith

step_self : (seq : ℕ) (next : Option Cid) (i : Cid) → no_better seq (step seq next i) i ≡ true
step_self seq none i = ground arith
step_self seq (some n) i = ground arith

next_later :
    (seq : ℕ) (next : Option Cid) (is : List Cid)
    → is_later seq next ≡ true
    → is_later seq (next_from seq next is) ≡ true
next_later seq next [] h = h
next_later seq next (i ∷ is) h = next_later seq (step seq next i) is (step_later seq next i h)

next_keeps :
    (seq : ℕ) (next : Option Cid) (is : List Cid) (x : Cid)
    → no_better seq next x ≡ true
    → no_better seq (next_from seq next is) x ≡ true
next_keeps seq next [] x h = h
next_keeps seq next (i ∷ is) x h = next_keeps seq (step seq next i) is x (step_keeps seq next i x h)

next-All :
    (seq : ℕ) (next : Option Cid) (is : List Cid)
    → All (λ x. no_better seq (next_from seq next is) x ≡ true) is
next-All seq next [] = tt
next-All seq next (i ∷ is) = (
  next_keeps seq (step seq next i) is i (step_self seq next i),
  next-All seq (step seq next i) is,
)

-- The connection ID that next_cid answers has a larger sequence number than the given one, and no
-- active one lies between the two; and without an answer, no active one has a larger number.
pub next_cid_lem :
    (ids : Cids) (seq : ℕ)
    → (is_later seq (next_cid ids seq) ≡ true)
      × All (λ x. no_better seq (next_cid ids seq) x ≡ true) ids.act
unfolding next_cid
next_cid_lem ids seq = (next_later seq none ids.act refl, next-All seq none ids.act)
