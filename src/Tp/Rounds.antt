-- ===== src/Tp/Rounds.antt =====
-- The rounds of the loop of chk_tp (lib/src/tls.c), as a relation.
use quant.Base.{ℕ, zero, suc, ◌≤◌, ◌<◌, ◌≡◌, refl, subst, Bool, some, List, [], ◌∷◌, arith, length}
use quant.Tp.Params.{passed, TpScan}
use quant.Tp.Dec.{take_tp}
use quant.Tp.Check.{tp_loop}
use quant.Tp.Passes.{Passes}
use quant.Tp.Bounds.{InBounds, take_tp-Keeps}

-- Rounds of the loop, one after the other.
pub data Rounds (past : ℕ) (srt_new : List ℕ → Bool)
    : TpScan → List ℕ → TpScan → List ℕ → Type 0 where
  here : (s : TpScan) (inp : List ℕ) → Rounds past srt_new s inp s inp
  round :
      {s s1 s2 : TpScan} {inp r1 r2 : List ℕ}
      → take_tp past srt_new s inp ≡ passed (s1, r1)
      → Rounds past srt_new s1 r1 s2 r2
      → Rounds past srt_new s inp s2 r2

pub Rounds-trans :
    {past : ℕ} {srt_new : List ℕ → Bool} {s s1 s2 : TpScan} {inp r1 r2 : List ℕ}
    → Rounds past srt_new s inp s1 r1
    → Rounds past srt_new s1 r1 s2 r2
    → Rounds past srt_new s inp s2 r2
Rounds-trans (here s inp) k = k
Rounds-trans (round e h) k = round e (Rounds-trans h k)

round_shorter :
    (past : ℕ) (srt_new : List ℕ → Bool) (s s1 : TpScan) (inp r1 : List ℕ)
    → take_tp past srt_new s inp ≡ passed (s1, r1)
    → length r1 < length inp
round_shorter past srt_new s s1 inp r1 e =
    let P = λ (r : TpScan × List ℕ).
      (InBounds s.conn.tp_peer → InBounds r.0.conn.tp_peer) × (length r.1 < length inp) in
    (subst (Passes P) e (take_tp-Keeps past srt_new s inp)).1

-- With fuel for every byte the loop makes all the rounds.
pub Rounds-loop :
    (fuel past : ℕ) (srt_new : List ℕ → Bool) (s s' : TpScan) (inp rest : List ℕ)
    → Rounds past srt_new s inp s' rest
    → rest ≡ []
    → length inp ≤ fuel
    → tp_loop fuel past srt_new s inp ≡ some (passed s')
unfolding tp_loop
Rounds-loop zero past srt_new s s' [] rest (here _ _) z l = refl
Rounds-loop (suc fuel) past srt_new s s' [] rest (here _ _) z l = refl
Rounds-loop fuel past srt_new s s' (b ∷ inp) rest (here _ _) z l = absurd (ground (arith, z))
Rounds-loop fuel past srt_new s s' [] rest (round {s1 = s1} {r1 = r1} e h) z l =
    absurd (omega (arith, round_shorter past srt_new s s1 [] r1 e))
Rounds-loop zero past srt_new s s' (b ∷ inp) rest (round e h) z l = absurd (omega arith)
Rounds-loop (suc fuel) past srt_new s s' (b ∷ inp) rest (round {s1 = s1} {r1 = r1} e h) z l =
    rw (tp_loop, e)
      (Rounds-loop fuel past srt_new s1 s' r1 rest h z
        (omega (arith, round_shorter past srt_new s s1 (b ∷ inp) r1 e)))
