-- ===== src/Recovery/Deemed.antt =====
-- The loops of `detect_lost_pkts` (lib/src/recovery.c) over sent packets: their numbers, and one round.
use quant.Base.{
  ℕ, zero, suc, ◌+◌, ◌-◌, ◌^◌, ◌≤◌, ◌<◌, min, ◌≡◌, refl, sym, ap, subst, ◌∙◌, inl, inr, Bool, true,
  false, not, ◌&&◌, ◌||◌, Option, none, some, List, [], ◌∷◌, ◌++◌, arith, ltb, leb, ◌==◌, ltb→lt,
  Bool-cases, some_inj, All, sub64, sub64_le,
}
use quant.Diet.Tree.{Ival, Span, SplayOps}
use quant.Diet.Span.{covers, covers_below}
use quant.Diet.Adding.{IsWf}
use quant.Conn.Packets.{PktMeta}
use quant.Pn.Sent.{find_sent_pkt, find_nr}
use quant.Recovery.Detect.{
  Scan, scan_pkt, scan_lost, scan_kept, count_up, unacked, is_deemed_lost, mark_lost,
}

-- Rising numbers from `b` on.
abbrev pub IsRising : ℕ → List ℕ → Type 0
IsRising b [] = Unit
IsRising b (n ∷ ns) = (b ≤ n) × IsRising (n + 1) ns

abbrev pub has_nr : ℕ → List ℕ → Bool
has_nr k [] = false
has_nr k (n ∷ ns) = k == n || has_nr k ns

IsRising-mono : (a b : ℕ) (ns : List ℕ) → a ≤ b → IsRising b ns → IsRising a ns
IsRising-mono a b [] l h = tt
IsRising-mono a b (n ∷ ns) l (h, r) = (omega (arith, l, h), r)

IsRising-count_up :
    (lo n : ℕ) (ns : List ℕ) → IsRising (lo + n) ns → IsRising lo (count_up lo n ++ ns)
IsRising-count_up lo zero ns h = subst (λ b. IsRising b ns) (omega arith) h
IsRising-count_up lo (suc n) ns h =
    (omega arith, IsRising-count_up (lo + 1) n ns (subst (λ b. IsRising b ns) (omega arith) h))

has_nr-count_up :
    (k lo n : ℕ) (ns : List ℕ)
    → has_nr k (count_up lo n ++ ns) ≡ ((leb lo k && ltb k (lo + n)) || has_nr k ns)
has_nr-count_up k lo zero ns = ground arith
has_nr-count_up k lo (suc n) ns = ground (arith, has_nr-count_up k (lo + 1) n ns)

-- The numbers of one interval, then those of the others.
abbrev here : Ival → ℕ → ℕ
here i lg = min i.hi (sub64 lg 1) + 1 - i.lo

pub IsRising-unacked :
    (b e lg : ℕ) (is : List Ival) → Span b e is → 0 < lg → lg < 2 ^ 64 → IsRising b (unacked is lg)
IsRising-unacked b e lg [] s p u = tt
IsRising-unacked b e lg (i ∷ is) (l, h, s) p u = elim (Bool-cases (ltb lg i.lo)) [
  | inl q ↦ rw q tt
  | inr q ↦
      (let r = IsRising-unacked (i.hi + 2) e lg is s p u in
        rw q (
          IsRising-mono b i.lo _ (omega arith) (
            IsRising-count_up i.lo (here i lg) (unacked is lg)
              (IsRising-mono (i.lo + here i lg) (i.hi + 2) (unacked is lg) (ground arith) r))))
]

pub has_nr-unacked :
    (k b e lg : ℕ) (is : List Ival)
    → Span b e is
    → 0 < lg
    → lg < 2 ^ 64
    → has_nr k (unacked is lg) ≡ (ltb k lg && covers k is)
unfolding covers
has_nr-unacked k b e lg [] s p u = ground arith
has_nr-unacked k b e lg (i ∷ is) (l, h, s) p u = elim (Bool-cases (ltb lg i.lo)) [
  | inl q ↦ elim (Bool-cases (ltb k lg)) [
    | inl t ↦
        (let z =
            covers_below (i.hi + 2) e k is s (omega (arith, ltb→lt k lg t, ltb→lt lg i.lo q, h)) in
          rw (q, t, z) (ground arith))
    | inr t ↦ rw (q, t) refl
  ]
  | inr q ↦
      (let r = has_nr-unacked k (i.hi + 2) e lg is s p u in
        let n = has_nr-count_up k i.lo (here i lg) (unacked is lg) in
        let m : sub64 lg 1 ≡ lg - 1 = sub64_le lg 1 u (omega arith) in
        rw q (n ∙ ap (λ x. (leb i.lo k && ltb k (i.lo + here i lg)) || x) r ∙ ground arith))
]

find_nr-mark_lost :
    (ms : List PktMeta) (nr k : ℕ) → k == nr ≡ false → find_nr (mark_lost ms nr) k ≡ find_nr ms k
find_nr-mark_lost [] nr k h = refl
find_nr-mark_lost (m ∷ ms) nr k h = elim (Bool-cases (m.nr == nr)) [
  | inl e ↦ ground arith
  | inr e ↦ (let r = find_nr-mark_lost ms nr k h in ground arith)
]

pub find_nr-nr : (ms : List PktMeta) (k : ℕ) (m : PktMeta) → find_nr ms k ≡ some m → m.nr ≡ k
find_nr-nr [] k m h = ground (arith, h)
find_nr-nr (x ∷ ms) k m h = elim (Bool-cases (x.nr == k)) [
  | inl e ↦ (let r = rw e at h in ap (λ (y : PktMeta). y.nr) (sym (some_inj r)) ∙ ground arith)
  | inr e ↦ find_nr-nr ms k m (rw e at h)
]

-- A packet in the table that was neither acknowledged nor lost before.
abbrev pub is_live : Option PktMeta → Bool
is_live none = false
is_live (some m) = not (m.acked || m.lost)

abbrev pub deemed : ℕ → ℕ → Option PktMeta → Bool
deemed lost_send_t lg_acked none = false
deemed lost_send_t lg_acked (some m) = is_deemed_lost lost_send_t lg_acked m

abbrev pub any_lost : ℕ → ℕ → (ℕ → Option PktMeta) → List ℕ → ℕ → Bool
any_lost t lg f [] k = false
any_lost t lg f (n ∷ ns) k = (k == n && deemed t lg (f n)) || any_lost t lg f ns k

pub any_lost_lem :
    (t lg : ℕ) (f : ℕ → Option PktMeta) (ns : List ℕ) (k : ℕ)
    → any_lost t lg f ns k ≡ (has_nr k ns && deemed t lg (f k))
any_lost_lem t lg f [] k = refl
any_lost_lem t lg f (n ∷ ns) k = elim (Bool-cases (k == n)) [
  | inl e ↦
      (let r = any_lost_lem t lg f ns k in
        let q : deemed t lg (f n) ≡ deemed t lg (f k) =
          ap (λ x. deemed t lg (f x)) (ground arith) in
        ground arith)
  | inr e ↦ (let r = any_lost_lem t lg f ns k in ground arith)
]

abbrev pub NumberIs : ℕ → Option PktMeta → Type 0
NumberIs n none = Unit
NumberIs n (some m) = m.nr ≡ n

-- The loop has the packets of `f` still before it.
pub record Ready (lg : ℕ) (f : ℕ → Option PktMeta) (ns : List ℕ) (s : Scan) : Type 0 where
  pub wf : IsWf s.lost
  pub same_lg : s.pn.lg_acked ≡ lg
  pub table : All (λ n. find_sent_pkt s.pn n ≡ f n) ns
  pub live : All (λ n. is_live (f n) ≡ true) ns
  pub named : All (λ n. NumberIs n (f n)) ns

pub All-mark_lost :
    (b nr : ℕ) (f : ℕ → Option PktMeta) (ms : List PktMeta) (ns : List ℕ)
    → IsRising b ns
    → nr < b
    → All (λ n. find_nr ms n ≡ f n) ns
    → All (λ n. find_nr (mark_lost ms nr) n ≡ f n) ns
All-mark_lost b nr f ms [] i l a = tt
All-mark_lost b nr f ms (n ∷ ns) (h, i) l (e, a) = (
  find_nr-mark_lost ms nr n (ground arith) ∙ e,
  All-mark_lost (n + 1) nr f ms ns i (omega (arith, h, l)) a,
)

pub scan_pkt_lost :
    (ops : SplayOps) (del t lg : ℕ) (s : Scan) (m : PktMeta)
    → is_live (some m) ≡ true
    → s.pn.lg_acked ≡ lg
    → is_deemed_lost t lg m ≡ true
    → scan_pkt ops del t s (some m) ≡ some (scan_lost ops s m)
scan_pkt_lost ops del t lg s m l e q =
    let a : m.acked || m.lost ≡ false = ground arith in
    let b : is_deemed_lost t s.pn.lg_acked m ≡ true = ap (λ x. is_deemed_lost t x m) e ∙ q in
    rw (a, b) refl

pub scan_pkt_kept :
    (ops : SplayOps) (del t lg : ℕ) (s : Scan) (m : PktMeta)
    → is_live (some m) ≡ true
    → s.pn.lg_acked ≡ lg
    → is_deemed_lost t lg m ≡ false
    → scan_pkt ops del t s (some m) ≡ some (scan_kept del s m)
scan_pkt_kept ops del t lg s m l e q =
    let a : m.acked || m.lost ≡ false = ground arith in
    let b : is_deemed_lost t s.pn.lg_acked m ≡ false = ap (λ x. is_deemed_lost t x m) e ∙ q in
    rw (a, b) refl
