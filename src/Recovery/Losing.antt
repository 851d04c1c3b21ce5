-- ===== src/Recovery/Losing.antt =====
-- Exactly the packets that are too old or too far behind are lost: the loops of `detect_lost_pkts`
-- (lib/src/recovery.c).
use quant.Base.{
  ℕ, ◌+◌, ◌^◌, ◌<◌, ◌≡◌, refl, sym, ap, subst, ◌∙◌, inl, inr, Bool, true, false, not, ◌&&◌, ◌||◌,
  Option, none, some, List, [], ◌∷◌, arith, ltb, leb, ◌==◌, ltb→lt, Bool-cases, Option-cases,
  is_some, ◌>>=◌, All, IsU64,
}
use quant.Diet.Tree.{SplayOps, IsSplay, flatten}
use quant.Diet.Span.{covers}
use quant.Diet.Adding.{IsWf}
use quant.Diet.Insert.{diet_insert-Inserted}
use quant.Conn.Packets.{PktMeta, PnSpace}
use quant.Pn.Sent.{find_sent_pkt, find_nr, InSync}
use quant.Recovery.Detect.{
  Scan, scan_pkt, scan_pkts, scan_lost, scan_kept, scan_start, unacked, is_deemed_lost,
}
use quant.Recovery.Deemed.{
  IsRising, has_nr, IsRising-unacked, has_nr-unacked, find_nr-nr, is_live, deemed, any_lost,
  any_lost_lem, NumberIs, Ready, All-mark_lost, scan_pkt_lost, scan_pkt_kept,
}

now_lost :
    (k n nr : ℕ) (a c d : Bool)
    → nr ≡ n
    → d ≡ true
    → a || (k == nr || c) ≡ ((k == n && d || a) || c)
now_lost k n nr a c d e h = ground arith

not_lost : (k n : ℕ) (a c d : Bool) → d ≡ false → a || c ≡ ((k == n && d || a) || c)
not_lost k n a c d h = ground arith

All-has_nr : {P : ℕ → Type 0} → (ns : List ℕ) → ((k : ℕ) → has_nr k ns ≡ true → P k) → All P ns
All-has_nr [] h = tt
All-has_nr (n ∷ ns) h = (h n (ground arith), All-has_nr ns (λ k e. h k (ground (arith, e))))

NumberIs_lem : (ms : List PktMeta) (k : ℕ) → NumberIs k (find_nr ms k)
NumberIs_lem ms k = elim (Option-cases (find_nr ms k)) [
  | inl e ↦ subst (NumberIs k) (sym e) tt
  | inr (m, e) ↦ subst (NumberIs k) (sym e) (find_nr-nr ms k m e)
]

and_left : (a b : Bool) → a && b ≡ true → a ≡ true
and_left a b h = ground arith

deemed_some :
    (b : Bool) (t lg : ℕ) (o : Option PktMeta)
    → (((b && is_some o) && deemed t lg o) || false) ≡ (b && deemed t lg o)
deemed_some b t lg none = ground arith
deemed_some b t lg (some m) = ground arith

and_right : (a b : Bool) → a && b ≡ true → b ≡ true
and_right a b h = ground arith

-- Nothing that is acknowledged or lost is in the table any more.
abbrev pub is_fresh : Option PktMeta → Bool
is_fresh none = true
is_fresh (some m) = not (m.acked || m.lost)

fresh_live : (o : Option PktMeta) → is_fresh o ≡ true → is_some o ≡ true → is_live o ≡ true
fresh_live none f h = ground (arith, h)
fresh_live (some m) f h = f

-- Sent up to the given time, or at least three numbers behind the largest acknowledged one, which is
-- the packet threshold that RFC 9002 recommends.
abbrev pub is_overdue : ℕ → ℕ → Option PktMeta → Bool
is_overdue lost_send_t lg_acked none = false
is_overdue lost_send_t lg_acked (some m) = leb m.t lost_send_t || leb (m.nr + 3) lg_acked

deemed_overdue :
    (t lg k : ℕ) (o : Option PktMeta)
    → NumberIs k o
    → lg + 2 < 2 ^ 64
    → (ltb k lg && deemed t lg o) ≡ (ltb k lg && is_overdue t lg o)
deemed_overdue t lg k none e h = refl
deemed_overdue t lg k (some m) e h = ground arith

module _ (ops : SplayOps) (laws : IsSplay ops) where
  -- What the loop comes to.
  abbrev Scanned : ℕ → ℕ → ℕ → (ℕ → Option PktMeta) → List ℕ → Scan → Type 0
  Scanned del t lg f ns s =
      (s' : Scan) × (scan_pkts ops del t ns s ≡ some s')
      × IsWf s'.lost
      × ((k : ℕ)
          → covers k (flatten s'.lost.root)
            ≡ (any_lost t lg f ns k || covers k (flatten s.lost.root)))

  scan_pkts_run :
      (del t lg : ℕ) (f : ℕ → Option PktMeta) (b : ℕ) (ns : List ℕ) (s : Scan)
      → IsRising b ns
      → All IsU64 ns
      → Ready lg f ns s
      → Scanned del t lg f ns s
  unfolding scan_pkts
  scan_pkts_run del t lg f b [] s i u r = (s, refl, r.wf, λ k. refl)
  scan_pkts_run del t lg f b (n ∷ ns) s i u r = elim (Option-cases (f n)) [
    | inl e ↦ absurd (ground (arith, subst (λ o. is_live o ≡ true) e r.live.0))
    | inr (m, e) ↦ elim (Bool-cases (is_deemed_lost t lg m)) [
      | inl q ↦
          (let w =
              scan_pkt_lost ops del t lg s m (subst (λ o. is_live o ≡ true) e r.live.0) r.same_lg
                q in
            let nr : m.nr ≡ n = subst (NumberIs n) e r.named.0 in
            let (wf, v) =
              diet_insert-Inserted ops laws s.lost m.nr 0 (r.wf) (subst IsU64 (sym nr) u.0) in
            let (s', a, wf', v') =
              scan_pkts_run del t lg f (n + 1) ns (scan_lost ops s m) i.1 u.1 (record {
                wf = wf;
                same_lg = r.same_lg;
                table =
                    All-mark_lost (n + 1) m.nr f s.pn.sent_pkts ns i.1 (omega (arith, nr))
                      r.table.1;
                live = r.live.1;
                named = r.named.1;
              }) in
            (
              s',
              ap (λ o. scan_pkt ops del t s o >>= scan_pkts ops del t ns) (r.table.0 ∙ e)
                  ∙ ap (λ o. o >>= scan_pkts ops del t ns) w
                  ∙ a,
              wf',
              λ k.
                  v' k
                  ∙ ap (λ x. any_lost t lg f ns k || x) (v k)
                  ∙ now_lost k n m.nr (any_lost t lg f ns k) (covers k (flatten s.lost.root))
                      (deemed t lg (f n)) nr (ap (deemed t lg) e ∙ q),
            ))
      | inr q ↦
          (let w =
              scan_pkt_kept ops del t lg s m (subst (λ o. is_live o ≡ true) e r.live.0) r.same_lg
                q in
            let (s', a, wf', v') =
              scan_pkts_run del t lg f (n + 1) ns (scan_kept del s m) i.1 u.1 (record {
                wf = r.wf;
                same_lg = r.same_lg;
                table = r.table.1;
                live = r.live.1;
                named = r.named.1;
              }) in
            (
              s',
              ap (λ o. scan_pkt ops del t s o >>= scan_pkts ops del t ns) (r.table.0 ∙ e)
                  ∙ ap (λ o. o >>= scan_pkts ops del t ns) w
                  ∙ a,
              wf',
              λ k.
                  v' k
                  ∙ not_lost k n (any_lost t lg f ns k) (covers k (flatten s.lost.root))
                      (deemed t lg (f n)) (ap (deemed t lg) e ∙ q),
            ))
    ]
  ]

  -- In a packet number space whose table and diet of numbers agree and hold nothing acknowledged or
  -- lost, with a largest acknowledged number that is not 0 and below 2 ^ 64 - 2, the loop over the sent
  -- packets fails no assertion and collects exactly the sent packets below that number that were sent up
  -- to the given time or are at least three numbers behind, without wrap-around.
  pub scan_pkts_lem :
      (del lost_send_t : ℕ) (pn : PnSpace)
      → InSync pn
      → ((k : ℕ) → is_fresh (find_sent_pkt pn k) ≡ true)
      → 0 < pn.lg_acked
      → pn.lg_acked + 2 < 2 ^ 64
      → (s : Scan) × (scan_pkts ops del lost_send_t
            (unacked (flatten pn.sent_pkt_nrs.root) pn.lg_acked)
            (scan_start pn)
          ≡ some s)
        × IsWf s.lost
        × ((k : ℕ)
            → covers k (flatten s.lost.root)
              ≡ (ltb k pn.lg_acked && is_overdue lost_send_t pn.lg_acked (find_sent_pkt pn k)))
  unfolding find_sent_pkt covers
  scan_pkts_lem del t pn y h p bound =
      let u : pn.lg_acked < 2 ^ 64 = omega (arith, bound) in
      let ivals = flatten pn.sent_pkt_nrs.root in
      let ns = unacked ivals pn.lg_acked in
      let f = find_sent_pkt pn in
      let has = λ (k : ℕ). has_nr-unacked k 0 (2 ^ 64 + 1) pn.lg_acked ivals (y.diet.span) p u in
      let sent = λ (k : ℕ) (e : has_nr k ns ≡ true).
        sym (y.same k) ∙ and_right (ltb k pn.lg_acked) (covers k ivals) (sym (has k) ∙ e) in
      let (s, a, w, v) =
        scan_pkts_run del t pn.lg_acked f 0 ns (scan_start pn)
          (IsRising-unacked 0 (2 ^ 64 + 1) pn.lg_acked ivals (y.diet.span) p u)
          (All-has_nr ns (λ (k : ℕ) (e : has_nr k ns ≡ true). omega (
            arith,
            u,
            ltb→lt k pn.lg_acked (and_left (ltb k pn.lg_acked) (covers k ivals) (sym (has k) ∙ e)),
          )))
          (record {
            wf = record { span = omega arith; count = refl };
            same_lg = refl;
            table = All-has_nr ns (λ k e. refl);
            live = All-has_nr ns (λ k e. fresh_live (f k) (h k) (sent k e));
            named = All-has_nr ns (λ k e. NumberIs_lem pn.sent_pkts k);
          }) in
      (
        s,
        a,
        w,
        λ k.
            v k
            ∙ ap (λ x. x || false)
                (any_lost_lem t pn.lg_acked f ns k
                  ∙ ap (λ x. x && deemed t pn.lg_acked (f k))
                      (has k ∙ ap (λ x. ltb k pn.lg_acked && x) (y.same k)))
            ∙ deemed_some (ltb k pn.lg_acked) t pn.lg_acked (f k)
            ∙ deemed_overdue t pn.lg_acked k (f k) (NumberIs_lem pn.sent_pkts k) bound,
      )
