-- ===== src/Ack/RoundTrip.antt =====
-- An ACK frame that is written and read back (lib/src/frame.c and lib/src/recovery.c).
use quant.Base.{
  ℕ, zero, suc, ◌+◌, ◌-◌, ◌/◌, ◌^◌, ◌<◌, ◌≡◌, refl, sym, ap, subst, ◌∙◌, inl, inr, Bool, true,
  false, Option, none, some, List, [], ◌∷◌, ◌++◌, append-nil, append_assoc, arith, ltb, ◌==◌,
  if◌then◌else◌, Bool-cases, ◌>>=◌, some_inj, >>=-some, length, All, All-append, sub64, div_le,
}
use quant.Diet.Tree.{Ival, flatten}
use quant.Diet.Adding.{IsWf}
use quant.Conn.Packets.{PktMeta, PnSpace, PnType}
use quant.Conn.State.{Conn, get_pn}
use quant.Marshall.Buffer.{Writer}
use quant.Marshall.Enc.{enc1, encv, varint_size}
use quant.Marshall.Varint.{varint_bytes}
use quant.Marshall.RoundTrip.{encv-out}
use quant.Marshall.Padded.{put_bytes-out}
use quant.Recovery.Rtt.{ns_per_us}
use quant.Frame.Enc.{Enc}
use quant.Ack.Ops.{
  encv_chk, encv_all, downward, rng_vals, ack_type, ecn_vals, ack_delay, ack_exp, ack_vals,
  ack_sent, enc_ack_frame, acked_ivals,
}
use quant.Ack.Ranges.{bytes_of, IsDown, all_bounds, acked_ivals_lem}
use quant.Ack.Down.{IsDown-downward, length-downward}

abbrev did_write : Option (Option Writer) → Bool
did_write none = false
did_write (some none) = false
did_write (some (some w)) = true

bytes_of-append : (us vs : List ℕ) → bytes_of (us ++ vs) ≡ bytes_of us ++ bytes_of vs
bytes_of-append [] vs = refl
bytes_of-append (u ∷ us) vs =
    ap (λ x. varint_bytes u ++ x) (bytes_of-append us vs)
    ∙ sym (append_assoc (varint_bytes u) (bytes_of us) (bytes_of vs))

encv_chk_out :
    (w w1 : Writer) (v : ℕ)
    → v < 2 ^ 62
    → encv_chk w v ≡ some (some w1)
    → w1.out ≡ w.out ++ varint_bytes v
unfolding encv_chk
encv_chk_out w w1 v h q =
    let (n, a, b) = >>=-some (varint_size v) _ q in
    elim (Bool-cases (ltb w.room n)) [
      | inl e ↦ absurd (let z = ap did_write (rw e at b) in ground (arith, z))
      | inr e ↦
          (let (w2, r, s) = >>=-some (encv w v) _ (rw e at b) in
            let t = some_inj (some_inj s) in
            ap (λ (x : Writer). x.out) (sym t) ∙ encv-out w w2 v h r)
    ]

encv_all_next :
    (o : Option Writer) (vs : List ℕ) (w' : Writer)
    → (elim o as (λ x. Option (Option Writer)) [ none ↦ some none | some w1 ↦ encv_all w1 vs ])
      ≡ some (some w')
    → (w1 : Writer) × (o ≡ some w1) × (encv_all w1 vs ≡ some (some w'))
encv_all_next none vs w' q = absurd (let z = ap did_write q in ground (arith, z))
encv_all_next (some w1) vs w' q = (w1, refl, q)

encv_all_out :
    (w w' : Writer) (vs : List ℕ)
    → All (λ v. v < 2 ^ 62) vs
    → encv_all w vs ≡ some (some w')
    → w'.out ≡ w.out ++ bytes_of vs
unfolding encv_all
encv_all_out w w' [] a q =
    ap (λ (x : Writer). x.out) (sym (some_inj (some_inj q))) ∙ sym (append-nil w.out)
encv_all_out w w' (v ∷ vs) (h, a) q =
    let (o, b, c) = >>=-some (encv_chk w v) _ q in
    let (w1, d, e) = encv_all_next o vs w' c in
    encv_all_out w1 w' vs a e
    ∙ ap (λ x. x ++ bytes_of vs) (encv_chk_out w w1 v h (b ∙ ap some d))
    ∙ append_assoc w.out (varint_bytes v) (bytes_of vs)

below :
    (i : Ival) (is : List Ival)
    → i.hi < 2 ^ 48
    → IsDown (i.lo - 1) is
    → IsDown (if i.lo == 0 then 2 ^ 48 else i.lo - 1) is
below i [] h d = tt
below i (j ∷ js) h (l, m, d) = (ground arith, m, d)

rng_vals-All :
    (prev_lo : ℕ) (is : List Ival)
    → prev_lo < 2 ^ 48
    → IsDown (if prev_lo == 0 then 2 ^ 48 else prev_lo - 1) is
    → All (λ v. v < 2 ^ 62) (rng_vals prev_lo is)
rng_vals-All prev_lo [] h d = tt
rng_vals-All prev_lo (i ∷ is) h d = elim (Bool-cases (prev_lo == 0)) [
  | inl e ↦
      (let (l, m, r) = subst (λ b. IsDown (if b then 2 ^ 48 else prev_lo - 1) (i ∷ is)) e d in
        rw e (omega (arith, l, m), rng_vals-All i.lo is (omega (arith, l, m)) (below i is l r)))
  | inr e ↦
      (let (l, m, r) = subst (λ b. IsDown (if b then 2 ^ 48 else prev_lo - 1) (i ∷ is)) e d in
        rw e (
          omega (arith, l, m, h),
          (
            omega (arith, l, m, h),
            rng_vals-All i.lo is (omega (arith, l, m, h)) (below i is (omega (arith, l, h)) r),
          ),
        ))
]

abbrev did_enc : Option (Option Enc) → Bool
did_enc none = false
did_enc (some none) = false
did_enc (some (some e)) = true

ack_done :
    (e e' : Enc) (p : PnType) (o : Option Writer)
    → (elim o as (λ x. Option (Option Enc)) [
      | none ↦ some none
      | some w1 ↦ some (some (ack_sent e p w1))
    ])
      ≡ some (some e')
    → (w1 : Writer) × (o ≡ some w1) × (e'.writer ≡ w1)
ack_done e e' p none q = absurd (let z = ap did_enc q in ground (arith, z))
ack_done e e' p (some w1) q = (w1, refl, ap (λ (x : Enc). x.writer) (sym (some_inj (some_inj q))))

ack_elim :
    (e e' : Enc) (now : ℕ) (p : PnType) (w : Writer) (ivals : List Ival)
    → (elim ivals as (λ x. Option (Option Enc)) [
      | [] ↦ some none
      | first ∷ is ↦
          encv_all w (ack_vals now e.conn e.pkt (get_pn e.conn p) first (first ∷ is)) >>= (λ o.
            elim o as (λ x. Option (Option Enc)) [
              | none ↦ some none
              | some w1 ↦ some (some (ack_sent e p w1))
            ])
    ])
      ≡ some (some e')
    → (first : Ival) × (is : List Ival) × (ivals ≡ first ∷ is)
      × (encv_all w (ack_vals now e.conn e.pkt (get_pn e.conn p) first (first ∷ is))
          ≡ some (some e'.writer))
ack_elim e e' now p w [] q = absurd (let z = ap did_enc q in ground (arith, z))
ack_elim e e' now p w (first ∷ is) q =
    let (o, a, b) =
      >>=-some (encv_all w (ack_vals now e.conn e.pkt (get_pn e.conn p) first (first ∷ is))) _ q in
    let (w1, c, d) = ack_done e e' p o b in
    (first, is, refl, a ∙ ap some c ∙ ap (λ x. some (some x)) (sym d))

pow_pos : (k : ℕ) → 0 < 2 ^ k
pow_pos zero = omega arith
pow_pos (suc k) = omega (arith, pow_pos k)

-- Four numbers in front of others.
bytes_of_four :
    (a b c d : ℕ) (vs us rest : List ℕ)
    → bytes_of (a ∷ b ∷ c ∷ d ∷ (vs ++ us)) ++ rest
      ≡ varint_bytes a
        ++ (varint_bytes b
            ++ (varint_bytes c ++ (varint_bytes d ++ (bytes_of vs ++ (bytes_of us ++ rest)))))
bytes_of_four a b c d vs us rest =
    let cut = λ (x : ℕ) (xs : List ℕ). append_assoc (varint_bytes x) (bytes_of xs) rest in
    cut a (b ∷ c ∷ d ∷ (vs ++ us))
    ∙ ap (λ x. varint_bytes a ++ x)
        (cut b (c ∷ d ∷ (vs ++ us))
          ∙ ap (λ x. varint_bytes b ++ x)
              (cut c (d ∷ (vs ++ us))
                ∙ ap (λ x. varint_bytes c ++ x)
                    (cut d (vs ++ us)
                      ∙ ap (λ x. varint_bytes d ++ x)
                          (ap (λ x. x ++ rest) (bytes_of-append vs us)
                            ∙ append_assoc (bytes_of vs) (bytes_of us) rest))))

delay_small : (now : ℕ) (c : Conn) (m : PktMeta) (i : Ival) → ack_delay now c m i < 2 ^ 62
delay_small now c m i =
    let base = sub64 now i.t / ns_per_us in
    omega (arith, div_le base (2 ^ ack_exp c m) (pow_pos (ack_exp c m)))

ack_vals-All :
    (now : ℕ) (c : Conn) (m : PktMeta) (pn : PnSpace) (i : Ival) (is : List Ival)
    → IsDown (2 ^ 48) (i ∷ is)
    → pn.recv.cnt < 2 ^ 48
    → All (λ v. v < 2 ^ 62) (ecn_vals pn)
    → 0 < pn.recv.cnt
    → All (λ v. v < 2 ^ 62) (ack_vals now c m pn i (i ∷ is))
ack_vals-All now c m pn i is d n v z = (
  omega (arith, d.0),
  (
    delay_small now c m i,
    (
      omega (arith, n, z),
      All-append (λ v. v < 2 ^ 62) (rng_vals 0 (i ∷ is)) (ecn_vals pn)
          (rng_vals-All 0 (i ∷ is) (omega arith) d) v,
    ),
  ),
)

ack_bytes :
    (past now : ℕ) (c : Conn) (m : PktMeta) (pn : PnSpace) (w w1 w' : Writer) (i : Ival)
    (is : List Ival) (rest : List ℕ)
    → IsDown (2 ^ 48) (i ∷ is)
    → pn.recv.cnt ≡ suc (length is)
    → pn.recv.cnt < 2 ^ 48
    → All (λ v. v < 2 ^ 62) (ecn_vals pn)
    → enc1 w (ack_type pn) ≡ some w1
    → encv_all w1 (ack_vals now c m pn i (i ∷ is)) ≡ some (some w')
    → (bytes : List ℕ) × (w'.out ≡ w.out ++ ack_type pn ∷ bytes)
      × (acked_ivals past (bytes ++ rest) ≡ all_bounds (i ∷ is))
unfolding enc1
ack_bytes past now c m pn w w1 w' i is rest d e n v b h =
    let vals = ack_vals now c m pn i (i ∷ is) in
    let cnt = sub64 pn.recv.cnt 1 in
    let count : cnt ≡ length is = omega (arith, e, n) in
    (
      bytes_of vals,
      encv_all_out w1 w' vals (ack_vals-All now c m pn i is d n v (omega (arith, e))) h
          ∙ ap (λ y. y ++ bytes_of vals) (put_bytes-out w w1 (ack_type pn ∷ []) b)
          ∙ append_assoc w.out (ack_type pn ∷ []) (bytes_of vals),
      ap (acked_ivals past) (
            bytes_of_four i.hi (ack_delay now c m i) cnt (sub64 i.hi i.lo) (rng_vals i.lo is)
              (ecn_vals pn) rest)
          ∙ acked_ivals_lem past (ack_delay now c m i) cnt i is (bytes_of (ecn_vals pn) ++ rest) d
              (delay_small now c m i) count (omega (arith, count, e, n)),
    )

-- An ACK frame for received numbers below 2 ^ 48, when it is read back, tells as ranges exactly the
-- intervals of the diet of received numbers, from the highest to the lowest, where the diet is well
-- formed, with a count below 2 ^ 48, and the ECN counters in the frame are below 2 ^ 62.
pub acked_ivals-enc_ack :
    (past now : ℕ) (e e' : Enc) (p : PnType) (rest : List ℕ)
    → IsWf (get_pn e.conn p).recv
    → All (λ i. i.hi < 2 ^ 48) (flatten (get_pn e.conn p).recv.root)
    → (get_pn e.conn p).recv.cnt < 2 ^ 48
    → All (λ v. v < 2 ^ 62) (ecn_vals (get_pn e.conn p))
    → enc_ack_frame now e p ≡ some (some e')
    → (bytes : List ℕ) × (e'.writer.out ≡ e.writer.out ++ ack_type (get_pn e.conn p) ∷ bytes)
      × (acked_ivals past (bytes ++ rest)
          ≡ all_bounds (downward (flatten (get_pn e.conn p).recv.root)))
unfolding enc_ack_frame enc1
acked_ivals-enc_ack past now e e' p rest w a n v q = elim (Bool-cases (e.writer.room == 0)) [
  | inl z ↦ absurd (let t = ap did_enc (rw z at q) in ground (arith, t))
  | inr z ↦
      (let pn = get_pn e.conn p in
        let (w1, b, c) = >>=-some (enc1 e.writer (ack_type pn)) _ (rw z at q) in
        let (i, is, g, h) = ack_elim e e' now p w1 (downward (flatten pn.recv.root)) c in
        let d =
          subst (IsDown (2 ^ 48)) g
            (IsDown-downward 0 (2 ^ 64 + 1) (2 ^ 48) (flatten pn.recv.root) (w.span) a) in
        let count : pn.recv.cnt ≡ suc (length is) =
          w.count ∙ sym (length-downward (flatten pn.recv.root)) ∙ ap length g in
        let (bytes, x, y) =
          ack_bytes past now e.conn e.pkt pn e.writer w1 e'.writer i is rest d count n v b h in
        (bytes, x, y ∙ ap all_bounds (sym g)))
]
