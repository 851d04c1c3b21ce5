-- ===== src/Tp/Passes.antt =====
-- What the reads of chk_tp (lib/src/tls.c) pass on: a rule for chains of steps, and that no step
-- leaves more bytes than it was given.
use quant.Base.{
  ℕ, zero, suc, ◌%◌, ◌^◌, ◌≤◌, ◌<◌, ◌≡◌, refl, inl, inr, Bool, true, false, ◌||◌, Option, none,
  some, List, [], ◌∷◌, arith, ltb, ◌==◌, Bool-cases, Option-cases, length, length-drop,
}
use quant.Cid.Lists.{Cid}
use quant.Conn.State.{Conn, PrefAddr}
use quant.Marshall.Dec.{decv, decb}
use quant.Frame.Paths.{cid_len_max, srt_len}
use quant.Tp.Params.{◌>>=◌ as bind, Checked, passed, refused, overrun, died, ◌>>=◌, dec_chk, check}
use quant.Tp.Dec.{dectp, decb_into, deccid, take_bytes, take_byte, take_pref_addr}

-- What a step passes on is so.
abbrev pub Passes : {A : Type 0} → (A → Type 0) → Checked A → Type 0
Passes P (passed a) = P a
Passes P (refused c) = Unit {0}
Passes P overrun = Unit {0}
Passes P died = Unit {0}

pub Passes-bind :
    {A B : Type 0} (Q : A → Type 0) (P : B → Type 0) (m : Checked A) (f : A → Checked B)
    → Passes Q m
    → ((a : A) → Q a → Passes P (f a))
    → Passes P (m >>= f)
Passes-bind Q P (passed a) f q h = h a q
Passes-bind Q P (refused c) f q h = tt
Passes-bind Q P overrun f q h = tt
Passes-bind Q P died f q h = tt

pub dec_chk-Passes :
    {A : Type 0} (P : A → Type 0) (c : Conn) (o : Option A)
    → ((a : A) → o ≡ some a → P a)
    → Passes P (dec_chk c o)
dec_chk-Passes P c none h = tt
dec_chk-Passes P c (some a) h = h a refl

pub check-Passes : (c : Conn) (b : Bool) → Passes (λ u. b ≡ true) (check c b)
check-Passes c true = refl
check-Passes c false = tt

pub decv_shorter :
    (past v : ℕ) (inp rest : List ℕ) → decv past inp ≡ some (v, rest) → length rest < length inp
unfolding decv
decv_shorter past v inp rest h =
    ground (arith, length-drop 8 inp, length-drop 4 inp, length-drop 2 inp, length-drop 1 inp)

pub decb_shorter :
    (n : ℕ) (v inp rest : List ℕ) → decb n inp ≡ some (v, rest) → length rest ≤ length inp
unfolding decb
decb_shorter n v inp rest h = ground (arith, length-drop n inp)

pub dectp_shorter :
    (past old v : ℕ) (inp rest : List ℕ)
    → dectp past old inp ≡ some (v, rest)
    → length rest ≤ length inp
unfolding dectp
dectp_shorter past old v inp rest h = elim (Option-cases (decv past inp)) [
  | inl e ↦ absurd (ground (arith, rw (dectp, e) at h))
  | inr ((len, r1), e) ↦
      let a = decv_shorter past len inp r1 e in
      elim (Bool-cases (len == 0)) [
        | inl z ↦ ground (arith, rw (dectp, e, z) at h)
        | inr z ↦ elim (Option-cases (decv past r1)) [
          | inl q ↦ ground (arith, rw (dectp, e, z, q) at h)
          | inr ((w, r2), q) ↦
              let b = decv_shorter past w r1 r2 q in ground (arith, rw (dectp, e, z, q) at h)
        ]
      ]
]

-- A number that is read leaves fewer bytes.
pub decv-Passes :
    (c : Conn) (past : ℕ) (inp : List ℕ)
    → Passes (λ (r : ℕ × List ℕ). length r.1 < length inp) (dec_chk c (decv past inp))
decv-Passes c past inp = dec_chk-Passes _ c (decv past inp) (λ r e. decv_shorter past r.0 inp r.1 e)

pub decb_into-Passes :
    (room : ℕ) (old : List ℕ) (n : ℕ) (inp : List ℕ)
    → Passes (λ (r : List ℕ × List ℕ). length r.1 ≤ length inp) (decb_into room old n inp)
decb_into-Passes room old n inp = elim (Option-cases (decb n inp)) [
  | inl e ↦ rw e (omega arith)
  | inr (r, e) ↦ elim (Bool-cases (ltb room n)) [
    | inl z ↦ rw (e, z) tt
    | inr z ↦ rw (e, z) (decb_shorter n r.0 inp r.1 e)
  ]
]

pub deccid-Passes :
    (past : ℕ) (c : Conn) (id : Cid) (inp : List ℕ)
    → Passes (λ (r : Cid × List ℕ). length r.1 ≤ length inp) (deccid past c id inp)
unfolding deccid
deccid-Passes past c id inp =
    Passes-bind _ _ (dec_chk c (decv past inp)) _ (decv-Passes c past inp) (λ r q.
      elim (Bool-cases (r.0 % 2 ^ 8 == 0)) [
        | inl z ↦ rw z (omega arith)
        | inr z ↦ rw z (
            Passes-bind _ _ (decb_into cid_len_max id.id (r.0 % 2 ^ 8) r.1) _
              (decb_into-Passes cid_len_max id.id (r.0 % 2 ^ 8) r.1) (λ b k. omega arith))
      ])

pub take_bytes-Passes :
    (size : ℕ) (old : List ℕ) (n : ℕ) (at : ℕ × List ℕ)
    → Passes (λ (r : List ℕ × (ℕ × List ℕ)). length r.1.1 ≤ length at.1) (take_bytes size old n at)
unfolding take_bytes
take_bytes-Passes size old n (room, inp) = elim (Bool-cases (ltb room n)) [
  | inl e ↦ rw e (omega arith)
  | inr e ↦ elim (Bool-cases (ltb (length inp) n || ltb size n)) [
    | inl z ↦ rw (e, z) tt
    | inr z ↦ rw (e, z) (omega (arith, length-drop n inp))
  ]
]

pub take_byte-Passes :
    (c : Conn) (at : ℕ × List ℕ)
    → Passes (λ (r : ℕ × (ℕ × List ℕ)). length r.1.1 ≤ length at.1) (take_byte c at)
unfolding take_byte
take_byte-Passes c (zero, inp) = tt
take_byte-Passes c (suc room, []) = tt
take_byte-Passes c (suc room, b ∷ inp) = omega arith

pub take_pref_addr-Passes :
    (c : Conn) (pa : PrefAddr) (at : ℕ × List ℕ)
    → Passes (λ (r : PrefAddr × (ℕ × List ℕ)). length r.1.1 ≤ length at.1) (take_pref_addr c pa at)
unfolding take_pref_addr
take_pref_addr-Passes c pa at =
    Passes-bind _ _ (take_bytes 4 pa.ip4 4 at) _ (take_bytes-Passes 4 pa.ip4 4 at) (λ ip4 q.
      Passes-bind _ _ (take_bytes 2 pa.port4 2 ip4.1) _ (take_bytes-Passes 2 pa.port4 2 ip4.1)
        (λ port4 q4.
          Passes-bind _ _ (take_bytes 16 pa.ip6 16 port4.1) _
            (take_bytes-Passes 16 pa.ip6 16 port4.1)
            (λ ip6 q6.
              Passes-bind _ _ (take_bytes 2 pa.port6 2 ip6.1) _
                (take_bytes-Passes 2 pa.port6 2 ip6.1)
                (λ port6 p6.
                  Passes-bind _ _ (take_byte _ port6.1) _ (take_byte-Passes _ port6.1) (λ len q1.
                    Passes-bind _ _ (take_bytes cid_len_max pa.cid.id len.0 len.1) _
                      (take_bytes-Passes cid_len_max pa.cid.id len.0 len.1)
                      (λ id q2.
                        Passes-bind _ _ (take_bytes srt_len pa.cid.srt srt_len id.1) _
                          (take_bytes-Passes srt_len pa.cid.srt srt_len id.1)
                          (λ token q3. omega arith)))))))

pub Passes-mono :
    {A : Type 0} (Q P : A → Type 0) (m : Checked A)
    → ((a : A) → Q a → P a)
    → Passes Q m
    → Passes P m
Passes-mono Q P (passed a) h q = h a q
Passes-mono Q P (refused c) h q = tt
Passes-mono Q P overrun h q = tt
Passes-mono Q P died h q = tt

-- What is tested before goes on as it is.
pub after_check :
    {B : Type 0} (P : B → Type 0) (c : Conn) (b : Bool) (m : Checked B)
    → Passes P m
    → Passes P (bind (check c b) λ u. m)
after_check P c true m h = h
after_check P c false m h = tt
