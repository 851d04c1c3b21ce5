-- ===== src/Pkt/Restore.antt =====
-- A packet number that was cut down to its low bytes is restored (lib/src/pkt.c).
use quant.Base.{
  ℕ, ◌+◌, ◌-◌, ◌*◌, ◌/◌, ◌%◌, ◌^◌, ◌≤◌, ◌<◌, ◌≡◌, refl, sym, ap, subst, ◌∙◌, ◌⊎◌, inl, inr, Option,
  some, List, [], ◌∷◌, ◌++◌, arith, ◌==◌, if◌then◌else◌, ◌>>=◌, uint_t_max, add64, sub64, sub64_le,
}
use quant.Diet.Tree.{Diet}
use quant.Marshall.Buffer.{Writer, ByteSwap, put_bytes}
use quant.Marshall.Enc.{enc1}
use quant.Marshall.Dec.{dec1}
use quant.Marshall.Fixed.{be_bytes, enc-be_bytes, dec-be_bytes}
use quant.Marshall.Padded.{put_bytes-out}
use quant.Pkt.Numbers.{needed_pkt_nr_len, restore_nr, diet_max, enc_pkt_nr, dec_low, dec_pkt_nr}

abbrev pub lg_of : ℕ → ℕ
lg_of lg_acked = if lg_acked == uint_t_max then 0 else lg_acked

-- From its low bits a number is restored by a window of at least twice its distance.
restore_low :
    (n e k win : ℕ)
    → 2 ^ (k * 8) ≡ win
    → (win ≡ 2 ^ 8) ⊎ ((win ≡ 2 ^ 16) ⊎ ((win ≡ 2 ^ 24) ⊎ (win ≡ 2 ^ 32)))
    → n < 2 ^ 62
    → e < 2 ^ 62
    → n < e + win / 2
    → e < n + win / 2
    → restore_nr e k (n % win) ≡ n
unfolding restore_nr
restore_low n e k win q (inl w) h i a b = rw (q, w) (ground arith)
restore_low n e k win q (inr (inl w)) h i a b = rw (q, w) (ground arith)
restore_low n e k win q (inr (inr (inl w))) h i a b = rw (q, w) (ground arith)
restore_low n e k win q (inr (inr (inr w))) h i a b = rw (q, w) (ground arith)

-- The length and the distance from the largest acknowledged number that it is good for.
abbrev Fits : ℕ → ℕ → ℕ → Type 0
Fits lg n len =
    ((len ≡ 1) × (n < lg + 2 ^ 7))
    ⊎ (((len ≡ 2) × (n < lg + 2 ^ 15)) ⊎ (((len ≡ 3) × (n < lg + 2 ^ 23)) ⊎ (len ≡ 4)))

needed_pkt_nr_len-Fits :
    (lg_acked n : ℕ)
    → lg_of lg_acked ≤ n
    → n < 2 ^ 62
    → Fits (lg_of lg_acked) n (needed_pkt_nr_len lg_acked n)
unfolding needed_pkt_nr_len
needed_pkt_nr_len-Fits lg_acked n h k =
    (let q : sub64 n (lg_of lg_acked) ≡ n - lg_of lg_acked =
        sub64_le n (lg_of lg_acked) (omega (arith, k)) h in
      ground arith)

module _ (sw : ByteSwap) where
  -- The low bytes are written and read.
  abbrev Written : Writer → ℕ → ℕ → ℕ → ℕ → Type 0
  Written w old n k win =
      (bytes : List ℕ) × (enc_pkt_nr sw w k n ≡ put_bytes w bytes)
      × ((rest : List ℕ) → dec_low sw old k (bytes ++ rest) ≡ some (n % win, rest))

  written1 : (w : Writer) (old n : ℕ) → Written w old n 1 (2 ^ 8)
  unfolding enc_pkt_nr dec_low enc1 dec1
  written1 w old n = (n % 2 ^ 8 ∷ [], refl, λ rest. ground arith)

  written2 : (w : Writer) (old n : ℕ) → old < 2 ^ 32 → Written w old n 2 (2 ^ 16)
  unfolding enc_pkt_nr dec_low
  written2 w old n h = (
    be_bytes 2 (n % 2 ^ 16),
    (enc-be_bytes sw w (n % 2 ^ 16) 0 0 0 (omega arith) (omega arith) (omega arith)
        (omega arith)).0,
    λ rest.
        (dec-be_bytes sw old (n % 2 ^ 16) 0 0 0 rest h (omega arith) (omega arith) (omega arith)
          (omega arith)).0,
  )

  written3 : (w : Writer) (old n : ℕ) → old < 2 ^ 32 → Written w old n 3 (2 ^ 24)
  unfolding enc_pkt_nr dec_low
  written3 w old n h = (
    be_bytes 3 (n % 2 ^ 24),
    (enc-be_bytes sw w 0 (n % 2 ^ 24) 0 0 (omega arith) (omega arith) (omega arith)
        (omega arith)).1,
    λ rest.
        (dec-be_bytes sw old 0 (n % 2 ^ 24) 0 0 rest h (omega arith) (omega arith) (omega arith)
          (omega arith)).1,
  )

  written4 : (w : Writer) (old n : ℕ) → old < 2 ^ 32 → Written w old n 4 (2 ^ 32)
  unfolding enc_pkt_nr dec_low
  written4 w old n h = (
    be_bytes 4 (n % 2 ^ 32),
    (enc-be_bytes sw w 0 0 (n % 2 ^ 32) 0 (omega arith) (omega arith) (omega arith)
        (omega arith)).2,
    λ rest.
        (dec-be_bytes sw old 0 0 (n % 2 ^ 32) 0 rest h (omega arith) (omega arith) (omega arith)
          (omega arith)).2,
  )

  -- What was written is read back, where the window restores the number.
  abbrev ReadBack : Writer → Writer → ℕ → ℕ → Diet → ℕ → List ℕ → Type 0
  ReadBack w w' old n recv k rest =
      (bytes : List ℕ) × (w'.out ≡ w.out ++ bytes)
      × (dec_pkt_nr sw old recv k (bytes ++ rest) ≡ some (n, rest))

  read_back :
      (w w' : Writer) (old n k win : ℕ) (recv : Diet) (rest : List ℕ)
      → Written w old n k win
      → restore_nr (diet_max recv + 1) k (n % win) ≡ n
      → diet_max recv < 2 ^ 62
      → enc_pkt_nr sw w k n ≡ some w'
      → ReadBack w w' old n recv k rest
  unfolding dec_pkt_nr
  read_back w w' old n k win recv rest (bytes, e, d) r h q =
      let m : add64 (diet_max recv) 1 ≡ diet_max recv + 1 = omega (arith, h) in
      (
        bytes,
        put_bytes-out w w' bytes (sym e ∙ q),
        ap
              (λ (o : Option (ℕ × List ℕ)).
                o >>= (λ x. some (restore_nr (add64 (diet_max recv) 1) k x.0, x.1)))
              (d rest)
            ∙ ap (λ x. some (restore_nr x k (n % win), rest)) m
            ∙ ap (λ x. some (x, rest)) r,
      )

  -- A packet number, cut down to the bytes that the largest number the peer acknowledged calls for,
  -- is restored from these bytes, whatever follows them: where the number is below 2 ^ 62 and less
  -- than 2 ^ 31 above that acknowledged number, and the receiver's largest number is below
  -- 2 ^ 62 - 1, not below the acknowledged one, and its successor less than half a window above this
  -- one. The acknowledged number counts as 0 before there is one.
  pub dec-enc_pkt_nr :
      (w w' : Writer) (old lg_acked n : ℕ) (recv : Diet) (rest : List ℕ)
      → old < 2 ^ 32
      → lg_of lg_acked ≤ n
      → n < 2 ^ 62
      → n < lg_of lg_acked + 2 ^ 31
      → lg_of lg_acked ≤ diet_max recv
      → diet_max recv < 2 ^ 62 - 1
      → diet_max recv + 1 < n + 2 ^ (needed_pkt_nr_len lg_acked n * 8) / 2
      → enc_pkt_nr sw w (needed_pkt_nr_len lg_acked n) n ≡ some w'
      → (bytes : List ℕ) × (w'.out ≡ w.out ++ bytes)
        × (dec_pkt_nr sw old recv (needed_pkt_nr_len lg_acked n) (bytes ++ rest) ≡ some (n, rest))
  dec-enc_pkt_nr w w' old lg_acked n recv rest o a b c d e f q =
      elim (needed_pkt_nr_len-Fits lg_acked n a b) [
        | inl (k, l) ↦ by_len 1 (2 ^ 8) k refl (written1 w old n) (inl refl) (omega (arith, l, d))
        | inr (inl (k, l)) ↦
            by_len 2 (2 ^ 16) k refl (written2 w old n o) (inr (inl refl)) (omega (arith, l, d))
        | inr (inr (inl (k, l))) ↦
            by_len 3 (2 ^ 24) k refl (written3 w old n o) (inr (inr (inl refl)))
              (omega (arith, l, d))
        | inr (inr (inr k)) ↦
            by_len 4 (2 ^ 32) k refl (written4 w old n o) (inr (inr (inr refl)))
              (omega (arith, c, d))
      ]
    where
      by_len :
          (k win : ℕ)
          → needed_pkt_nr_len lg_acked n ≡ k
          → 2 ^ (k * 8) ≡ win
          → Written w old n k win
          → (win ≡ 2 ^ 8) ⊎ ((win ≡ 2 ^ 16) ⊎ ((win ≡ 2 ^ 24) ⊎ (win ≡ 2 ^ 32)))
          → n < diet_max recv + 1 + win / 2
          → ReadBack w w' old n recv (needed_pkt_nr_len lg_acked n) rest
      by_len k win z p v g h =
          let q' = subst (λ x. enc_pkt_nr sw w x n ≡ some w') z q in
          let f' = subst (λ x. diet_max recv + 1 < n + 2 ^ (x * 8) / 2) z f in
          let f2 = subst (λ x. diet_max recv + 1 < n + x / 2) p f' in
          subst (λ x. ReadBack w w' old n recv x rest) (sym z)
            (read_back w w' old n k win recv rest v
              (restore_low n (diet_max recv + 1) k win p g b (omega (arith, e)) h f2)
              (omega (arith, e)) q')
