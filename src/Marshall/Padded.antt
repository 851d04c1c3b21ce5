-- ===== src/Marshall/Padded.antt =====
-- encvl of lib/src/marshall.c, which writes a value in more bytes than it needs.
use quant.Base.{
  ℕ, ◌/◌, ◌%◌, ◌^◌, ◌≤◌, ◌<◌, ◌≡◌, ◌⊎◌, inl, inr, ap, sym, Bool-cases, ◌∙◌, Option, List, [], ◌∷◌,
  ◌++◌, some, ◌==◌, length, if◌then◌else◌, arith, append_assoc, length-append, ◌>>=◌,
}
use mathlib.Core.Path.{fun_ext}
use quant.Marshall.Buffer.{Writer, put_bytes, ByteSwap}
use quant.Marshall.Enc.{enc1, enc2, enc4, enc_padded, encvl}
use quant.Marshall.Dec.{decv}
use quant.Marshall.Varint.{
  varint_bytes, size_class, varint_size_lem, encv_bytes, length-varint_bytes,
}
use quant.Marshall.Fixed.{be_bytes, enc2_lem, enc4_lem}
use quant.Marshall.RoundTrip.{decv-varint_bytes, decv2, decv4, decv8}

put_bytes-append :
    (w : Writer) (xs ys : List ℕ)
    → (put_bytes w xs >>= λ w1. put_bytes w1 ys) ≡ put_bytes w (xs ++ ys)
unfolding put_bytes
put_bytes-append w xs ys = ground (arith, length-append xs ys, append_assoc w.out xs ys)

-- Two writes in a row are one write of both.
pub chain :
    (w : Writer) (xs ys : List ℕ) (f : Writer → Option Writer)
    → ((w1 : Writer) → f w1 ≡ put_bytes w1 ys)
    → (put_bytes w xs >>= f) ≡ put_bytes w (xs ++ ys)
chain w xs ys f e =
    ap (λ (g : Writer → Option Writer). put_bytes w xs >>= g) (fun_ext e) ∙ put_bytes-append w xs ys

pub put_bytes-out :
    (w w' : Writer) (bytes : List ℕ) → put_bytes w bytes ≡ some w' → w'.out ≡ w.out ++ bytes
unfolding put_bytes
put_bytes-out w w' bytes e = ground arith

-- What the longer forms of `v` look like.
abbrev padded_bytes : ℕ → ℕ → List ℕ
padded_bytes v len =
    if len == 2
    then 0x40 ∷ v ∷ []
    else if len == 4
    then 0x80 ∷ 0x00 ∷ be_bytes 2 v
    else 0xc0 ∷ 0x00 ∷ 0x00 ∷ 0x00 ∷ be_bytes 4 v

-- The lengths that a variable-length integer can have.
abbrev pub IsVarintLen : ℕ → Type 0
IsVarintLen len = (len ≡ 1) ⊎ ((len ≡ 2) ⊎ ((len ≡ 4) ⊎ (len ≡ 8)))

-- The bytes of `v` in a field of `len` bytes.
abbrev field_bytes : ℕ → ℕ → List ℕ
field_bytes v len = if size_class v == len then varint_bytes v else padded_bytes v len

length-field_bytes :
    (v len : ℕ) → IsVarintLen len → size_class v ≤ len → length (field_bytes v len) ≡ len
length-field_bytes v len l h = ground (arith, length-varint_bytes v)

decv-field_bytes :
    (past v len : ℕ) (rest : List ℕ)
    → v < 2 ^ 48
    → IsVarintLen len
    → size_class v ≤ len
    → decv past (field_bytes v len ++ rest) ≡ some (v, rest)
decv-field_bytes past v len rest h l fits = elim (Bool-cases (size_class v == len)) [
  | inl same ↦ rw same (ground (arith, decv-varint_bytes past v rest))
  | inr longer ↦ rw longer (
      ground (
        arith,
        decv2 past 0 v rest,
        decv4 past 0 0 (v / 2 ^ 8 % 256) (v / 2 ^ 0 % 256) rest,
        decv8 past 0 0 0 0 (v / 2 ^ 24 % 256) (v / 2 ^ 16 % 256) (v / 2 ^ 8 % 256) (v / 2 ^ 0 % 256)
            rest,
      ))
]

module _ (sw : ByteSwap) where
  padded2 : (w : Writer) (v : ℕ) → v < 64 → enc_padded sw w v 2 ≡ put_bytes w (0x40 ∷ v ∷ [])
  unfolding enc_padded enc1
  padded2 w v h =
      chain w (0x40 ∷ []) (v ∷ []) _ λ w1. ap (λ (x : ℕ). put_bytes w1 (x ∷ [])) (omega arith)

  padded4 :
      (w : Writer) (v : ℕ)
      → v < 2 ^ 14
      → enc_padded sw w v 4 ≡ put_bytes w (0x80 ∷ 0x00 ∷ be_bytes 2 v)
  unfolding enc_padded enc1
  padded4 w v h = chain w (0x80 ∷ []) (0x00 ∷ be_bytes 2 v) _ λ w1.
      chain w1 (0x00 ∷ []) (be_bytes 2 v) _
        λ w2. ap (enc2 sw w2) (omega arith) ∙ enc2_lem sw w2 v (omega arith)

  padded8 :
      (w : Writer) (v : ℕ)
      → v < 2 ^ 30
      → enc_padded sw w v 8 ≡ put_bytes w (0xc0 ∷ 0x00 ∷ 0x00 ∷ 0x00 ∷ be_bytes 4 v)
  unfolding enc_padded enc1
  padded8 w v h = chain w (0xc0 ∷ []) (0x00 ∷ 0x00 ∷ 0x00 ∷ be_bytes 4 v) _ λ w1.
      chain w1 (0x00 ∷ []) (0x00 ∷ 0x00 ∷ be_bytes 4 v) _ λ w2.
        ap (λ (r : Option Writer). r >>= λ w3. enc4 sw w3 (v % 2 ^ 32))
          (enc2_lem sw w2 0 (omega arith))
        ∙ chain w2 (0x00 ∷ 0x00 ∷ []) (be_bytes 4 v) _
            λ w3. ap (enc4 sw w3) (omega arith) ∙ enc4_lem sw w3 v (omega arith)

  encvl_bytes :
      (w : Writer) (v len : ℕ)
      → v < 2 ^ 62
      → IsVarintLen len
      → size_class v ≤ len
      → encvl sw w v len ≡ put_bytes w (field_bytes v len)
  unfolding encvl
  encvl_bytes w v len h l fits =
      ground (arith, varint_size_lem v, encv_bytes w v h, padded2 w v, padded4 w v, padded8 w v)

  encvl_fits :
      (w w' : Writer) (v len : ℕ) → v < 2 ^ 62 → encvl sw w v len ≡ some w' → size_class v ≤ len
  unfolding encvl
  encvl_fits w w' v len h e = ground (arith, varint_size_lem v)

  -- A value below 2 ^ 48 that encvl wrote in a field of 1, 2, 4 or 8 bytes takes exactly that many
  -- bytes behind those in the buffer, and decv reads it back and leaves what follows.
  pub decv-encvl :
      (w w' : Writer) (past v len : ℕ) (rest : List ℕ)
      → v < 2 ^ 48
      → IsVarintLen len
      → encvl sw w v len ≡ some w'
      → (bytes : List ℕ) × (w'.out ≡ w.out ++ bytes)
        × (length bytes ≡ len)
        × (decv past (bytes ++ rest) ≡ some (v, rest))
  decv-encvl w w' past v len rest h l e =
      let fits = encvl_fits w w' v len (omega arith) e in
      (
        field_bytes v len,
        put_bytes-out w w' (field_bytes v len) (sym (encvl_bytes w v len (omega arith) l fits) ∙ e),
        length-field_bytes v len l fits,
        decv-field_bytes past v len rest h l fits,
      )

  -- For a field of any other length that the value fits, encvl writes nothing at all and succeeds.
  pub encvl_other_len :
      (w : Writer) (v len : ℕ)
      → v < 2 ^ 62
      → size_class v ≤ len
      → ¬ IsVarintLen len
      → encvl sw w v len ≡ some w
  unfolding encvl enc_padded
  encvl_other_len w v len h fits l = ground (arith, varint_size_lem v)
