-- ===== src/Tp/Init.antt =====
-- init_tp of lib/src/tls.c: the random order of the parameters, and the connection IDs of a token.
-- `rnd` is `w_rand_uniform32` of warpcore.
use quant.Base.{
  ℕ, zero, suc, ◌+◌, ◌*◌, ◌>>=◌, not, ◌&&◌, Option, some, List, [], ◌∷◌, ◌==◌, if◌then◌else◌,
  length, take, drop, get_or,
}
use quant.Cid.Lists.{Cid}
use quant.Conn.State.{Conn}
use quant.Tp.Params.{
  dcid_o, idto, srt, mups, imd, imsd_bl, imsd_br, imsd_u, imsb, imsu, ade, mad, dmig, prfa, acil,
  scid_i, scid_r, param_nr, tp_qbg, tp_qr, no_len, cid_of_len,
}
use quant.Tp.Enc.{TpExtra, put_tps}

abbrev pub set : List ℕ → ℕ → ℕ → List ℕ
set [] i v = []
set (x ∷ xs) zero v = v ∷ xs
set (x ∷ xs) (suc i) v = x ∷ set xs i v

unfoldable pub swap : List ℕ → ℕ → ℕ → List ℕ
swap xs r j = set (set xs r (get_or xs j 0)) j (get_or xs r 0)

-- "modern version of Fisher-Yates", from position `j` down to 1.
unfoldable pub shuffle : (ℕ → ℕ) → ℕ → List ℕ → List ℕ
unfolding swap
shuffle rnd zero xs = xs
shuffle rnd (suc j) xs = shuffle rnd j (swap xs (rnd (suc j)) (suc j))

unfoldable pub tp_order : ℕ → List ℕ
unfolding param_nr
tp_order grease_type =
    param_nr dcid_o
    ∷ param_nr idto
    ∷ param_nr srt
    ∷ param_nr mups
    ∷ param_nr imd
    ∷ param_nr imsd_bl
    ∷ param_nr imsd_br
    ∷ param_nr imsd_u
    ∷ param_nr imsb
    ∷ param_nr imsu
    ∷ param_nr ade
    ∷ param_nr mad
    ∷ param_nr dmig
    ∷ param_nr prfa
    ∷ param_nr acil
    ∷ param_nr scid_i
    ∷ param_nr scid_r
    ∷ grease_type
    ∷ tp_qr
    ∷ tp_qbg
    ∷ []

-- A connection ID in a token: its length and its bytes.
unfoldable pub tok_cid : List ℕ → Cid × List ℕ
tok_cid bytes =
    let len = get_or bytes 0 0 in
    (record (cid_of_len len) { id = take len (drop 1 bytes) }, drop (1 + len) bytes)

-- The two of a token of this server, behind eight bytes; a client takes none.
unfoldable pub tok_cids : Conn → Cid × Cid
unfolding tok_cid
tok_cids c =
    if not c.is_clnt && not (length c.tok == 0)
    then (let (odcid, rest) = tok_cid (drop 8 c.tok) in (odcid, (tok_cid rest).0))
    else (cid_of_len no_len, cid_of_len no_len)

abbrev pub tp_len : ℕ
tp_len = 4096

-- What the loop is given beside the connection.
unfoldable pub extra_of : Conn → List ℕ → ℕ → TpExtra
unfolding tok_cids
extra_of c grease rand32 = record {
  odcid = (tok_cids c).0;
  rtry_scid = (tok_cids c).1;
  grease_type = 31 * rand32 + 27;
  grease = grease;
}

-- The connection, and the extension.
unfoldable pub init_tp : (ℕ → ℕ) → List ℕ → ℕ → Conn → Option (Conn × List ℕ)
unfolding shuffle tp_order extra_of put_tps
init_tp rnd grease rand32 c =
    let order = shuffle rnd 19 (tp_order (31 * rand32 + 27)) in
    put_tps (record { out = []; room = tp_len }) c (extra_of c grease rand32) order
    >>= (λ w. some ((if c.is_clnt then c else record c { tok = [] }), w.out))
