-- ===== src/Tp/Authentic.antt =====
-- Which of the peer's connection IDs chk_tp of lib/src/tls.c authenticates, and which it does not.
use quant.Base.{◌⊎◌, ◌≡◌, ◌≢◌, true, false, length}
use quant.Cid.Lists.{Cid, cid_same}
use quant.Conn.State.{Conn}
use quant.Tp.Params.{◌>>=◌ as bind, passed, TpScan}
use quant.Tp.Check.{received, finish_tp}

abbrev IsChecked : TpScan → Cid → Type 0
IsChecked s dcid =
    (received s.ini_scid ≡ true)
    × (cid_same s.ini_scid dcid ≡ true)
    × (s.conn.is_clnt ≡ true
        → (received s.orig_dcid ≡ true)
          × (length s.conn.tok ≡ 0 → received s.rtry_scid ≡ false)
          × (length s.conn.tok ≢ 0
              → (received s.rtry_scid ≡ true) × (cid_same s.orig_dcid s.conn.odcid ≡ true)))

-- What stands for the connection IDs where `c'` was accepted, and what any `o` could stand for.
abbrev pub Trusts : Cid → Conn → TpScan → Cid → Type 0
Trusts o c' s dcid =
    (received s.ini_scid ≡ true)
    × (cid_same s.ini_scid dcid ≡ true)
    × ((s.conn.is_clnt ≡ false)
        ⊎ ((s.conn.is_clnt ≡ true)
            × (length s.conn.tok ≡ 0)
            × (received s.orig_dcid ≡ true)
            × (received s.rtry_scid ≡ false)
            × (finish_tp (record s { orig_dcid = o }) ≡ passed c'))
        ⊎ ((s.conn.is_clnt ≡ true)
            × (length s.conn.tok ≢ 0)
            × (cid_same s.orig_dcid s.conn.odcid ≡ true)
            × (received s.rtry_scid ≡ true)
            × (finish_tp (record s { rtry_scid = o }) ≡ passed c')))
