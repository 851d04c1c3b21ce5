-- ===== src/Conn/Dcid.antt =====
-- The destination connection ID in use: `use_next_dcid` of lib/src/conn.c.
use quant.Base.{Bool, true, false, Option, some, if◌then◌else◌, ◌>>=◌}
use quant.Cid.Lists.{Cid, next_cid}
use quant.Cid.Ops.{cid_retire}
use quant.Cid.Deref.{deref_cid}
use quant.Conn.State.{Conn}

abbrev pub switch_dcid : Conn → Cid → Conn
switch_dcid c n = record c { spin = if c.spin_enabled then false else c.spin; dcid = n.slot }

-- `none` is the failed check that there is a next one.
unfoldable pub use_next_dcid : Conn → Bool → Option Conn
unfolding deref_cid next_cid cid_retire
use_next_dcid c also_retire = do
  cur ← deref_cid c.dcids c.dcid
  n ← next_cid c.dcids cur.seq
  if also_retire
      then (do
        ids ← cid_retire c.dcids cur
        some (switch_dcid (record c { tx_retire_cid = true; dcids = ids }) n))
      else some (switch_dcid c n)
