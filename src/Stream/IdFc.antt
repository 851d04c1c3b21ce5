-- ===== src/Stream/IdFc.antt =====
-- The limits on the number of streams: `do_stream_id_fc` of lib/src/stream.c.
use quant.Base.{
  ℕ, ◌⊎◌, inl, inr, Bool-cases, ◌+◌, ◌^◌, ◌<◌, ◌≡◌, Bool, true, false, not, ◌&&◌, ◌||◌, ◌==◌,
  if◌then◌else◌, mul64, arith,
}
use quant.Conn.State.{Conn}

-- A stream that this end opens.
unfoldable pub local_id_fc : Conn → ℕ → Bool → Conn
local_id_fc c cnt bidi =
    if bidi && not c.sid_blocked_bidi
    then record c { sid_blocked_bidi = cnt == c.tp_peer.max_strms_bidi }
    else if not c.sid_blocked_uni
    then record c {
      sid_blocked_uni = not (c.tp_peer.max_strms_uni == 0) && cnt == c.tp_peer.max_strms_uni;
    }
    else c

-- A stream that the peer opens.
unfoldable pub remote_id_fc : Conn → ℕ → Bool → Conn
remote_id_fc c cnt bidi =
    if bidi
    then (if cnt == c.tp_mine.max_strms_bidi
        then record c {
          tx_max_sid_bidi = true;
          tp_mine = record (c.tp_mine) { max_strms_bidi = mul64 c.tp_mine.max_strms_bidi 2 };
        }
        else c)
    else if cnt == c.tp_mine.max_strms_uni
    then record c {
      tx_max_sid_uni = true;
      tp_mine = record (c.tp_mine) { max_strms_uni = mul64 c.tp_mine.max_strms_uni 2 };
    }
    else c

unfoldable pub do_stream_id_fc : Conn → ℕ → Bool → Bool → Conn
unfolding local_id_fc remote_id_fc
do_stream_id_fc c cnt bidi is_local =
    if is_local then local_id_fc c cnt bidi else remote_id_fc c cnt bidi

-- When the peer opens the last stream that is allowed, the limit of its kind doubles and its
-- announcement is scheduled, and the limit of the other kind stays; while it has opened fewer, nothing
-- changes. So a count within the limit is strictly within it afterwards. Limits are from 1 to below
-- 2 ^ 60.
pub remote_id_fc_lem :
    (c : Conn) (cnt : ℕ) (bidi : Bool)
    → 0 < (if bidi then c.tp_mine.max_strms_bidi else c.tp_mine.max_strms_uni)
    → (if bidi then c.tp_mine.max_strms_bidi else c.tp_mine.max_strms_uni) < 2 ^ 60
    → cnt < (if bidi then c.tp_mine.max_strms_bidi else c.tp_mine.max_strms_uni) + 1
    → let c' = do_stream_id_fc c cnt bidi false in
      let lim = if bidi then c.tp_mine.max_strms_bidi else c.tp_mine.max_strms_uni in
      let lim' = if bidi then c'.tp_mine.max_strms_bidi else c'.tp_mine.max_strms_uni in
      (((cnt ≡ lim)
          × (lim' ≡ lim + lim)
          × ((if bidi then c'.tp_mine.max_strms_uni else c'.tp_mine.max_strms_bidi)
              ≡ (if bidi then c.tp_mine.max_strms_uni else c.tp_mine.max_strms_bidi))
          × ((if bidi then c'.tx_max_sid_bidi else c'.tx_max_sid_uni) ≡ true))
        ⊎ ((cnt < lim) × (c' ≡ c)))
      × (cnt < lim')
unfolding do_stream_id_fc remote_id_fc
remote_id_fc_lem c cnt true p h k = (
  elim (Bool-cases (cnt == c.tp_mine.max_strms_bidi)) [
    | inl e ↦ inl (ground arith, ground arith, ground arith, ground arith)
    | inr e ↦ inr (ground arith, ground arith)
  ],
  ground arith,
)
remote_id_fc_lem c cnt false p h k = (
  elim (Bool-cases (cnt == c.tp_mine.max_strms_uni)) [
    | inl e ↦ inl (ground arith, ground arith, ground arith, ground arith)
    | inr e ↦ inr (ground arith, ground arith)
  ],
  ground arith,
)

-- A local stream marks its kind as blocked when its count reaches the peer's limit, a limit of 0 on
-- unidirectional streams apart. But a bidirectional stream that comes when its kind is marked
-- already is counted against the limit on unidirectional streams, and may mark those as blocked.
pub local_id_fc_lem :
    (c : Conn) (cnt : ℕ)
    → ((do_stream_id_fc c cnt true true).sid_blocked_bidi
        ≡ (c.sid_blocked_bidi || cnt == c.tp_peer.max_strms_bidi))
      × ((do_stream_id_fc c cnt false true).sid_blocked_uni ≡ (
          c.sid_blocked_uni
          || not (c.tp_peer.max_strms_uni == 0) && cnt == c.tp_peer.max_strms_uni))
      × ((do_stream_id_fc c cnt true true).sid_blocked_uni ≡ (
          c.sid_blocked_uni
          || c.sid_blocked_bidi
            && (not (c.tp_peer.max_strms_uni == 0) && cnt == c.tp_peer.max_strms_uni)))
unfolding do_stream_id_fc local_id_fc
local_id_fc_lem c cnt = ground arith
