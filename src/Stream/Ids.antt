-- ===== src/Stream/Ids.antt =====
-- Stream numbers: who opened a stream, in which directions it goes, and the largest one allowed.
use quant.Base.{
  ℕ, ◌+◌, ◌-◌, ◌/◌, ◌%◌, ◌^◌, ◌≤◌, ◌<◌, ◌≡◌, ◌≢◌, ◌↔◌, Bool, true, false, not, ◌&&◌, ◌==◌,
  if◌then◌else◌, mul64, arith,
}
use quant.Conn.Packets.{
  StrmId, cry_init, cry_hshk, cry_data, numbered, Epoch, ep_init, ep_0rtt, ep_hshk, ep_data,
}
use quant.Conn.State.{Conn, ConnState, conn_opng}

-- -4 has neither of the two low bits, -2 the upper one, -1 both.
abbrev pub is_uni : StrmId → Bool
is_uni cry_init = false
is_uni cry_hshk = true
is_uni cry_data = true
is_uni (numbered sid) = sid / 2 % 2 == 1

abbrev pub is_srv_ini : StrmId → Bool
is_srv_ini cry_init = false
is_srv_ini cry_hshk = false
is_srv_ini cry_data = true
is_srv_ini (numbered sid) = sid % 2 == 1

abbrev pub is_numbered : StrmId → Bool
is_numbered (numbered sid) = true
is_numbered _ = false

abbrev pub id_eq : StrmId → StrmId → Bool
id_eq cry_init cry_init = true
id_eq cry_hshk cry_hshk = true
id_eq cry_data cry_data = true
id_eq (numbered a) (numbered b) = a == b
id_eq _ _ = false

abbrev pub same_bool : Bool → Bool → Bool
same_bool true b = b
same_bool false b = not b

abbrev pub is_opng : ConnState → Bool
is_opng conn_opng = true
is_opng _ = false

abbrev pub strm_epoch : Conn → StrmId → Epoch
strm_epoch c cry_init = ep_init
strm_epoch c cry_hshk = ep_hshk
strm_epoch c cry_data = ep_data
strm_epoch c (numbered sid) = if c.is_clnt && is_opng c.state then ep_0rtt else ep_data

-- The limit on the number of streams of this kind: ours for the streams of the peer, and the peer's
-- for ours.
unfoldable pub strms_limit : ℕ → Conn → ℕ
strms_limit sid c =
    if same_bool (is_srv_ini (numbered sid)) c.is_clnt
    then (if is_uni (numbered sid) then c.tp_mine.max_strms_uni else c.tp_mine.max_strms_bidi)
    else (if is_uni (numbered sid) then c.tp_peer.max_strms_uni else c.tp_peer.max_strms_bidi)

unfoldable pub max_sid : ℕ → Conn → ℕ
max_sid sid c = let max = strms_limit sid c in if max == 0 then 0 else mul64 (max - 1) 4 + sid % 4

-- A stream number is at most the largest allowed one exactly if the count of its kind is below
-- the limit, where the limit is from 1 to 2 ^ 60.
pub max_sid_lem :
    (sid : ℕ) (c : Conn)
    → strms_limit sid c ≤ 2 ^ 60
    → strms_limit sid c ≢ 0
    → (sid ≤ max_sid sid c) ↔ (sid / 4 < strms_limit sid c)
unfolding max_sid
max_sid_lem sid c h k = ground arith

-- With the limit 0, under which no stream is allowed, stream 0 alone is at most the largest allowed
-- number.
pub max_sid_zero : (sid : ℕ) (c : Conn) → strms_limit sid c ≡ 0 → (sid ≤ max_sid sid c) ↔ (sid ≡ 0)
unfolding max_sid
max_sid_zero sid c h = ground arith
