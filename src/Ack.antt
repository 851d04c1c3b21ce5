-- ===== src/Ack.antt =====
-- ACK frames: `enc_ack_frame` of lib/src/frame.c and `track_acked_pkts` of lib/src/recovery.c.
pub mod Ops
pub mod Ranges
pub mod Down
pub mod RoundTrip
pub mod Runs
