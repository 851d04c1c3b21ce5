-- ===== src/Conn.antt =====
-- The connection: its data (lib/src/conn.h, lib/src/stream.h, lib/src/recovery.h, lib/src/pn.h) and
-- its flow control (lib/src/conn.c).
pub mod Packets
pub mod State
pub mod Flow
pub mod Close
pub mod Dcid
pub mod Sample
pub mod Runs
