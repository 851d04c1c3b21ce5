-- ===== src/Pkt.antt =====
-- Packets: lib/src/pkt.c.
pub mod Numbers
pub mod Restore
mod Runs
