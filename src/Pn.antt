-- ===== src/Pn.antt =====
-- Packet number spaces: lib/src/pn.c.
pub mod Sent
pub mod Acks
pub mod Abandon
pub mod Runs
