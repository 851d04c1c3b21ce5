-- ===== src/Recovery.antt =====
-- Loss detection and congestion control: lib/src/recovery.c.
pub mod Congestion
pub mod Rtt
pub mod Timer
pub mod Lost
pub mod Flight
pub mod Detect
pub mod Deemed
pub mod Losing
pub mod Balance
pub mod Runs
