-- ===== src/Tp.antt =====
-- The transport parameters that the two ends of a connection exchange: init_tp and chk_tp of
-- lib/src/tls.c.
pub mod Params
pub mod Dec
pub mod Check
pub mod Passes
pub mod Bounds
pub mod Loop
pub mod Authentic
pub mod Enc
pub mod Init
pub mod Bytes
pub mod Items
pub mod Rounds
pub mod Written
pub mod Told
pub mod RoundTrip
pub mod Shuffle
pub mod Runs
