-- ===== src/Marshall.antt =====
-- lib/src/marshall.c: integers, QUIC variable-length integers and byte strings in packet buffers.
pub mod Buffer
pub mod Enc
pub mod Dec
pub mod Varint
pub mod Fixed
pub mod RoundTrip
pub mod Padded
pub mod Runs
