-- ===== src/Stream.antt =====
-- Streams: lib/src/stream.c and the inline functions of lib/src/stream.h.
pub mod Ids
pub mod Store
pub mod Fc
pub mod IdFc
pub mod Life
pub mod Reassembly
pub mod InOrder
pub mod Placing
pub mod FinalSize
pub mod Runs
