-- ===== src/Cid.antt =====
-- Connection IDs: lib/src/cid.c.
pub mod Lists
pub mod Next
pub mod Ops
pub mod Laws
pub mod Deref
pub mod Retire
pub mod Runs
