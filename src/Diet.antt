-- ===== src/Diet.antt =====
-- lib/src/diet.c and diet.h: discrete interval encoding trees, sets of packet numbers kept as
-- disjoint intervals in a splay tree.
pub mod Tree
pub mod Ops
pub mod Span
pub mod Views
pub mod Near
pub mod Adding
pub mod Below
pub mod Above
pub mod Insert
pub mod Remove
pub mod Meets
pub mod Rounds
pub mod Ends
pub mod Runs
