-- ===== src/Arena.antt =====
-- arena.c: the array that grows by segments (Array, with its places in Laws) beside the list of its
-- elements (Refines, Append), and the lists of page blocks (Blocks) with their bytes (Amounts).
pub mod Array
pub mod Laws
pub mod Refines
pub mod Append
pub mod Blocks
pub mod Amounts
