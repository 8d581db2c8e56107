-- ===== src/AtomSpace.antt =====
-- ts/src/atomspace.ts: the typed metagraph.
pub mod Lattice
pub mod Values
pub mod Space
pub mod Log
pub mod Write
pub mod Durability
pub mod Restart
pub mod Types
pub mod Read
pub mod Indexes
pub mod Import
