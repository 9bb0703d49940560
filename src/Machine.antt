-- ===== src/Machine.antt =====
-- The machine under the programs: the global variables of a protection domain, what it does to the
-- world outside (system calls, stores to mapped memory, debug output) as a trace of events, and
-- the programs over it with C's ways to end.
pub mod State
pub mod Run
pub mod Evolves
pub mod Halts
pub mod Behaves
pub mod Room
pub mod Yields
pub mod Leaves
pub mod Issued
pub mod Bounds
pub mod Laws
pub mod Reasons
