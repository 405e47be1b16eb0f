-- ===== src/Gc.antt =====
-- src/gc: garbage collection of the global store.
pub mod Policy
