-- ===== src/Samples.antt =====
-- The actors of the tests of the crate, in meio/src/lib.rs.
pub mod Many
pub mod MyActor
