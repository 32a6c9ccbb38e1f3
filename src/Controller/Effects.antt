-- ===== src/Controller/Effects.antt =====
-- Which effects the parts of a reconcile have, for any relation between the states before and after
-- that allows the smallest ones.
pub mod Rules
pub mod Lookups
pub mod Endings
pub mod Watch
pub mod Guards
pub mod Select
pub mod Write
pub mod Phases
pub mod Kept
