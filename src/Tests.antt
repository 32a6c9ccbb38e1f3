-- ===== src/Tests.antt =====
-- Concrete runs of the reconciler, and instances of the theorems at concrete inputs.
pub mod World
pub mod Run
mod Watching
mod Picking
pub mod Manifest
mod Tracking
mod Writing
mod Listing
