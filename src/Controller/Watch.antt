-- ===== src/Controller/Watch.antt =====
-- Properties of `checkHealthAndMaybeRollback` and its parts.
pub mod Quiet
pub mod Failure
pub mod Verdict
pub mod Unreadable
pub mod Abandoned
