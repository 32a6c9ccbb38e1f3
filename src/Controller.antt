-- ===== src/Controller.antt =====
-- internal/controller: the reconciler of TagUpdater resources.
pub mod Env
pub mod Effects
pub mod ArgoCd
pub mod Skips
pub mod Repo
pub mod Validation
pub mod Credentials
pub mod Release
pub mod Conditions
pub mod Rollback
pub mod Health
pub mod Outcome
pub mod Status
pub mod Guards
pub mod Select
pub mod Write
pub mod Reconcile
pub mod Watch
