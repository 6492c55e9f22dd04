-- ===== src/Controller.antt =====
-- internal/controller: the reconciler of Release resources.
pub mod Conditions
pub mod Drain
pub mod Events
pub mod Manifests
pub mod Configs
pub mod Life
pub mod Reconcile
pub mod Wiring
