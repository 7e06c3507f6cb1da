-- ===== src/Controller.antt =====
-- The controller of addon configurations (internal/controller).
pub mod Entry
pub mod Collection
pub mod Protection
pub mod Services
pub mod Memory
pub mod Loading
pub mod Saving
pub mod Removal
pub mod Reconcile
pub mod Registration
mod Tests
