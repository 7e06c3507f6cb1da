-- ===== src/Model.antt =====
-- The data model of internal/model.go: identifiers, addons and their plans, service instances and
-- the operations on them.
pub mod Values
mod Tests
pub mod Addons
pub mod Operations
pub mod Instances
pub mod Charts
pub mod Configurations
