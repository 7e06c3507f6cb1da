-- ===== src/Broker.antt =====
-- The services behind the Open Service Broker API (internal/broker).
pub mod Backend
pub mod Action
pub mod OperationState
pub mod ReleaseName
pub mod Provision
pub mod Deprovision
pub mod LastOperation
pub mod Bind
pub mod Catalog
pub mod Server
pub mod Memory
pub mod Steps
mod Tests
