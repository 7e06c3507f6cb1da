-- ===== src/Storage.antt =====
-- The storage drivers. Of the in-memory one (internal/storage/driver/memory) there is one module for each
-- entity. Every method holds the store's lock from its first line to its return, so a method is one step: a
-- function from the store to the new store and the results. Etcd is internal/storage/driver/etcd.
pub mod Operations
pub mod BindOperations
pub mod Instances
pub mod BindData
pub mod Addons
pub mod Charts
pub mod Etcd
mod Tests
