-- ===== src/Kvp/Store.antt =====
-- libazureinit-kvp/src/store.rs: the pool file, one child module for each layer.
pub mod Policy
pub mod Record
pub mod KeySet
pub mod World
pub mod Iter
pub mod Survivors
pub mod Pool
pub mod Tests
