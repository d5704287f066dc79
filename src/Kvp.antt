-- ===== src/Kvp.antt =====
-- libazureinit-kvp: the Hyper-V key/value pool and the telemetry that is kept in it.
pub mod Error
pub mod Store
pub mod Diagnostics
pub mod Report
pub mod VmId
pub mod Cli
