-- ===== src/Kvp/Diagnostics.antt =====
-- libazureinit-kvp/src/diagnostics: telemetry records in the pool.
pub mod Model
pub mod External
pub mod Json
pub mod Encode
pub mod CloudInit
pub mod Writer
pub mod Frames
pub mod Reader
pub mod Entries
mod Tests
