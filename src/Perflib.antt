-- ===== src/Perflib.antt =====
-- internal/pdh/registry: the performance data of the registry, from bytes to objects, instances and counters.
pub mod Bytes
pub mod RawTypes
pub mod Parse
pub mod RawData
pub mod Rows
pub mod Names
