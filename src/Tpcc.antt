-- ===== src/Tpcc.antt =====
-- The TPC-C helpers.
pub mod HostConfig
pub mod SplitKeys
pub mod Histogram
pub mod Aggregate
pub mod RunLog
pub mod Validate
pub mod Schema
pub mod Configs
pub mod Operations
pub mod Maintenance
pub mod Indices
pub mod Transfer
pub mod Compaction
