-- ===== src/Flow.antt =====
-- The sessions of src/flow_aggregator.cpp with src/include/flow_aggregator.hpp.
pub mod Types
pub mod Key
pub mod Account
pub mod Table
pub mod Aggregator
pub mod Counters
pub mod Scan
pub mod Examples
