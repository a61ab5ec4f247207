-- ===== src/Scan.antt =====
-- What scans share in one query: src/include/scan_budget.hpp.
pub mod Budget
pub mod Leases
pub mod Examples
