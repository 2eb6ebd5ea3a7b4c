-- ===== src/Reports.antt =====
-- apps/api/src/reports/reports.service.ts: the revenue report of a venue.
pub mod Revenue
pub mod Report
pub mod Sums
pub mod Agree
mod Tests
