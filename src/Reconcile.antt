-- ===== src/Reconcile.antt =====
-- apps/api/src/admin/reconciliation.service.ts: the report of what does not add up.
pub mod Checks
pub mod Report
pub mod Accounted
pub mod Joined
pub mod Clean
pub mod Waived
mod Tests
pub mod Polled
