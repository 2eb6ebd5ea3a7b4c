-- ===== src/Refunds.antt =====
-- apps/api/src/payments/refund-policy.ts and its second copy in apps/web/lib/refund.ts: the
-- cancellation ladder, what a cancellation is worth, and how a total is split for it.
pub mod Policy
pub mod Ladder
pub mod Amounts
pub mod Preview
mod Tests
