-- ===== src/Payments.antt =====
-- apps/api/src/payments/payments.service.ts: the charge of a held booking, the webhooks of the
-- provider, refunds, and the polling of what no webhook settled.
pub mod Rows
pub mod Pay
pub mod Effects
pub mod Webhook
pub mod Settlement
pub mod Sound
pub mod Delivered
pub mod Settled
pub mod Replay
pub mod Charged
pub mod Once
pub mod Quoted
mod Tests
pub mod Split
