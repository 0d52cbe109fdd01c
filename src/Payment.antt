-- ===== src/Payment.antt =====
-- src/payment: payment attempts, refunds, and the release of checkouts that were not paid.
pub mod Expiry
pub mod Service
pub mod Refund
pub mod Charge
pub mod Methods
pub mod Attempts
