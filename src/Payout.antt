-- ===== src/Payout.antt =====
-- src/payout: paying farmers for fulfilled orders.
pub mod Eligibility
pub mod Service
pub mod Once
pub mod Exclusive
pub mod Approve
pub mod Methods
pub mod Refunds
