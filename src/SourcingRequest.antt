-- ===== src/SourcingRequest.antt =====
-- src/sourcing-request: requests for produce that no listing covers yet.
pub mod Rules
pub mod Sync
pub mod Synced
pub mod Service
pub mod Selection
pub mod Confirm
pub mod Stocked
pub mod Methods
pub mod Live
pub mod Confirmed
pub mod OneLive
pub mod Saved
pub mod Closed
