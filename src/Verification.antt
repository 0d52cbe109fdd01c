-- ===== src/Verification.antt =====
-- src/verification: the rounds in which an agent checks a farm.
pub mod Agents
pub mod Documents
pub mod Checklist
pub mod Assignment
pub mod Service
pub mod Placed
pub mod Steps
pub mod Methods
pub mod Approve
