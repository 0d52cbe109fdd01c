-- ===== src/Farm.antt =====
-- src/farm and src/verification/services/farm-documents.service.ts: a farmer's farms.
pub mod Service
pub mod Update
pub mod Documents
pub mod InStep
pub mod Opened
pub mod Updated
pub mod Rewritten
pub mod Methods
pub mod Rounds
pub mod Decisions
pub mod Agents
pub mod Reopen
