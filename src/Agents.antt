-- ===== src/Agents.antt =====
-- src/agents/service.ts: registration, authentication, the inbox and presence of agents.
pub mod Presence
pub mod Authentication
pub mod Register
pub mod Sync
