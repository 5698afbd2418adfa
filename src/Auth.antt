-- ===== src/Auth.antt =====
-- src/auth/*.ts: the bearer credentials of agents and projects, and the texts of their ids.
pub mod Uuid
pub mod Pattern
pub mod AgentToken
pub mod ProjectToken
pub mod RoundTrip
