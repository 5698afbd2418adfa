-- ===== src/Tests.antt =====
-- The theorems applied to small databases.
mod Data
mod Agents
mod Messages
mod Facts
mod Invitations
mod Blockers
mod Sessions
mod Projects
mod Control
mod Connections
mod SignIn
mod Operators
mod Days
mod Reading
