-- ===== src/Schema.antt =====
-- src/db/schema.ts: the rows of the tables (in the children) and the database that the services
-- share, a list of rows for each table.
mod Mesh
mod Control
pub use Mesh.*
pub use Control.*
use agentmesh_mcp.Prelude.{ℕ, List, []}

pub record Db : Type 0 where
  pub agents : List Agent
  pub messages : List Message
  -- the next value of the `bigserial` column `messages.sequence`
  pub next_sequence : ℕ
  pub blackboard_entries : List BlackboardEntry
  pub progress_reports : List ProgressReport
  pub activity_events : List ActivityEvent
  pub users : List User
  pub oauth_identities : List OauthIdentity
  pub web_sessions : List WebSession
  pub oauth_attempts : List OauthAttempt
  pub projects : List Project
  pub memberships : List Membership
  pub invitations : List Invitation
  pub project_tokens : List ProjectToken
  pub audit_events : List AuditEvent

abbrev pub empty_db : Db
empty_db = record {
  agents = [];
  messages = [];
  next_sequence = 1;
  blackboard_entries = [];
  progress_reports = [];
  activity_events = [];
  users = [];
  oauth_identities = [];
  web_sessions = [];
  oauth_attempts = [];
  projects = [];
  memberships = [];
  invitations = [];
  project_tokens = [];
  audit_events = [];
}
