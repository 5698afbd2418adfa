-- ===== src/Pulse.antt =====
-- src/pulse/service.ts, `recordProgress`, and src/pulse/resolution-service.ts, `resolveBlocker`.
-- The id that the database gives a report is an argument.
pub mod Laws
pub mod Daily
use agentmesh_mcp.Prelude.{
  ℕ, ◌+◌, ◌*◌, ◌≡◌, Bool, true, false, not, ◌&&◌, Option, none, some, List, [], ◌∷◌, ◌++◌, Text,
  codes, ◌==◌, ltb, is_none, is_some, is_value, find, update, if◌then◌else◌,
}
use agentmesh_mcp.Schema.{
  Uuid, Date, Db, Agent, Project, ProgressReport, ProgressState, blocked, in_progress, completed,
  idle, TestStatusReport, AgentMeshErrorCode, agent_progress_reported, success, blocker_resolved,
  user,
}
use agentmesh_mcp.Transaction.{
  Result, ok, err, Failure, code, internal, Tx, pure, throw, read, write, require, ◌>>=◌, ◌>>◌,
  transaction,
}
use agentmesh_mcp.Activity.{OperationContext, RecordActivityInput, activity, record_activity}
use agentmesh_mcp.Audit.{RecordAuditInput, audit, record_audit}
use agentmesh_mcp.Agents.Authentication.{Authenticator}
use agentmesh_mcp.Control.Membership.{is_owned}

pub record ReportProgressInput : Type 0 where
  pub agent_token : Text
  pub summary : Text
  pub current_goal : Option Text
  pub files_touched : List Text
  pub test_status : Option TestStatusReport
  pub state : ProgressState
  pub blocker_reason : Option Text

abbrev pub is_blocked : ProgressState → Bool
is_blocked blocked = true
is_blocked in_progress = false
is_blocked completed = false
is_blocked idle = false

abbrev pub value_or : Option Text → Text → Text
value_or none t = t
value_or (some s) t = s

unfoldable pub blocker_reason_of : ReportProgressInput → Option Text
blocker_reason_of input =
    if is_blocked input.state
    then some (value_or input.blocker_reason (codes "Unspecified blocker"))
    else none

abbrev pub new_report : Uuid → ReportProgressInput → Date → Uuid → Agent → ProgressReport
new_report project_id input now id agent = record {
  id = id;
  project_id = project_id;
  agent_id = agent.id;
  summary = input.summary;
  current_goal = input.current_goal;
  files_touched = input.files_touched;
  test_status = input.test_status;
  state = input.state;
  blocker_reason = blocker_reason_of input;
  resolved_at = none;
  resolved_by_user_id = none;
  resolution_note = none;
  created_at = now;
}

abbrev pub is_agent : Uuid → Uuid → Agent → Bool
is_agent project_id id a = a.project_id == project_id && a.id == id

abbrev pub seen : Date → Agent → Agent
seen now a = record a { last_seen_at = now }

abbrev pub progress_event : Uuid → Agent → RecordActivityInput
progress_event project_id agent = record (activity project_id agent_progress_reported success) {
  actor_agent_id = some agent.id;
}

-- The rows that a report by an authenticated agent writes.
unfoldable pub store_report :
    Uuid
    → ReportProgressInput
    → OperationContext
    → Uuid
    → Agent
    → Tx AgentMeshErrorCode ProgressReport
store_report project_id input context id agent = do
  write (λ db. record db {
    agents = update (is_agent project_id agent.id) (seen context.now) db.agents;
  })
  write (λ db. record db {
    progress_reports = db.progress_reports ++ new_report project_id input context.now id agent ∷ [];
  })
  write (record_activity context (progress_event project_id agent))
  pure (new_report project_id input context.now id agent)

unfoldable pub record_progress_as :
    Uuid
    → ReportProgressInput
    → OperationContext
    → Uuid
    → Result AgentMeshErrorCode Agent
    → Tx AgentMeshErrorCode ProgressReport
record_progress_as project_id input context id (err e) db = err e
record_progress_as project_id input context id (ok agent) db =
    store_report project_id input context id agent db

unfoldable pub record_progress :
    Authenticator
    → Uuid
    → ReportProgressInput
    → OperationContext
    → Uuid
    → Db
    → Result AgentMeshErrorCode ProgressReport × Db
unfolding record_progress_as
record_progress auth project_id input context id db =
    transaction
      (record_progress_as project_id input context id
        (auth.authenticate project_id input.agent_token db.agents))
      db

pub data PulseResolutionErrorCode : Type 0 where
  project_not_found blocker_not_found blocker_state_conflict : PulseResolutionErrorCode

pub record ResolveBlockerInput : Type 0 where
  pub project_id : Uuid
  pub report_id : Uuid
  pub owner_user_id : Uuid
  pub note : Option Text
  pub request_id : Text

abbrev pub offline_after : ℕ
offline_after = 30 * 60 * 1000

abbrev pub is_report : Uuid → Uuid → ProgressReport → Bool
is_report project_id id r = r.id == id && r.project_id == project_id

-- The inner join of a report with its agent.
unfoldable pub with_agent : List Agent → Option ProgressReport → Option (ProgressReport × Agent)
with_agent agents none = none
with_agent agents (some r) = elim (find (is_agent r.project_id r.agent_id) agents) [
  | none ↦ none
  | some a ↦ some (r, a)
]

-- lastSeenAt < now - OFFLINE_AFTER_MS
unfoldable pub is_resolvable : Date → ProgressReport → Agent → Bool
is_resolvable now r a =
    is_blocked r.state && (is_none r.resolved_at && ltb (a.last_seen_at + offline_after) now)

abbrev pub is_unresolved : Uuid → Uuid → ProgressReport → Bool
is_unresolved project_id id r =
    is_report project_id id r && (is_blocked r.state && is_none r.resolved_at)

abbrev pub resolved : ResolveBlockerInput → Date → ProgressReport → ProgressReport
resolved input now r = record r {
  resolved_at = some now;
  resolved_by_user_id = some input.owner_user_id;
  resolution_note = input.note;
}

abbrev pub resolved_event : ResolveBlockerInput → RecordAuditInput
resolved_event input = record (audit blocker_resolved input.owner_user_id input.project_id) {
  actor = some (user input.owner_user_id);
  request_id = some input.request_id;
}

unfoldable pub update_blocker : ResolveBlockerInput → Date → Tx PulseResolutionErrorCode (Unit {0})
update_blocker input now db =
    if is_some (find (is_unresolved input.project_id input.report_id) db.progress_reports)
    then ok (
      tt,
      record db {
        progress_reports =
            update (is_unresolved input.project_id input.report_id) (resolved input now)
              db.progress_reports;
      },
    )
    else err (code blocker_state_conflict)

unfoldable pub resolve_found :
    ResolveBlockerInput
    → Date
    → Date
    → Option (ProgressReport × Agent)
    → Tx PulseResolutionErrorCode ProgressReport
resolve_found input now recorded_at none = throw blocker_not_found
resolve_found input now recorded_at (some (r, a)) = do
  require (is_resolvable now r a) blocker_state_conflict
  update_blocker input now
  record_audit (resolved_event input) recorded_at
  pure (resolved input now r)

unfoldable pub resolve_blocker_body :
    ResolveBlockerInput → Date → Date → Tx PulseResolutionErrorCode ProgressReport
resolve_blocker_body input now recorded_at = do
  (λ db.
      require (is_some (find (is_owned input.project_id input.owner_user_id) db.projects))
        project_not_found db)
  (λ db.
      resolve_found input now recorded_at
        (with_agent db.agents
          (find (is_report input.project_id input.report_id) db.progress_reports))
        db)

unfoldable pub resolve_blocker :
    ResolveBlockerInput → Date → Date → Db → Result PulseResolutionErrorCode ProgressReport × Db
resolve_blocker input now recorded_at db =
    transaction (resolve_blocker_body input now recorded_at) db
