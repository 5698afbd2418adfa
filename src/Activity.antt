-- ===== src/Activity.antt =====
-- src/activity/service.ts: the events of the MCP plane. An event is one more row; its insertion
-- into a database that holds the rows it refers to does not fail.
use agentmesh_mcp.Prelude.{ℕ, Option, none, some, List, [], ◌∷◌, ◌++◌, ltb, if◌then◌else◌}
use agentmesh_mcp.Schema.{
  Uuid, Date, Db, ActivityEvent, ActivityEventType, ActivityOutcome, ActivityMetadata, no_metadata,
  AgentMeshErrorCode,
}

-- The context of an operation, with what the clocks of the service and of the activity log say
-- while it runs.
pub record OperationContext : Type 0 where
  pub request_id : Uuid
  pub now : Date
  pub recorded_at : Date

pub record RecordActivityInput : Type 0 where
  pub project_id : Uuid
  pub event_type : ActivityEventType
  pub outcome : ActivityOutcome
  pub actor_agent_id : Option Uuid
  pub target_agent_id : Option Uuid
  pub message_id : Option Uuid
  pub error_code : Option AgentMeshErrorCode
  pub metadata : ActivityMetadata

-- An input with the optional fields left out.
abbrev pub activity : Uuid → ActivityEventType → ActivityOutcome → RecordActivityInput
activity project_id event_type outcome = record {
  project_id = project_id;
  event_type = event_type;
  outcome = outcome;
  actor_agent_id = none;
  target_agent_id = none;
  message_id = none;
  error_code = none;
  metadata = no_metadata;
}

unfoldable pub positive : Option ℕ → Option ℕ
positive none = none
positive (some n) = if ltb 0 n then some n else none

-- A version that is not positive is dropped; the other fields have their types already.
unfoldable pub safe_metadata : ActivityMetadata → ActivityMetadata
unfolding positive
safe_metadata m = record m { blackboard_version = positive m.blackboard_version }

unfoldable pub activity_event : OperationContext → RecordActivityInput → ActivityEvent
unfolding safe_metadata
activity_event context input = record {
  project_id = input.project_id;
  request_id = context.request_id;
  event_type = input.event_type;
  outcome = input.outcome;
  actor_agent_id = input.actor_agent_id;
  target_agent_id = input.target_agent_id;
  message_id = input.message_id;
  error_code = input.error_code;
  metadata = safe_metadata input.metadata;
  created_at = context.recorded_at;
}

abbrev pub record_activity : OperationContext → RecordActivityInput → Db → Db
record_activity context input db = record db {
  activity_events = db.activity_events ++ activity_event context input ∷ [];
}

-- `for (…) await activity.record(…)`
abbrev pub record_activities : OperationContext → List RecordActivityInput → Db → Db
record_activities context [] db = db
record_activities context (input ∷ inputs) db =
    record_activities context inputs (record_activity context input db)
