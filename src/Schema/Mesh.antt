-- ===== src/Schema/Mesh.antt =====
-- The tables of src/db/schema.ts behind the MCP tools: a record for a row, a field for a column.
-- A uuid column is the 128-bit number that PostgreSQL stores, a timestamp is in milliseconds.
use agentmesh_mcp.Prelude.{ℕ, Bool, Option, none, List, Text}

abbrev pub Uuid : Type 0
Uuid = ℕ

abbrev pub Date : Type 0
Date = ℕ

pub record Agent : Type 0 where
  pub id : Uuid
  pub project_id : Uuid
  pub registered_via_token_id : Option Uuid
  pub registration_digest : Text
  pub name : Text
  pub client : Text
  pub capabilities : List Text
  pub last_seen_at : Date
  pub created_at : Date

pub record Message : Type 0 where
  pub sequence : ℕ
  pub id : Uuid
  pub project_id : Uuid
  pub sender_agent_id : Uuid
  pub recipient_agent_id : Uuid
  pub text : Text
  pub idempotency_key : Uuid
  pub created_at : Date
  pub acknowledged_at : Option Date

pub data AuthorType : Type 0 where
  agent user : AuthorType

pub record BlackboardEntry : Type 0 where
  pub id : Uuid
  pub project_id : Uuid
  pub namespace : Text
  pub key : Text
  pub value : Text
  pub tags : List Text
  pub version : ℕ
  pub ttl_seconds : Option ℕ
  pub expires_at : Option Date
  pub created_by_type : AuthorType
  pub created_by_id : Uuid
  pub last_updated_by_type : AuthorType
  pub last_updated_by_id : Uuid
  pub created_at : Date
  pub updated_at : Date

pub record TestStatusReport : Type 0 where
  pub passed : ℕ
  pub failed : ℕ
  pub skipped : Option ℕ

pub data ProgressState : Type 0 where
  in_progress blocked completed idle : ProgressState

pub record ProgressReport : Type 0 where
  pub id : Uuid
  pub project_id : Uuid
  pub agent_id : Uuid
  pub summary : Text
  pub current_goal : Option Text
  pub files_touched : List Text
  pub test_status : Option TestStatusReport
  pub state : ProgressState
  pub blocker_reason : Option Text
  pub resolved_at : Option Date
  pub resolved_by_user_id : Option Uuid
  pub resolution_note : Option Text
  pub created_at : Date

pub data ActivityEventType : Type 0 where
  agent_registered agent_registration_failed agent_synced agent_progress_reported :
      ActivityEventType
  message_sent message_send_failed message_acknowledged : ActivityEventType
  blackboard_fact_set blackboard_fact_deleted mcp_request_failed : ActivityEventType

pub data ActivityOutcome : Type 0 where
  success failure : ActivityOutcome

pub record ActivityMetadata : Type 0 where
  pub message_bytes : Option ℕ
  pub delivered_count : Option ℕ
  pub acknowledged_count : Option ℕ
  pub poll_limit : Option ℕ
  pub deduplicated : Option Bool
  pub blackboard_namespace : Option Text
  pub blackboard_key : Option Text
  pub blackboard_version : Option ℕ

abbrev pub no_metadata : ActivityMetadata
no_metadata = record {
  message_bytes = none;
  delivered_count = none;
  acknowledged_count = none;
  poll_limit = none;
  deduplicated = none;
  blackboard_namespace = none;
  blackboard_key = none;
  blackboard_version = none;
}

pub data AgentMeshErrorCode : Type 0 where
  agent_auth_invalid project_auth_invalid registration_conflict : AgentMeshErrorCode
  target_agent_invalid idempotency_conflict version_conflict internal_error : AgentMeshErrorCode

pub record ActivityEvent : Type 0 where
  pub project_id : Uuid
  pub request_id : Uuid
  pub event_type : ActivityEventType
  pub outcome : ActivityOutcome
  pub actor_agent_id : Option Uuid
  pub target_agent_id : Option Uuid
  pub message_id : Option Uuid
  pub error_code : Option AgentMeshErrorCode
  pub metadata : ActivityMetadata
  pub created_at : Date
