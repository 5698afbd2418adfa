-- ===== src/Schema/Control.antt =====
-- The tables of src/db/schema.ts behind the web control plane: users, sessions, projects,
-- memberships, invitations, connection tokens and the audit log.
use agentmesh_mcp.Prelude.{Option, Text}
use agentmesh_mcp.Schema.Mesh.{Uuid, Date}

pub record User : Type 0 where
  pub id : Uuid
  pub display_name : Text
  pub avatar_url : Option Text
  pub blocked_at : Option Date
  pub created_at : Date
  pub updated_at : Date

-- The rows of the only provider, "github".
pub record OauthIdentity : Type 0 where
  pub user_id : Uuid
  pub provider_user_id : Text
  pub login : Text
  pub created_at : Date
  pub updated_at : Date
  pub last_login_at : Date

pub record WebSession : Type 0 where
  pub id : Uuid
  pub user_id : Uuid
  pub token_digest : Text
  pub csrf_digest : Text
  pub authenticated_at : Date
  pub last_seen_at : Date
  pub idle_expires_at : Date
  pub absolute_expires_at : Date
  pub revoked_at : Option Date

pub record OauthAttempt : Type 0 where
  pub attempt_digest : Text
  pub expires_at : Date
  pub consumed_at : Option Date
  pub created_at : Date

pub data ProjectStatus : Type 0 where
  active archived : ProjectStatus

pub record Project : Type 0 where
  pub id : Uuid
  pub owner_user_id : Option Uuid
  pub name : Text
  pub description : Option Text
  pub status : ProjectStatus
  pub archived_at : Option Date
  pub create_idempotency_key : Option Uuid
  pub created_at : Date
  pub updated_at : Date

pub data Role : Type 0 where
  owner viewer : Role

pub record Membership : Type 0 where
  pub id : Uuid
  pub project_id : Uuid
  pub user_id : Uuid
  pub role : Role
  pub created_by : Uuid
  pub created_at : Date
  pub updated_at : Date

-- The check constraint admits no role but `viewer`.
pub record Invitation : Type 0 where
  pub id : Uuid
  pub project_id : Uuid
  pub token_digest : Text
  pub created_by : Uuid
  pub expires_at : Date
  pub redeemed_by : Option Uuid
  pub redeemed_at : Option Date
  pub revoked_at : Option Date
  pub created_at : Date
  pub updated_at : Date

pub record ProjectToken : Type 0 where
  pub id : Uuid
  pub project_id : Uuid
  pub token_digest : Text
  pub label : Text
  pub created_by_user_id : Option Uuid
  pub expires_at : Option Date
  pub last_used_at : Option Date
  pub revoked_at : Option Date
  pub create_idempotency_key : Option Uuid
  pub created_at : Date

pub data AuditEventType : Type 0 where
  login_succeeded login_failed logout : AuditEventType
  project_created project_archived project_restored project_deleted : AuditEventType
  invitation_created invitation_revoked invitation_redeemed viewer_removed : AuditEventType
  connection_created connection_revoked : AuditEventType
  blocker_resolved : AuditEventType
  user_blocked user_unblocked operator_project_archived project_owner_assigned : AuditEventType

pub data AuditActor : Type 0 where
  user : Uuid → AuditActor
  headless_cli : AuditActor

pub record AuditMetadata : Type 0 where
  pub connection_label : Option Text
  pub project_name : Option Text
  pub invitation_id : Option Uuid
  pub actor : Option AuditActor
  pub subject_user_id : Option Uuid
  pub request_id : Option Text

pub record AuditEvent : Type 0 where
  pub user_id : Option Uuid
  pub project_id : Option Uuid
  pub event_type : AuditEventType
  pub metadata : AuditMetadata
  pub created_at : Date
