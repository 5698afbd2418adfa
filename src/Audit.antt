-- ===== src/Audit.antt =====
-- src/audit/service.ts: the audit log of the control plane. The tags that only the GitHub sign-in
-- adds to an event are left out.
use agentmesh_mcp.Prelude.{
  ◌≡◌, Bool-cases, inl, inr, arith, ℕ, Bool, true, ◌&&◌, ◌||◌, Option, none, some, [], ◌∷◌, ◌++◌,
  Text, length, leb, ◌==◌, if◌then◌else◌,
}
use agentmesh_mcp.Schema.{
  Db, Uuid, Date, AuditEventType, AuditActor, user, headless_cli, AuditMetadata, AuditEvent,
}
use agentmesh_mcp.Transaction.{Tx, ok, err, internal}
use agentmesh_mcp.Auth.Uuid.{uuid_text}
use agentmesh_mcp.Auth.Pattern.{matches, uuid_v4_pattern, is_base64url}

pub record RecordAuditInput : Type 0 where
  pub user_id : Option Uuid
  pub subject_user_id : Option Uuid
  pub actor : Option AuditActor
  pub request_id : Option Text
  pub project_id : Option Uuid
  pub event_type : AuditEventType
  pub connection_label : Option Text
  pub project_name : Option Text
  pub invitation_id : Option Uuid

abbrev pub audit : AuditEventType → Uuid → Uuid → RecordAuditInput
audit event_type user_id project_id = record {
  user_id = some user_id;
  subject_user_id = none;
  actor = none;
  request_id = none;
  project_id = some project_id;
  event_type = event_type;
  connection_label = none;
  project_name = none;
  invitation_id = none;
}

unfoldable pub is_v4 : Uuid → Bool
is_v4 id = matches uuid_v4_pattern (uuid_text id)

unfoldable pub safe_uuid : Option Uuid → Option Uuid
safe_uuid none = none
safe_uuid (some id) = if is_v4 id then some id else none

-- [A-Za-z0-9._:-]
abbrev pub is_request_char : ℕ → Bool
is_request_char c = is_base64url c || c == b'.' || c == b':'

abbrev pub all_request_chars : Text → Bool
all_request_chars [] = true
all_request_chars (c ∷ cs) = is_request_char c && all_request_chars cs

unfoldable pub safe_request_id : Option Text → Option Text
safe_request_id none = none
safe_request_id (some t) =
    if all_request_chars t && (leb 1 (length t) && leb (length t) 128) then some t else none

unfoldable pub safe_actor : Option AuditActor → Option AuditActor
safe_actor none = none
safe_actor (some headless_cli) = some headless_cli
safe_actor (some (user id)) = if is_v4 id then some (user id) else none

unfoldable pub attributed_metadata : RecordAuditInput → AuditMetadata
attributed_metadata input = record {
  connection_label = input.connection_label;
  project_name = input.project_name;
  invitation_id = safe_uuid input.invitation_id;
  actor = safe_actor input.actor;
  subject_user_id = safe_uuid input.subject_user_id;
  request_id = safe_request_id input.request_id;
}

unfoldable pub valid_attribution : Option Uuid → Option AuditActor → Bool
valid_attribution none none = true
valid_attribution none (some headless_cli) = true
valid_attribution none (some (user id)) = is_v4 id
valid_attribution (some subject) none = is_v4 subject
valid_attribution (some subject) (some headless_cli) = is_v4 subject
valid_attribution (some subject) (some (user id)) = is_v4 subject && is_v4 id

abbrev pub subject_or : Option Uuid → Option Uuid → Option Uuid
subject_or none user_id = user_id
subject_or (some subject) user_id = some subject

unfoldable pub audit_event : RecordAuditInput → Date → AuditEvent
audit_event input recorded_at = record {
  user_id = subject_or input.subject_user_id input.user_id;
  project_id = input.project_id;
  event_type = input.event_type;
  metadata = attributed_metadata input;
  created_at = recorded_at;
}

-- An attribution that is no v4 uuid throws.
unfoldable pub record_audit : {C : Type 0} → RecordAuditInput → Date → Tx C (Unit {0})
record_audit input recorded_at db =
    if valid_attribution input.subject_user_id input.actor
    then ok (tt, record db { audit_events = db.audit_events ++ audit_event input recorded_at ∷ [] })
    else err internal

-- An event that is recorded is one more row of the log, and changes no other table.
pub record_audit-eq-ok :
    {C : Type 0} (input : RecordAuditInput) (at : Date) (db : Db) (u : Unit {0}) (db' : Db)
    → record_audit {C = C} input at db ≡ ok (u, db')
    → record db { audit_events = db.audit_events ++ audit_event input at ∷ [] } ≡ db'
unfolding record_audit
record_audit-eq-ok {C} input at db u db' h =
    elim (Bool-cases (valid_attribution input.subject_user_id input.actor)) [
      | inl e ↦ ground (arith, e, h)
      | inr e ↦ absurd (ground (arith, e, h))
    ]
