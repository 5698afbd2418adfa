-- ===== src/Control/Projects/Deletion.antt =====
-- src/control/project-service.ts: the deletion of a project.
use agentmesh_mcp.Prelude.{
  Bool, Option, none, some, Text, text_eq, ◌==◌, find, delete, if◌then◌else◌,
}
use agentmesh_mcp.Schema.{
  Uuid, Date, Db, Agent, Message, BlackboardEntry, ProgressReport, ActivityEvent, ProjectToken,
  Project, Membership, Invitation, project_deleted,
}
use agentmesh_mcp.Transaction.{Result, err, code, throw, write, require, ◌>>◌, transaction}
use agentmesh_mcp.Audit.{RecordAuditInput, audit, record_audit}
use agentmesh_mcp.Control.Membership.{is_owned}
use agentmesh_mcp.Control.Projects.{
  ProjectTx, OwnedProjectInput, ControlProjectErrorCode, project_not_found,
  project_confirmation_mismatch, recent_auth_required, recent_authentication,
}

-- DELETE of a project: every table that refers to it is declared with ON DELETE CASCADE, but for
-- the audit log, which has no foreign key to the projects.
unfoldable pub delete_cascade : (Project → Bool) → Uuid → Db → Db
delete_cascade p id db = record db {
  projects = delete p db.projects;
  agents = delete (λ (x : Agent). x.project_id == id) db.agents;
  messages = delete (λ (x : Message). x.project_id == id) db.messages;
  blackboard_entries = delete (λ (x : BlackboardEntry). x.project_id == id) db.blackboard_entries;
  progress_reports = delete (λ (x : ProgressReport). x.project_id == id) db.progress_reports;
  activity_events = delete (λ (x : ActivityEvent). x.project_id == id) db.activity_events;
  memberships = delete (λ (x : Membership). x.project_id == id) db.memberships;
  invitations = delete (λ (x : Invitation). x.project_id == id) db.invitations;
  project_tokens = delete (λ (x : ProjectToken). x.project_id == id) db.project_tokens;
}

abbrev pub deleted_event : Project → Uuid → RecordAuditInput
deleted_event p owner_user_id = record (audit project_deleted owner_user_id p.id) {
  project_name = some p.name;
}

unfoldable pub delete_found :
    OwnedProjectInput → Text → Date → Option Project → ProjectTx (Unit {0})
delete_found input confirm_name recorded_at none = throw project_not_found
delete_found input confirm_name recorded_at (some p) = do
  require (text_eq confirm_name p.name) project_confirmation_mismatch
  write (delete_cascade (is_owned input.project_id input.owner_user_id) input.project_id)
  record_audit (deleted_event p input.owner_user_id) recorded_at

unfoldable pub delete_body : OwnedProjectInput → Text → Date → ProjectTx (Unit {0})
delete_body input confirm_name recorded_at db =
    delete_found input confirm_name recorded_at
      (find (is_owned input.project_id input.owner_user_id) db.projects) db

unfoldable pub delete_project :
    OwnedProjectInput
    → Text
    → Date
    → Option Date
    → Date
    → Db
    → Result ControlProjectErrorCode (Unit {0}) × Db
delete_project input confirm_name authenticated_at now recorded_at db =
    if recent_authentication now authenticated_at
    then transaction (delete_body input confirm_name recorded_at) db
    else (err (code recent_auth_required), db)
