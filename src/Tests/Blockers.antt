-- ===== src/Tests/Blockers.antt =====
-- Reports of progress, and a blocker that is resolved.
use agentmesh_mcp.Prelude.{◌≡◌, refl, true, none, some, is_some, [], ◌∷◌, codes, All, find}
use agentmesh_mcp.Schema.{Uuid, Agent, Db, Project, active, ProgressReport, blocked}
use agentmesh_mcp.Transaction.{ok, err, code, transaction}
use agentmesh_mcp.Audit.{
  record_audit, audit_event, attributed_metadata, valid_attribution, is_v4, safe_uuid, safe_actor,
  safe_request_id,
}
use agentmesh_mcp.Agents.Presence.{offline, presence_at}
use agentmesh_mcp.Control.Membership.{is_owned}
use agentmesh_mcp.Pulse.{
  ReportProgressInput, record_progress, record_progress_as, store_report, blocker_reason_of,
  new_report, is_blocked, ResolveBlockerInput, resolve_blocker, resolve_blocker_body, resolve_found,
  with_agent, is_resolvable, update_blocker, resolved, is_report, is_agent, blocker_state_conflict,
}
use agentmesh_mcp.Pulse.Laws.{resolve_blocker-once, resolve_blocker-offline, IsReport}
use agentmesh_mcp.Tests.Data.{auth, project, ann_id, token_of, ann, start, context, queries}

unfoldable pulse : Unit {0}
unfolding queries record_audit audit_event attributed_metadata valid_attribution is_v4 safe_uuid
    safe_actor safe_request_id presence_at transaction record_progress record_progress_as
    store_report blocker_reason_of resolve_blocker resolve_blocker_body resolve_found with_agent
    is_resolvable update_blocker
pulse = tt

abbrev olga : Uuid
olga = 302240678275694148452353

abbrev the_project : Project
the_project = record {
  id = project;
  owner_user_id = some olga;
  name = codes "mesh";
  description = none;
  status = active;
  archived_at = none;
  create_idempotency_key = none;
  created_at = 0;
  updated_at = 0;
}

abbrev stuck : ReportProgressInput
stuck = record {
  agent_token = token_of ann_id;
  summary = codes "stuck";
  current_goal = none;
  files_touched = [];
  test_status = none;
  state = blocked;
  blocker_reason = none;
}

abbrev owned_db : Db
owned_db = record start { projects = the_project ∷ [] }

abbrev report : ProgressReport
report = new_report project stuck 2000 41 ann

abbrev stuck_db : Db
stuck_db = (record_progress auth project stuck context 41 owned_db).1

reports : record_progress auth project stuck context 41 owned_db ≡ (ok report, stuck_db)
unfolding pulse
reports = refl

abbrev resolution : ResolveBlockerInput
resolution = record {
  project_id = project;
  report_id = 41;
  owner_user_id = olga;
  note = none;
  request_id = codes "r3";
}

abbrev resolved_db : Db
resolved_db = (resolve_blocker resolution 1900000 1900000 stuck_db).1

resolves :
    resolve_blocker resolution 1900000 1900000 stuck_db
    ≡ (ok (resolved resolution 1900000 report), resolved_db)
unfolding pulse
resolves = refl

resolve_blocker-offline_example :
    (r : ProgressReport) × (a : Agent) × (is_some (find (is_owned project olga) stuck_db.projects)
      ≡ true)
    × (find (is_report project 41) stuck_db.progress_reports ≡ some r)
    × (find (is_agent r.project_id r.agent_id) stuck_db.agents ≡ some a)
    × (is_blocked r.state ≡ true)
    × (r.resolved_at ≡ none)
    × (presence_at a.last_seen_at 1900000 ≡ offline)
resolve_blocker-offline_example =
    resolve_blocker-offline resolution 1900000 1900000 (resolved resolution 1900000 report) stuck_db
      resolved_db resolves

resolve_blocker-once_example :
    resolve_blocker resolution 1950000 1950000 resolved_db
    ≡ (err (code blocker_state_conflict), resolved_db)
resolve_blocker-once_example =
    resolve_blocker-once resolution resolution 1900000 1900000 1950000 1950000
      (resolved resolution 1900000 report) stuck_db resolved_db resolves refl refl refl

stuck_reports : All IsReport stuck_db.progress_reports
unfolding pulse
stuck_reports = (record { reason = refl; resolution = λ h. refl; resolver = refl }, tt)
