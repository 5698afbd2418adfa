-- ===== src/Control/Operator/Catalogue.antt =====
-- src/control/operator-service.ts: what an operator changes of projects.
use agentmesh_mcp.Prelude.{
  ℕ, Bool, true, false, not, ◌&&◌, ◌||◌, Option, none, some, [], ◌∷◌, Text, text_eq, length, leb,
  is_none, find, update, if◌then◌else◌,
}
use agentmesh_mcp.Schema.{
  Uuid, Date, Db, User, OauthIdentity, Project, ProjectStatus, archived, headless_cli,
  operator_project_archived, project_owner_assigned,
}
use agentmesh_mcp.Transaction.{Result, err, code, pure, throw, write, require, ◌>>◌, transaction}
use agentmesh_mcp.Audit.{RecordAuditInput, record_audit, is_v4}
use agentmesh_mcp.WebAuth.Session.{is_user}
use agentmesh_mcp.Projects.{is_active, has_project_id}
use agentmesh_mcp.Control.Projects.{below_limit, owner_membership, insert_membership}
use agentmesh_mcp.Control.Operator.{
  OperatorControlErrorCode, invalid_request, user_not_found, user_is_blocked, project_not_found,
  project_state_conflict, project_limit_reached, control_unavailable, OperatorTx, operator_event,
}

pub record ProjectMutationInput : Type 0 where
  pub operator_user_id : Uuid
  pub project_id : Uuid
  pub request_id : Text

pub record AssignOwnerInput : Type 0 where
  pub project_id : Uuid
  pub github_user_id : Text
  pub request_id : Text

-- /^[1-9]\d{0,63}$/
unfoldable pub all_digits : Text → Bool
all_digits [] = true
all_digits (c ∷ cs) = (leb b'0' c && leb c b'9') && all_digits cs

unfoldable pub is_github_id : Text → Bool
is_github_id [] = false
is_github_id (c ∷ cs) = (leb b'1' c && leb c b'9') && (all_digits cs && leb (length cs) 63)

pub record ArchivedByOperator : Type 0 where
  pub id : Uuid
  pub status : ProjectStatus
  pub archived_at : Option Date
  pub updated_at : Date

abbrev pub is_active_id : Uuid → Project → Bool
is_active_id id p = has_project_id id p && is_active p.status

abbrev pub operator_archived : Date → Project → Project
operator_archived now p = record p { status = archived; archived_at = some now; updated_at = now }

abbrev pub archive_event : ProjectMutationInput → Project → RecordAuditInput
archive_event input p =
    record (operator_event operator_project_archived p.owner_user_id input.operator_user_id
      input.request_id) { project_id = some p.id; project_name = some p.name }

unfoldable pub archive_found :
    ProjectMutationInput → Date → Date → Option Project → OperatorTx ArchivedByOperator
archive_found input now recorded_at none = throw project_not_found
archive_found input now recorded_at (some p) = do
  require (is_active p.status) project_state_conflict
  write (λ db. record db {
    projects = update (is_active_id input.project_id) (operator_archived now) db.projects;
  })
  record_audit (archive_event input p) recorded_at
  pure (record { id = p.id; status = archived; archived_at = some now; updated_at = now })

unfoldable pub archive_body : ProjectMutationInput → Date → Date → OperatorTx ArchivedByOperator
archive_body input now recorded_at db =
    archive_found input now recorded_at (find (has_project_id input.project_id) db.projects) db

unfoldable pub archive_at :
    ProjectMutationInput
    → Option Date
    → Date
    → Db
    → Result OperatorControlErrorCode ArchivedByOperator × Db
archive_at input none recorded_at db = (err (code control_unavailable), db)
archive_at input (some now) recorded_at db = transaction (archive_body input now recorded_at) db

unfoldable pub archive_project :
    ProjectMutationInput
    → Option Date
    → Date
    → Db
    → Result OperatorControlErrorCode ArchivedByOperator × Db
archive_project input now recorded_at db =
    if is_v4 input.operator_user_id && is_v4 input.project_id
    then archive_at input now recorded_at db
    else (err (code invalid_request), db)

pub record OwnerAssigned : Type 0 where
  pub project_id : Uuid
  pub owner_user_id : Uuid
  pub github_user_id : Text

-- The user whom the GitHub id names, by the inner join.
unfoldable pub find_destination : Text → Db → Option User
find_destination github_user_id db =
    elim (find (λ (i : OauthIdentity). text_eq i.provider_user_id github_user_id)
      db.oauth_identities) [ none ↦ none | some i ↦ find (is_user i.user_id) db.users ]

abbrev pub is_ownerless : Uuid → Project → Bool
is_ownerless id p = has_project_id id p && is_none p.owner_user_id

abbrev pub to_owned : Uuid → Date → Project → Project
to_owned user_id now p = record p { owner_user_id = some user_id; updated_at = now }

abbrev pub assigned_event : AssignOwnerInput → Project → Uuid → RecordAuditInput
assigned_event input p user_id = record {
  user_id = none;
  subject_user_id = some user_id;
  actor = some headless_cli;
  request_id = some input.request_id;
  project_id = some p.id;
  event_type = project_owner_assigned;
  connection_label = none;
  project_name = some p.name;
  invitation_id = none;
}

-- The limit counts for a project that is active.
unfoldable pub has_room : ℕ → Project → Uuid → Db → Bool
has_room project_limit p user_id db =
    not (is_active p.status) || below_limit project_limit user_id db

unfoldable pub assign_to :
    ℕ → AssignOwnerInput → Date → Uuid → Date → Uuid → Option Project → OperatorTx OwnerAssigned
assign_to project_limit input now membership_id recorded_at user_id none = throw project_not_found
assign_to project_limit input now membership_id recorded_at user_id (some p) = do
  (λ db. require (has_room project_limit p user_id db) project_limit_reached db)
  write
      (λ db. record db { projects = update (is_ownerless p.id) (to_owned user_id now) db.projects })
  insert_membership (owner_membership p.id user_id now membership_id)
  record_audit (assigned_event input p user_id) recorded_at
  pure
      (record { project_id = p.id; owner_user_id = user_id; github_user_id = input.github_user_id })

-- The project is read where it has no owner, and then locked: nothing comes between the two.
unfoldable pub assign_found :
    ℕ → AssignOwnerInput → Date → Uuid → Date → Option User → OperatorTx OwnerAssigned
assign_found project_limit input now membership_id recorded_at none = throw user_not_found
assign_found project_limit input now membership_id recorded_at (some u) = do
  require (is_none u.blocked_at) user_is_blocked
  (λ db.
      assign_to project_limit input now membership_id recorded_at u.id
        (find (is_ownerless input.project_id) db.projects) db)

unfoldable pub assign_body : ℕ → AssignOwnerInput → Date → Uuid → Date → OperatorTx OwnerAssigned
assign_body project_limit input now membership_id recorded_at db =
    assign_found project_limit input now membership_id recorded_at
      (find_destination input.github_user_id db) db

unfoldable pub assign_at :
    ℕ
    → AssignOwnerInput
    → Option Date
    → Uuid
    → Date
    → Db
    → Result OperatorControlErrorCode OwnerAssigned × Db
assign_at project_limit input none membership_id recorded_at db =
    (err (code control_unavailable), db)
assign_at project_limit input (some now) membership_id recorded_at db =
    transaction (assign_body project_limit input now membership_id recorded_at) db

unfoldable pub is_some_ownerless : Option Project → Bool
is_some_ownerless none = false
is_some_ownerless (some p) = is_none p.owner_user_id

unfoldable pub assign_owner :
    ℕ
    → AssignOwnerInput
    → Option Date
    → Uuid
    → Date
    → Db
    → Result OperatorControlErrorCode OwnerAssigned × Db
assign_owner project_limit input now membership_id recorded_at db =
    let done = assign_at project_limit input now membership_id recorded_at db in
    if is_v4 input.project_id && is_github_id input.github_user_id
    then (if is_some_ownerless (find (has_project_id input.project_id) db.projects)
        then done
        else (err (code project_not_found), db))
    else (err (code invalid_request), db)
