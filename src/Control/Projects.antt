-- ===== src/Control/Projects.antt =====
-- src/control/project-service.ts: the projects of an owner, with the limit on the active ones. A
-- limit of 0 is none. The ids that the database gives are arguments.
pub mod Cases
pub mod Limit
pub mod Listing
pub mod Deletion
pub mod Laws
pub mod Again
use agentmesh_mcp.Prelude.{
  ℕ, ◌+◌, ◌-◌, ◌*◌, ◌≡◌, Bool, true, false, not, ◌&&◌, ◌||◌, Option, none, some, List, [], ◌∷◌,
  ◌++◌, Text, text_eq, ◌==◌, ltb, leb, is_none, is_some, is_value, find, update, delete, count,
  if◌then◌else◌,
}
use agentmesh_mcp.Schema.{
  Uuid, Date, Db, Agent, Message, BlackboardEntry, ProgressReport, ActivityEvent, ProjectToken,
  Project, ProjectStatus, active, archived, owner, Membership, Invitation, project_created,
  project_archived, project_restored, project_deleted,
}
use agentmesh_mcp.Transaction.{
  Result, ok, err, code, internal, Tx, pure, throw, read, write, require, ◌>>=◌, ◌>>◌, transaction,
}
use agentmesh_mcp.Audit.{RecordAuditInput, audit, record_audit}
use agentmesh_mcp.Projects.{is_active, has_project_id}
use agentmesh_mcp.Control.Membership.{is_owned, is_member}

pub data ControlProjectErrorCode : Type 0 where
  project_not_found project_limit_reached project_state_conflict : ControlProjectErrorCode
  project_confirmation_mismatch recent_auth_required control_unavailable : ControlProjectErrorCode

abbrev pub recent_auth_window : ℕ
recent_auth_window = 15 * 60 * 1000

pub record PublicControlProject : Type 0 where
  pub id : Uuid
  pub name : Text
  pub description : Option Text
  pub status : ProjectStatus
  pub archived_at : Option Date
  pub created_at : Date
  pub updated_at : Date
  pub can_edit : Bool

unfoldable pub public_project : Project → Uuid → PublicControlProject
public_project p user_id = record {
  id = p.id;
  name = p.name;
  description = p.description;
  status = p.status;
  archived_at = p.archived_at;
  created_at = p.created_at;
  updated_at = p.updated_at;
  can_edit = is_value p.owner_user_id user_id;
}

pub record CreateProjectInput : Type 0 where
  pub owner_user_id : Uuid
  pub name : Text
  pub description : Option Text
  pub idempotency_key : Uuid

pub record OwnedProjectInput : Type 0 where
  pub owner_user_id : Uuid
  pub project_id : Uuid

-- `elapsed >= 0 && elapsed <= RECENT_AUTH_WINDOW_MS`, for a valid clock or none.
unfoldable pub recent_authentication : Option Date → Date → Bool
recent_authentication none authenticated_at = false
recent_authentication (some now) authenticated_at =
    leb authenticated_at now && leb now (authenticated_at + recent_auth_window)

abbrev pub ProjectTx : Type 0 → Type 0
ProjectTx A = Tx ControlProjectErrorCode A

unfoldable pub lock_owner : Uuid → ProjectTx (Unit {0})
lock_owner owner_user_id db =
    require (is_some (find (λ u. u.id == owner_user_id) db.users)) project_not_found db

abbrev pub is_active_of : Uuid → Project → Bool
is_active_of owner_user_id p = is_value p.owner_user_id owner_user_id && is_active p.status

unfoldable pub below_limit : ℕ → Uuid → Db → Bool
below_limit project_limit owner_user_id db =
    project_limit == 0 || ltb (count (is_active_of owner_user_id) db.projects) project_limit

unfoldable pub enforce_limit : ℕ → Uuid → ProjectTx (Unit {0})
enforce_limit project_limit owner_user_id db =
    require (below_limit project_limit owner_user_id db) project_limit_reached db

abbrev pub has_key : Uuid → Uuid → Project → Bool
has_key owner_user_id key p =
    is_value p.owner_user_id owner_user_id && is_value p.create_idempotency_key key

abbrev pub new_project : CreateProjectInput → Date → Uuid → Project
new_project input now id = record {
  id = id;
  owner_user_id = some input.owner_user_id;
  name = input.name;
  description = input.description;
  status = active;
  archived_at = none;
  create_idempotency_key = some input.idempotency_key;
  created_at = now;
  updated_at = now;
}

abbrev pub owner_membership : Uuid → Uuid → Date → Uuid → Membership
owner_membership project_id user_id now id = record {
  id = id;
  project_id = project_id;
  user_id = user_id;
  role = owner;
  created_by = user_id;
  created_at = now;
  updated_at = now;
}

-- INSERT: a second row with the id breaks the primary key.
unfoldable pub insert_project : Project → ProjectTx (Unit {0})
insert_project p db =
    if is_some (find (has_project_id p.id) db.projects)
    then err internal
    else ok (tt, record db { projects = db.projects ++ p ∷ [] })

-- INSERT: the unique index on the project and the user.
unfoldable pub insert_membership : {C : Type 0} → Membership → Tx C (Unit {0})
insert_membership m db =
    if is_some (find (is_member m.project_id m.user_id) db.memberships)
    then err internal
    else ok (tt, record db { memberships = db.memberships ++ m ∷ [] })

abbrev pub created_event : Project → Uuid → RecordAuditInput
created_event p owner_user_id = record (audit project_created owner_user_id p.id) {
  project_name = some p.name;
}

unfoldable pub create_new :
    ℕ → CreateProjectInput → Date → Uuid → Uuid → Date → ProjectTx PublicControlProject
create_new project_limit input now id membership_id recorded_at = do
  enforce_limit project_limit input.owner_user_id
  insert_project (new_project input now id)
  insert_membership (owner_membership id input.owner_user_id now membership_id)
  record_audit (created_event (new_project input now id) input.owner_user_id) recorded_at
  pure (public_project (new_project input now id) input.owner_user_id)

unfoldable pub create_or_reuse :
    ℕ
    → CreateProjectInput
    → Date
    → Uuid
    → Uuid
    → Date
    → Option Project
    → ProjectTx PublicControlProject
create_or_reuse project_limit input now id membership_id recorded_at (some existing) =
    pure (public_project existing input.owner_user_id)
create_or_reuse project_limit input now id membership_id recorded_at none =
    create_new project_limit input now id membership_id recorded_at

unfoldable pub create_body :
    ℕ → CreateProjectInput → Date → Uuid → Uuid → Date → ProjectTx PublicControlProject
create_body project_limit input now id membership_id recorded_at = do
  lock_owner input.owner_user_id
  (λ db.
      create_or_reuse project_limit input now id membership_id recorded_at
        (find (has_key input.owner_user_id input.idempotency_key) db.projects) db)

unfoldable pub create :
    ℕ
    → CreateProjectInput
    → Option Date
    → Uuid
    → Uuid
    → Date
    → Db
    → Result ControlProjectErrorCode PublicControlProject × Db
create project_limit input none id membership_id recorded_at db =
    (err (code control_unavailable), db)
create project_limit input (some now) id membership_id recorded_at db =
    transaction (create_body project_limit input now id membership_id recorded_at) db

abbrev pub is_owned_active : OwnedProjectInput → Project → Bool
is_owned_active input p = is_owned input.project_id input.owner_user_id p && is_active p.status

abbrev pub is_owned_archived : OwnedProjectInput → Project → Bool
is_owned_archived input p =
    is_owned input.project_id input.owner_user_id p && not (is_active p.status)

abbrev pub to_archived : Date → Project → Project
to_archived now p = record p { status = archived; archived_at = some now; updated_at = now }

abbrev pub to_active : Date → Project → Project
to_active now p = record p { status = active; archived_at = none; updated_at = now }

abbrev pub archived_event : Project → Uuid → RecordAuditInput
archived_event p owner_user_id = record (audit project_archived owner_user_id p.id) {
  project_name = some p.name;
}

abbrev pub restored_event : Project → Uuid → RecordAuditInput
restored_event p owner_user_id = record (audit project_restored owner_user_id p.id) {
  project_name = some p.name;
}

-- UPDATE … WHERE p RETURNING: the row that was read before passes the same test.
unfoldable pub update_projects : (Project → Bool) → (Project → Project) → ProjectTx (Unit {0})
update_projects p f db = ok (tt, record db { projects = update p f db.projects })

unfoldable pub archive_found :
    OwnedProjectInput → Date → Date → Option Project → ProjectTx PublicControlProject
archive_found input now recorded_at none = throw project_not_found
archive_found input now recorded_at (some p) = do
  require (is_active p.status) project_state_conflict
  update_projects (is_owned_active input) (to_archived now)
  record_audit (archived_event p input.owner_user_id) recorded_at
  pure (public_project (to_archived now p) input.owner_user_id)

unfoldable pub archive_body : OwnedProjectInput → Date → Date → ProjectTx PublicControlProject
archive_body input now recorded_at db =
    archive_found input now recorded_at
      (find (is_owned input.project_id input.owner_user_id) db.projects) db

unfoldable pub archive :
    OwnedProjectInput
    → Option Date
    → Date
    → Db
    → Result ControlProjectErrorCode PublicControlProject × Db
archive input none recorded_at db = (err (code control_unavailable), db)
archive input (some now) recorded_at db = transaction (archive_body input now recorded_at) db

unfoldable pub restore_found :
    ℕ → OwnedProjectInput → Date → Date → Option Project → ProjectTx PublicControlProject
restore_found project_limit input now recorded_at none = throw project_not_found
restore_found project_limit input now recorded_at (some p) = do
  require (not (is_active p.status)) project_state_conflict
  enforce_limit project_limit input.owner_user_id
  update_projects (is_owned_archived input) (to_active now)
  record_audit (restored_event p input.owner_user_id) recorded_at
  pure (public_project (to_active now p) input.owner_user_id)

unfoldable pub restore_body : ℕ → OwnedProjectInput → Date → Date → ProjectTx PublicControlProject
restore_body project_limit input now recorded_at = do
  lock_owner input.owner_user_id
  (λ db.
      restore_found project_limit input now recorded_at
        (find (is_owned input.project_id input.owner_user_id) db.projects) db)

unfoldable pub restore :
    ℕ
    → OwnedProjectInput
    → Option Date
    → Date
    → Db
    → Result ControlProjectErrorCode PublicControlProject × Db
restore project_limit input none recorded_at db = (err (code control_unavailable), db)
restore project_limit input (some now) recorded_at db =
    transaction (restore_body project_limit input now recorded_at) db

-- src/control/project-access.ts: an owner or a member may read a project.
unfoldable pub may_read : Uuid → Db → Project → Bool
may_read user_id db p =
    is_value p.owner_user_id user_id || is_some (find (is_member p.id user_id) db.memberships)

unfoldable pub get : Uuid → Uuid → Db → Option PublicControlProject
get user_id project_id db =
    elim (find (λ p. p.id == project_id && may_read user_id db p) db.projects) [
      | none ↦ none
      | some p ↦ some (public_project p user_id)
    ]
