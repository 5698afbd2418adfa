-- ===== src/Control/Operator.antt =====
-- src/control/operator-service.ts: what an operator changes of users. The projects are in
-- Operator/Catalogue, and the lists in Operator/Reading.
pub mod Catalogue
pub mod Reading
pub mod Laws
pub mod Owner
use agentmesh_mcp.Prelude.{
  ℕ, zero, suc, ◌≡◌, Bool, true, false, not, ◌&&◌, ◌||◌, Option, none, some, List, [], ◌∷◌, Text,
  text_eq, length, ◌==◌, ltb, leb, is_none, is_some, is_value, find, update, if◌then◌else◌,
}
use agentmesh_mcp.Schema.{
  Uuid, Date, Db, User, OauthIdentity, WebSession, Project, ProjectStatus, archived, AuditEventType,
  user, headless_cli, user_blocked, user_unblocked, operator_project_archived,
  project_owner_assigned,
}
use agentmesh_mcp.Transaction.{
  Result, ok, err, code, internal, Tx, pure, throw, write, require, ◌>>=◌, ◌>>◌, transaction,
}
use agentmesh_mcp.Audit.{RecordAuditInput, record_audit, is_v4}
use agentmesh_mcp.Auth.Uuid.{uuid_value}
use agentmesh_mcp.Auth.Pattern.{matches, uuid_v4_pattern}
use agentmesh_mcp.WebAuth.Session.{is_user, revoked}
use agentmesh_mcp.Projects.{is_active, has_project_id}
use agentmesh_mcp.Control.Projects.{is_active_of, below_limit, owner_membership, insert_membership}

pub data OperatorControlErrorCode : Type 0 where
  invalid_request user_not_found user_is_blocked user_state_conflict : OperatorControlErrorCode
  project_not_found project_state_conflict project_limit_reached : OperatorControlErrorCode
  control_unavailable : OperatorControlErrorCode

-- The ids are texts, which the request gives in either case; the database reads them as uuid values.
pub record UserMutationInput : Type 0 where
  pub operator_user_id : Text
  pub target_user_id : Text
  pub request_id : Text

-- A user joined with the GitHub identity.
pub record IdentifiedUser : Type 0 where
  pub user : User
  pub identity : OauthIdentity

abbrev pub identity_of : Uuid → OauthIdentity → Bool
identity_of user_id i = i.user_id == user_id

unfoldable pub identified : User → List OauthIdentity → Option IdentifiedUser
identified u identities = elim (find (identity_of u.id) identities) [
  | none ↦ none
  | some i ↦ some (record { user = u; identity = i })
]

unfoldable pub load_mutation_user : Uuid → Db → Option IdentifiedUser
load_mutation_user user_id db = elim (find (is_user user_id) db.users) [
  | none ↦ none
  | some u ↦ identified u db.oauth_identities
]

abbrev pub OperatorTx : Type 0 → Type 0
OperatorTx A = Tx OperatorControlErrorCode A

abbrev pub operator_event : AuditEventType → Option Uuid → Uuid → Text → RecordAuditInput
operator_event event_type subject operator_user_id request_id = record {
  user_id = none;
  subject_user_id = subject;
  actor = some (user operator_user_id);
  request_id = some request_id;
  project_id = none;
  event_type = event_type;
  connection_label = none;
  project_name = none;
  invitation_id = none;
}

abbrev pub to_blocked : Date → User → User
to_blocked now u = record u { blocked_at = some now; updated_at = now }

abbrev pub to_unblocked : Date → User → User
to_unblocked now u = record u { blocked_at = none; updated_at = now }

abbrev pub is_unblocked_user : Uuid → User → Bool
is_unblocked_user id u = is_user id u && is_none u.blocked_at

abbrev pub is_blocked_user : Uuid → User → Bool
is_blocked_user id u = is_user id u && is_some u.blocked_at

abbrev pub is_open_session : Uuid → WebSession → Bool
is_open_session user_id s = s.user_id == user_id && is_none s.revoked_at

abbrev pub block_in : Uuid → Date → Db → Db
block_in id now db = record db {
  users = update (is_unblocked_user id) (to_blocked now) db.users;
  web_sessions = update (is_open_session id) (revoked now) db.web_sessions;
}

abbrev pub unblock_in : Uuid → Date → Db → Db
unblock_in id now db = record db { users = update (is_blocked_user id) (to_unblocked now) db.users }

abbrev pub with_user : (User → User) → IdentifiedUser → IdentifiedUser
with_user f current = record current { user = f current.user }

-- The update finds the row that was locked, which passes its test.
unfoldable pub block_found :
    UserMutationInput → Date → Date → Option IdentifiedUser → OperatorTx IdentifiedUser
block_found input now recorded_at none = throw user_not_found
block_found input now recorded_at (some current) = do
  require (is_none current.user.blocked_at) user_state_conflict
  write (block_in (uuid_value input.target_user_id) now)
  record_audit
      (operator_event user_blocked (some (uuid_value input.target_user_id))
        (uuid_value input.operator_user_id) input.request_id)
      recorded_at
  pure (with_user (to_blocked now) current)

unfoldable pub block_body : UserMutationInput → Date → Date → OperatorTx IdentifiedUser
block_body input now recorded_at db =
    block_found input now recorded_at (load_mutation_user (uuid_value input.target_user_id) db) db

unfoldable pub block_at :
    UserMutationInput
    → Option Date
    → Date
    → Db
    → Result OperatorControlErrorCode IdentifiedUser × Db
block_at input none recorded_at db = (err (code control_unavailable), db)
block_at input (some now) recorded_at db = transaction (block_body input now recorded_at) db

unfoldable pub block_user :
    UserMutationInput
    → Option Date
    → Date
    → Db
    → Result OperatorControlErrorCode IdentifiedUser × Db
block_user input now recorded_at db =
    let done = block_at input now recorded_at db in
    if matches uuid_v4_pattern input.operator_user_id
      && matches uuid_v4_pattern input.target_user_id
    then (if not (text_eq input.operator_user_id input.target_user_id)
        then done
        else (err (code user_state_conflict), db))
    else (err (code invalid_request), db)

unfoldable pub unblock_found :
    UserMutationInput → Date → Date → Option IdentifiedUser → OperatorTx IdentifiedUser
unblock_found input now recorded_at none = throw user_not_found
unblock_found input now recorded_at (some current) = do
  require (is_some current.user.blocked_at) user_state_conflict
  write (unblock_in (uuid_value input.target_user_id) now)
  record_audit
      (operator_event user_unblocked (some (uuid_value input.target_user_id))
        (uuid_value input.operator_user_id) input.request_id)
      recorded_at
  pure (with_user (to_unblocked now) current)

unfoldable pub unblock_body : UserMutationInput → Date → Date → OperatorTx IdentifiedUser
unblock_body input now recorded_at db =
    unblock_found input now recorded_at (load_mutation_user (uuid_value input.target_user_id) db) db

unfoldable pub unblock_at :
    UserMutationInput
    → Option Date
    → Date
    → Db
    → Result OperatorControlErrorCode IdentifiedUser × Db
unblock_at input none recorded_at db = (err (code control_unavailable), db)
unblock_at input (some now) recorded_at db = transaction (unblock_body input now recorded_at) db

unfoldable pub unblock_user :
    UserMutationInput
    → Option Date
    → Date
    → Db
    → Result OperatorControlErrorCode IdentifiedUser × Db
unblock_user input now recorded_at db =
    if matches uuid_v4_pattern input.operator_user_id
      && matches uuid_v4_pattern input.target_user_id
    then unblock_at input now recorded_at db
    else (err (code invalid_request), db)
