-- ===== src/Control/Connections.antt =====
-- src/control/connection-service.ts: the connection tokens of a project. The id and the secret of
-- a new token are arguments, and `sha256` is the hash of node:crypto.
pub mod Cases
pub mod Laws
pub mod Listing
use agentmesh_mcp.Prelude.{
  ℕ, ◌+◌, ◌*◌, ◌≡◌, Bool, true, false, not, ◌&&◌, ◌||◌, Option, none, some, List, [], ◌∷◌, ◌++◌,
  map, Text, length, take, ◌==◌, ltb, leb, is_none, is_some, is_value, find, select, order_by,
  update, if◌then◌else◌,
}
use agentmesh_mcp.Schema.{
  Uuid, Date, Db, Project, ProjectToken, User, connection_created, connection_revoked,
}
use agentmesh_mcp.Transaction.{
  Result, ok, err, code, internal, Tx, pure, throw, read, write, require, ◌>>=◌, ◌>>◌, transaction,
  valid_date,
}
use agentmesh_mcp.Auth.ProjectToken.{CreatedProjectToken, create_project_token}
use agentmesh_mcp.Audit.{RecordAuditInput, audit, record_audit, is_v4}
use agentmesh_mcp.Projects.{is_active, has_token_id, is_token, has_project_id}
use agentmesh_mcp.Control.Membership.{is_owned}
use agentmesh_mcp.Control.Projects.{may_read}

pub data ConnectionControlErrorCode : Type 0 where
  invalid_request project_not_found project_state_conflict : ConnectionControlErrorCode
  connection_not_found connection_state_conflict control_unavailable : ConnectionControlErrorCode

pub data ConnectionStatus : Type 0 where
  active expired revoked : ConnectionStatus

pub record PublicControlConnection : Type 0 where
  pub id : Uuid
  pub label : Text
  pub status : ConnectionStatus
  pub expires_at : Option Date
  pub last_used_at : Option Date
  pub revoked_at : Option Date
  pub created_at : Date

-- `secretRecoverable` says whether there is a secret.
pub record IssuedControlConnection : Type 0 where
  pub connection : PublicControlConnection
  pub secret : Option Text

pub record IssueConnectionInput : Type 0 where
  pub owner_user_id : Uuid
  pub project_id : Uuid
  pub label : Text
  pub idempotency_key : Uuid

pub record RevokeConnectionInput : Type 0 where
  pub owner_user_id : Uuid
  pub project_id : Uuid
  pub connection_id : Uuid

abbrev pub day : ℕ
day = 24 * 60 * 60 * 1000

abbrev pub max_token_ttl_days : ℕ
max_token_ttl_days = 3650

-- What `trim` removes: the white space and the line ends of JavaScript.
unfoldable pub is_space : ℕ → Bool
is_space c =
    (leb 9 c && leb c 13)
    || c == 32
    || c == 160
    || c == 5760
    || (leb 8192 c && leb c 8202)
    || c == 8232
    || c == 8233
    || c == 8239
    || c == 8287
    || c == 12288
    || c == 65279

unfoldable pub trim_start : Text → Text
trim_start [] = []
trim_start (c ∷ cs) = let rest = trim_start cs in if is_space c then rest else c ∷ cs

drop_space : ℕ → Text → Text
drop_space c [] = if is_space c then [] else c ∷ []
drop_space c (d ∷ ds) = c ∷ d ∷ ds

unfoldable pub trim_end : Text → Text
unfolding drop_space
trim_end [] = []
trim_end (c ∷ cs) = drop_space c (trim_end cs)

unfoldable pub normalized_label : Text → Option Text
normalized_label value =
    let label = trim_end (trim_start value) in
    if leb (length value) 80 && (leb 1 (length label) && leb (length label) 80)
    then some label
    else none

unfoldable pub status_of : ProjectToken → Date → ConnectionStatus
status_of row now =
    if is_some row.revoked_at
    then revoked
    else elim row.expires_at [ none ↦ active | some t ↦ if leb t now then expired else active ]

unfoldable pub public_connection : ProjectToken → Date → PublicControlConnection
public_connection row now = record {
  id = row.id;
  label = row.label;
  status = status_of row now;
  expires_at = row.expires_at;
  last_used_at = row.last_used_at;
  revoked_at = row.revoked_at;
  created_at = row.created_at;
}

abbrev pub issued_connection : ProjectToken → Date → Option Text → IssuedControlConnection
issued_connection row now secret = record {
  connection = public_connection row now;
  secret = secret;
}

abbrev pub ConnectionTx : Type 0 → Type 0
ConnectionTx A = Tx ConnectionControlErrorCode A

-- The clock and `tokenTtlDays` of the service.
unfoldable pub now_and_expiry : ℕ → Option Date → ConnectionTx (Date × Date)
now_and_expiry token_ttl_days none db = err (code control_unavailable)
now_and_expiry token_ttl_days (some now) db =
    if (leb 1 token_ttl_days && leb token_ttl_days max_token_ttl_days)
      && valid_date (now + token_ttl_days * day)
    then ok ((now, now + token_ttl_days * day), db)
    else err (code control_unavailable)

abbrev pub may_own : Option User → Bool
may_own none = false
may_own (some u) = is_none u.blocked_at

abbrev pub owner_free : Uuid → Db → Bool
owner_free owner_user_id db = may_own (find (λ u. u.id == owner_user_id) db.users)

unfoldable pub lock_found : Uuid → Option Project → ConnectionTx Project
lock_found owner_user_id none = throw project_not_found
lock_found owner_user_id (some p) = do
  (λ db. require (owner_free owner_user_id db) project_not_found db)
  pure p

unfoldable pub lock_owned_project : Uuid → Uuid → ConnectionTx Project
lock_owned_project owner_user_id project_id db =
    lock_found owner_user_id (find (is_owned project_id owner_user_id) db.projects) db

abbrev pub has_issue_key : Uuid → Uuid → ProjectToken → Bool
has_issue_key project_id key t = t.project_id == project_id && is_value t.create_idempotency_key key

abbrev pub new_connection :
    IssueConnectionInput → Text → CreatedProjectToken → Date → Date → ProjectToken
new_connection input label token now expires_at = record {
  id = token.token_id;
  project_id = input.project_id;
  token_digest = token.digest;
  label = label;
  created_by_user_id = some input.owner_user_id;
  expires_at = some expires_at;
  last_used_at = none;
  revoked_at = none;
  create_idempotency_key = some input.idempotency_key;
  created_at = now;
}

-- INSERT … ON CONFLICT (project, key) DO NOTHING RETURNING; a second row with the id throws.
unfoldable pub insert_token : ProjectToken → Uuid → ConnectionTx (Option ProjectToken)
insert_token t key db =
    if is_some (find (has_issue_key t.project_id key) db.project_tokens)
    then ok (none, db)
    else if is_some (find (has_token_id t.id) db.project_tokens)
    then err internal
    else ok (some t, record db { project_tokens = db.project_tokens ++ t ∷ [] })

abbrev pub issued_event : IssueConnectionInput → Text → RecordAuditInput
issued_event input label = record (audit connection_created input.owner_user_id input.project_id) {
  connection_label = some label;
}

-- A concurrent call may have inserted the key first: its row is read again.
unfoldable pub finish_issue :
    IssueConnectionInput
    → Text
    → Date
    → Date
    → Option ProjectToken
    → ConnectionTx IssuedControlConnection
finish_issue input token now recorded_at (some inserted) db =
    (do
      record_audit (issued_event input inserted.label) recorded_at
      pure (issued_connection inserted now (some token)))
      db
finish_issue input token now recorded_at none db =
    elim (find (has_issue_key input.project_id input.idempotency_key) db.project_tokens) [
      | none ↦ err (code control_unavailable)
      | some replayed ↦ ok (issued_connection replayed now none, db)
    ]

unfoldable pub issue_new :
    IssueConnectionInput
    → Text
    → CreatedProjectToken
    → Date
    → Date
    → Date
    → Option ProjectToken
    → ConnectionTx IssuedControlConnection
issue_new input label token now expires_at recorded_at (some existing) =
    pure (issued_connection existing now none)
issue_new input label token now expires_at recorded_at none = do
  inserted ← insert_token (new_connection input label token now expires_at) input.idempotency_key
  finish_issue input token.token now recorded_at inserted

unfoldable pub issue_body :
    ℕ
    → IssueConnectionInput
    → Text
    → CreatedProjectToken
    → Option Date
    → Date
    → ConnectionTx IssuedControlConnection
issue_body token_ttl_days input label token clock recorded_at = do
  project ← lock_owned_project input.owner_user_id input.project_id
  require (is_active project.status) project_state_conflict
  times ← now_and_expiry token_ttl_days clock
  (λ db.
      issue_new input label token times.0 times.1 recorded_at
        (find (has_issue_key input.project_id input.idempotency_key) db.project_tokens) db)

unfoldable pub issue_labelled :
    ℕ
    → IssueConnectionInput
    → CreatedProjectToken
    → Option Date
    → Date
    → Option Text
    → Db
    → Result ConnectionControlErrorCode IssuedControlConnection × Db
issue_labelled token_ttl_days input token clock recorded_at none db =
    (err (code invalid_request), db)
issue_labelled token_ttl_days input token clock recorded_at (some label) db =
    if is_v4 input.owner_user_id && (is_v4 input.project_id && is_v4 input.idempotency_key)
    then transaction (issue_body token_ttl_days input label token clock recorded_at) db
    else (err (code invalid_request), db)

unfoldable pub issue :
    (Text → Text)
    → ℕ
    → IssueConnectionInput
    → Uuid
    → Text
    → Option Date
    → Date
    → Db
    → Result ConnectionControlErrorCode IssuedControlConnection × Db
issue sha256 token_ttl_days input token_id secret clock recorded_at db =
    issue_labelled token_ttl_days input (create_project_token sha256 token_id secret) clock
      recorded_at (normalized_label input.label) db

abbrev pub is_revocable : Uuid → Uuid → ProjectToken → Bool
is_revocable project_id id t = is_token project_id id t && is_none t.revoked_at

abbrev pub to_revoked : Date → ProjectToken → ProjectToken
to_revoked now t = record t { revoked_at = some now }

abbrev pub revoked_event : RevokeConnectionInput → Text → RecordAuditInput
revoked_event input label = record (audit connection_revoked input.owner_user_id input.project_id) {
  connection_label = some label;
}

unfoldable pub revoke_at :
    RevokeConnectionInput → ProjectToken → Date → Option Date → ConnectionTx PublicControlConnection
revoke_at input t recorded_at none db = err (code control_unavailable)
revoke_at input t recorded_at (some now) db =
    (do
      write (λ d. record d {
        project_tokens =
            update (is_revocable input.project_id input.connection_id) (to_revoked now)
              d.project_tokens;
      })
      record_audit (revoked_event input t.label) recorded_at
      pure (public_connection (to_revoked now t) now))
      db

unfoldable pub revoke_found :
    RevokeConnectionInput
    → Option Date
    → Date
    → Option ProjectToken
    → ConnectionTx PublicControlConnection
revoke_found input clock recorded_at none = throw connection_not_found
revoke_found input clock recorded_at (some t) = do
  require (is_none t.revoked_at) connection_state_conflict
  revoke_at input t recorded_at clock

unfoldable pub revoke_body :
    RevokeConnectionInput → Option Date → Date → ConnectionTx PublicControlConnection
revoke_body input clock recorded_at = do
  project ← lock_owned_project input.owner_user_id input.project_id
  (λ db.
      revoke_found input clock recorded_at
        (find (is_token input.project_id input.connection_id) db.project_tokens) db)

unfoldable pub revoke :
    RevokeConnectionInput
    → Option Date
    → Date
    → Db
    → Result ConnectionControlErrorCode PublicControlConnection × Db
revoke input clock recorded_at db =
    if is_v4 input.owner_user_id && (is_v4 input.project_id && is_v4 input.connection_id)
    then transaction (revoke_body input clock recorded_at) db
    else (err (code invalid_request), db)
