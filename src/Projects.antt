-- ===== src/Projects.antt =====
-- src/projects/service.ts: projects with a token of their own, and the authentication of a
-- project's connection. The random ids and the secret are arguments, and `sha256` is the hash of
-- node:crypto; the clock gives no date when it is invalid.
pub mod Laws
pub mod Refusals
use agentmesh_mcp.Prelude.{
  ℕ, ◌≡◌, Bool, true, false, ◌&&◌, ◌||◌, Option, none, some, List, [], ◌∷◌, ◌++◌, Text, codes,
  text_eq, ◌==◌, leb, not, is_none, is_some, find, update, if◌then◌else◌,
}
use agentmesh_mcp.Schema.{
  Uuid, Date, Db, Project, ProjectStatus, active, archived, ProjectToken, User, AgentMeshErrorCode,
  project_auth_invalid,
}
use agentmesh_mcp.Transaction.{Result, ok, err, code, internal, Tx, transaction}
use agentmesh_mcp.Auth.Uuid.{uuid_value}
use agentmesh_mcp.Auth.ProjectToken.{
  CreatedProjectToken, create_project_token, parse_project_token, verify_project_token,
}

pub record CreatedProject : Type 0 where
  pub project_id : Uuid
  pub name : Text
  pub created_at : Date
  pub token_id : Uuid
  pub token : Text

abbrev pub new_project : Uuid → Text → Date → Project
new_project id name created_at = record {
  id = id;
  owner_user_id = none;
  name = name;
  description = none;
  status = active;
  archived_at = none;
  create_idempotency_key = none;
  created_at = created_at;
  updated_at = created_at;
}

abbrev pub new_token : Uuid → CreatedProjectToken → Date → ProjectToken
new_token project_id token created_at = record {
  id = token.token_id;
  project_id = project_id;
  token_digest = token.digest;
  label = codes "Legacy CLI token";
  created_by_user_id = none;
  expires_at = none;
  last_used_at = none;
  revoked_at = none;
  create_idempotency_key = none;
  created_at = created_at;
}

abbrev pub is_active : ProjectStatus → Bool
is_active active = true
is_active archived = false

abbrev pub has_token_id : Uuid → ProjectToken → Bool
has_token_id id t = t.id == id

abbrev pub is_token : Uuid → Uuid → ProjectToken → Bool
is_token project_id id t = t.project_id == project_id && t.id == id

abbrev pub has_project_id : Uuid → Project → Bool
has_project_id id p = p.id == id

pub record AuthenticatedProject : Type 0 where
  pub project_id : Uuid
  pub connection_token_id : Uuid

-- expiresAt !== null && expiresAt <= now
unfoldable pub is_expired : Date → Option Date → Bool
is_expired now none = false
is_expired now (some t) = leb t now

-- A project without an owner, or one whose owner is stored and not blocked.
unfoldable pub owner_admits : List User → Option Uuid → Bool
owner_admits users none = true
owner_admits users (some id) = elim (find (λ (u : User). u.id == id) users) [
  | none ↦ false
  | some u ↦ is_none u.blocked_at
]

abbrev pub used : Date → ProjectToken → ProjectToken
used now t = record t { last_used_at = some now }

module _ (sha256 : Text → Text) where
  -- A second row with the id of the project or of the token breaks a primary key.
  unfoldable pub create_project :
      Text → Uuid → Date → Uuid → Text → Db → Result AgentMeshErrorCode CreatedProject × Db
  create_project name id created_at token_id secret db =
      let token = create_project_token sha256 token_id secret in
      if is_some (find (has_project_id id) db.projects)
        || is_some (find (has_token_id token_id) db.project_tokens)
      then (err internal, db)
      else (
        ok (record {
          project_id = id;
          name = name;
          created_at = created_at;
          token_id = token_id;
          token = token.token;
        }),
        record db {
          projects = db.projects ++ new_project id name created_at ∷ [];
          project_tokens = db.project_tokens ++ new_token id token created_at ∷ [];
        },
      )

  unfoldable pub is_usable : Text → Date → ProjectToken → Bool
  is_usable token now t =
      is_none t.revoked_at
      && (not (is_expired now t.expires_at) && verify_project_token sha256 token t.token_digest)

  unfoldable pub use_token :
      Text
      → Option Date
      → Project
      → Option ProjectToken
      → Tx AgentMeshErrorCode AuthenticatedProject
  use_token token now project none db = err (code project_auth_invalid)
  use_token token none project (some stored) db = err (code project_auth_invalid)
  use_token token (some now) project (some stored) db =
      if is_usable token now stored && owner_admits db.users project.owner_user_id
      then ok (
        record { project_id = project.id; connection_token_id = stored.id },
        record db {
          project_tokens = update (is_token project.id stored.id) (used now) db.project_tokens;
        },
      )
      else err (code project_auth_invalid)

  unfoldable pub with_project :
      Text → Option Date → Uuid → Option Project → Tx AgentMeshErrorCode AuthenticatedProject
  with_project token now id none db = err (code project_auth_invalid)
  with_project token now id (some project) db =
      if is_active project.status
      then use_token token now project (find (is_token project.id id) db.project_tokens) db
      else err (code project_auth_invalid)

  unfoldable pub authenticate_body :
      Text → Option Date → Uuid → Uuid → Tx AgentMeshErrorCode AuthenticatedProject
  authenticate_body token now project_id id db =
      with_project token now id (find (has_project_id project_id) db.projects) db

  -- The check before the transaction.
  unfoldable pub preflight :
      Text
      → Option Date
      → Uuid
      → Option ProjectToken
      → Db
      → Result AgentMeshErrorCode AuthenticatedProject × Db
  preflight token now id none db = (err (code project_auth_invalid), db)
  preflight token now id (some t) db =
      if verify_project_token sha256 token t.token_digest
      then transaction (authenticate_body token now t.project_id id) db
      else (err (code project_auth_invalid), db)

  unfoldable pub authenticate_parsed :
      Text → Option Date → Option Text → Db → Result AgentMeshErrorCode AuthenticatedProject × Db
  authenticate_parsed token now none db = (err (code project_auth_invalid), db)
  authenticate_parsed token now (some id) db =
      preflight token now (uuid_value id) (find (has_token_id (uuid_value id)) db.project_tokens) db

  unfoldable pub authenticate_project :
      Text → Option Date → Db → Result AgentMeshErrorCode AuthenticatedProject × Db
  authenticate_project token now db =
      authenticate_parsed token now (parse_project_token sha256 token) db
