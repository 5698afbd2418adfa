-- ===== src/Projects/Refusals.antt =====
-- How the authentication of a project fails.
use agentmesh_mcp.Prelude.{
  ◌≡◌, ◌⊎◌, refl, ◌&&◌, Option, none, some, Text, find, Bool-cases, inl, inr,
}
use agentmesh_mcp.Schema.{
  Uuid, Date, Db, Project, ProjectToken, AgentMeshErrorCode, project_auth_invalid,
}
use agentmesh_mcp.Transaction.{Result, ok, err, code, transaction, settle}
use agentmesh_mcp.Auth.Uuid.{uuid_value}
use agentmesh_mcp.Auth.ProjectToken.{parse_project_token, verify_project_token}
use agentmesh_mcp.Projects.{
  is_active, has_token_id, is_token, has_project_id, AuthenticatedProject, owner_admits, is_usable,
  use_token, with_project, authenticate_body, preflight, authenticate_parsed, authenticate_project,
}

-- A body that returns, or throws the one error.
abbrev Refusable : Result AgentMeshErrorCode (AuthenticatedProject × Db) → Type 0
Refusable r =
    ((a : AuthenticatedProject) × (db : Db) × (r ≡ ok (a, db)))
    ⊎ (r ≡ err (code project_auth_invalid))

abbrev Settled : Db → Result AgentMeshErrorCode AuthenticatedProject × Db → Type 0
Settled db r =
    ((a : AuthenticatedProject) × (db' : Db) × (r ≡ (ok a, db')))
    ⊎ (r ≡ (err (code project_auth_invalid), db))

settle-Settled :
    (r : Result AgentMeshErrorCode (AuthenticatedProject × Db)) (db : Db)
    → Refusable r
    → Settled db (settle r db)
settle-Settled r db (inl (a, db', e)) = inl (a, db', rw e refl)
settle-Settled r db (inr e) = inr (rw e refl)

module _ (sha256 : Text → Text) (token : Text) where
  use_token-Refusable :
      (now : Option Date) (p : Project) (o : Option ProjectToken) (db : Db)
      → Refusable (use_token sha256 token now p o db)
  unfolding use_token
  use_token-Refusable now p none db = inr refl
  use_token-Refusable none p (some s) db = inr refl
  use_token-Refusable (some t) p (some s) db =
      elim (Bool-cases (is_usable sha256 token t s && owner_admits db.users p.owner_user_id)) [
        | inl e ↦ rw e (inl (_, _, refl))
        | inr e ↦ rw e (inr refl)
      ]

  with_project-Refusable :
      (now : Option Date) (id : Uuid) (o : Option Project) (db : Db)
      → Refusable (with_project sha256 token now id o db)
  unfolding with_project
  with_project-Refusable now id none db = inr refl
  with_project-Refusable now id (some p) db = elim (Bool-cases (is_active p.status)) [
    | inl e ↦ rw e (use_token-Refusable now p (find (is_token p.id id) db.project_tokens) db)
    | inr e ↦ rw e (inr refl)
  ]

  preflight-Settled :
      (now : Option Date) (id : Uuid) (o : Option ProjectToken) (db : Db)
      → Settled db (preflight sha256 token now id o db)
  unfolding preflight transaction authenticate_body
  preflight-Settled now id none db = inr refl
  preflight-Settled now id (some t) db =
      elim (Bool-cases (verify_project_token sha256 token t.token_digest)) [
        | inl e ↦ rw e (
            settle-Settled
              (with_project sha256 token now id (find (has_project_id t.project_id) db.projects) db)
              db
              (with_project-Refusable now id (find (has_project_id t.project_id) db.projects) db))
        | inr e ↦ rw e (inr refl)
      ]

  authenticate_parsed-Settled :
      (now : Option Date) (o : Option Text) (db : Db)
      → Settled db (authenticate_parsed sha256 token now o db)
  unfolding authenticate_parsed
  authenticate_parsed-Settled now none db = inr refl
  authenticate_parsed-Settled now (some id) db =
      preflight-Settled now (uuid_value id) (find (has_token_id (uuid_value id)) db.project_tokens)
        db

-- The authentication of a project returns, or it ends with PROJECT_AUTH_INVALID and changes
-- nothing; no other error tells a caller why a token was refused.
pub authenticate_project_refuses :
    (sha256 : Text → Text) (token : Text) (now : Option Date) (db : Db)
    → ((a : AuthenticatedProject) × (db' : Db) × (authenticate_project sha256 token now db
          ≡ (ok a, db')))
      ⊎ (authenticate_project sha256 token now db ≡ (err (code project_auth_invalid), db))
unfolding authenticate_project
authenticate_project_refuses sha256 token now db =
    authenticate_parsed-Settled sha256 token now (parse_project_token sha256 token) db
