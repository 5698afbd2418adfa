-- ===== src/Tests/Projects.antt =====
-- A project that is created and authenticated with its token.
use agentmesh_mcp.Prelude.{◌≡◌, refl, true, false, none, some, Text, codes, Row, update}
use agentmesh_mcp.Schema.{Date, Db, empty_db, Project, ProjectToken}
use agentmesh_mcp.Transaction.{ok, transaction}
use agentmesh_mcp.Auth.ProjectToken.{
  create_project_token, parse_project_token, digest_project_token, verify_project_token,
}
use agentmesh_mcp.Projects.{
  is_active, is_token, AuthenticatedProject, is_expired, owner_admits, used, create_project,
  is_usable, use_token, with_project, authenticate_body, preflight, authenticate_parsed,
  authenticate_project,
}
use agentmesh_mcp.Projects.Laws.{authenticate_project_sound}
use agentmesh_mcp.Tests.Data.{queries, ann_id, repeat, project}

unfoldable pub connecting : Unit {0}
unfolding queries create_project create_project_token parse_project_token digest_project_token
    verify_project_token is_expired owner_admits is_usable use_token with_project authenticate_body
    preflight authenticate_parsed authenticate_project transaction
connecting = tt

abbrev created_db : Db
created_db =
    (create_project (λ t. t) (codes "mesh") project 1000 ann_id (repeat 43 b's') empty_db).1

abbrev connection_token : Text
connection_token = (create_project_token (λ t. t) ann_id (repeat 43 b's')).token

abbrev connected : AuthenticatedProject
connected = record { project_id = project; connection_token_id = ann_id }

abbrev connected_db : Db
connected_db = (authenticate_project (λ t. t) connection_token (some 2000) created_db).1

connects :
    authenticate_project (λ t. t) connection_token (some 2000) created_db
    ≡ (ok connected, connected_db)
unfolding connecting
connects = refl

authenticate_project_sound_example :
    (t : Date) × (p : Project) × (s : ProjectToken) × (some 2000 ≡ some t)
    × Row p created_db.projects
    × Row s created_db.project_tokens
    × (project ≡ p.id)
    × (s.project_id ≡ p.id)
    × (ann_id ≡ s.id)
    × (is_active p.status ≡ true)
    × (s.revoked_at ≡ none)
    × (is_expired t s.expires_at ≡ false)
    × (verify_project_token (λ x. x) connection_token s.token_digest ≡ true)
    × (owner_admits created_db.users p.owner_user_id ≡ true)
    × (connected_db ≡ record created_db {
      project_tokens = update (is_token p.id s.id) (used t) created_db.project_tokens;
    })
authenticate_project_sound_example =
    authenticate_project_sound (λ t. t) connection_token (some 2000) connected created_db
      connected_db connects
