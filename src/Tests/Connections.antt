-- ===== src/Tests/Connections.antt =====
-- Connections to a project: one that is issued twice and one that is revoked.
use agentmesh_mcp.Prelude.{◌+◌, ◌*◌, ◌≡◌, refl, none, some, codes}
use agentmesh_mcp.Schema.{Db}
use agentmesh_mcp.Transaction.{ok}
use agentmesh_mcp.Auth.ProjectToken.{create_project_token}
use agentmesh_mcp.Projects.{authenticate_project}
use agentmesh_mcp.Control.Connections.{
  PublicControlConnection, IssuedControlConnection, IssueConnectionInput, RevokeConnectionInput,
  is_space, trim_start, trim_end, normalized_label, status_of, public_connection, now_and_expiry,
  lock_found, lock_owned_project, insert_token, finish_issue, issue_new, issue_body, issue_labelled,
  issue, revoke_at, revoke_found, revoke_body, revoke, active, revoked, day,
}
use agentmesh_mcp.Control.Connections.Laws.{issue_once, authenticate_project-revoke}
use agentmesh_mcp.Tests.Data.{ann_id, bob_id, repeat}
use agentmesh_mcp.Tests.Control.{control, olga, mine, attic_db, mesh_token, connected}

unfoldable linking : Unit {0}
unfolding control is_space trim_start trim_end normalized_label status_of public_connection
    now_and_expiry lock_found lock_owned_project insert_token finish_issue issue_new issue_body
    issue_labelled issue revoke_at revoke_found revoke_body revoke
linking = tt

abbrev request : IssueConnectionInput
request = record {
  owner_user_id = olga;
  project_id = mine;
  label = codes " laptop";
  idempotency_key = bob_id;
}

abbrev issued_db : Db
issued_db = (issue (λ t. t) 30 request ann_id (repeat 43 b'k') (some 2000) 2000 attic_db).1

abbrev laptop : PublicControlConnection
laptop = record {
  id = ann_id;
  label = codes "laptop";
  status = active;
  expires_at = some (2000 + 30 * day);
  last_used_at = none;
  revoked_at = none;
  created_at = 2000;
}

abbrev issued : IssuedControlConnection
issued = record {
  connection = laptop;
  secret = some (create_project_token (λ t. t) ann_id (repeat 43 b'k')).token;
}

issues :
    issue (λ t. t) 30 request ann_id (repeat 43 b'k') (some 2000) 2000 attic_db
    ≡ (ok issued, issued_db)
unfolding linking
issues = refl

labels : normalized_label (codes "desk") ≡ some (codes "desk")
unfolding linking
labels = refl

issue_once_example :
    (r2 : IssuedControlConnection) × (issue
        (λ t. t)
        30
        (record request { label = codes "desk" })
        bob_id
        (repeat 43 b'x')
        (some 9000)
        9000
        issued_db
      ≡ (ok r2, issued_db))
    × (r2.secret ≡ none)
    × (r2.connection.id ≡ ann_id)
issue_once_example =
    issue_once (λ t. t) 30 request (codes "desk") (codes "desk") ann_id bob_id (repeat 43 b'k')
      (repeat 43 b'x') (some 2000) 9000 2000 9000 issued attic_db issued_db issues labels refl

abbrev unlink : RevokeConnectionInput
unlink = record { owner_user_id = olga; project_id = mine; connection_id = ann_id }

abbrev unlinked_db : Db
unlinked_db = (revoke unlink (some 3000) 3000 issued_db).1

revokes :
    revoke unlink (some 3000) 3000 issued_db
    ≡ (ok (record laptop { status = revoked; revoked_at = some 3000 }), unlinked_db)
unfolding linking
revokes = refl

connects :
    authenticate_project (λ t. t) mesh_token (some 4000) unlinked_db
    ≡ (ok connected, (authenticate_project (λ t. t) mesh_token (some 4000) unlinked_db).1)
unfolding linking
connects = refl

authenticate_project-revoke_example :
    ¬ ((connected.project_id ≡ mine) × (connected.connection_token_id ≡ ann_id))
authenticate_project-revoke_example =
    authenticate_project-revoke (λ t. t) unlink (some 3000) 3000
      (record laptop { status = revoked; revoked_at = some 3000 }) mesh_token (some 4000) connected
      issued_db unlinked_db (authenticate_project (λ t. t) mesh_token (some 4000) unlinked_db).1
      revokes connects
