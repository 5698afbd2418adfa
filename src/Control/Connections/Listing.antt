-- ===== src/Control/Connections/Listing.antt =====
-- src/control/connection-service.ts, `list`: the connections of a project.
use agentmesh_mcp.Prelude.{
  ℕ, Bool, false, ◌&&◌, Option, none, some, List, ◌==◌, leb, is_some, find, if◌then◌else◌, map,
  take, select, order_by,
}
use agentmesh_mcp.Schema.{Uuid, Date, Db, Project, ProjectToken}
use agentmesh_mcp.Transaction.{Result, ok, err, code}
use agentmesh_mcp.Audit.{is_v4}
use agentmesh_mcp.Control.Projects.{may_read}
use agentmesh_mcp.Control.Connections.{
  ConnectionControlErrorCode, invalid_request, project_not_found, control_unavailable,
  PublicControlConnection, public_connection, owner_free,
}

pub record ListConnectionsInput : Type 0 where
  pub user_id : Uuid
  pub project_id : Uuid
  pub limit : ℕ

-- ORDER BY created_at DESC, id DESC
abbrev pub newest_first : ProjectToken → ProjectToken → Bool
newest_first a b =
    if a.created_at == b.created_at then leb b.id a.id else leb b.created_at a.created_at

abbrev pub owner_of_free : Project → Db → Bool
owner_of_free p db = elim p.owner_user_id [ none ↦ false | some o ↦ owner_free o db ]

-- One row for each token of the project, or one without a token; the row without a token is left
-- out of the answer.
unfoldable pub list_at :
    ListConnectionsInput
    → Date
    → Db
    → Result ConnectionControlErrorCode (List PublicControlConnection)
list_at input now db =
    if is_some (
      find (λ p. p.id == input.project_id && (may_read input.user_id db p && owner_of_free p db))
        db.projects)
    then ok (
        map (λ t. public_connection t now)
          (take input.limit (
            order_by newest_first
              (select (λ (t : ProjectToken). t.project_id == input.project_id) db.project_tokens))))
    else err (code project_not_found)

list_now :
    ListConnectionsInput
    → Option Date
    → Db
    → Result ConnectionControlErrorCode (List PublicControlConnection)
list_now input none db = err (code control_unavailable)
list_now input (some now) db = list_at input now db

unfoldable pub list :
    ListConnectionsInput
    → Option Date
    → Db
    → Result ConnectionControlErrorCode (List PublicControlConnection)
unfolding list_now
list input clock db =
    if is_v4 input.user_id && (is_v4 input.project_id && (leb 1 input.limit && leb input.limit 100))
    then list_now input clock db
    else err (code invalid_request)
