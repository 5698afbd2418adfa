-- ===== src/Tests/Control.antt =====
-- A project that is created, archived and deleted by its owner, and connections to it.
use agentmesh_mcp.Prelude.{
  ◌≡◌, ◌≢◌, refl, true, none, some, [], ◌∷◌, map, Text, codes, length, count, order_by, arith,
}
use agentmesh_mcp.Schema.{Uuid, Db, empty_db, User, active, archived}
use agentmesh_mcp.Transaction.{ok}
use agentmesh_mcp.Audit.{
  record_audit, audit_event, attributed_metadata, valid_attribution, is_v4, safe_uuid, safe_actor,
  safe_request_id,
}
use agentmesh_mcp.Auth.ProjectToken.{create_project_token}
use agentmesh_mcp.Projects.{AuthenticatedProject, authenticate_project, create_project}
use agentmesh_mcp.Paging.{newest_first}
use agentmesh_mcp.Paging.Laws.{follow}
use agentmesh_mcp.Control.Projects.{
  PublicControlProject, public_project, CreateProjectInput, OwnedProjectInput,
  recent_authentication, lock_owner, below_limit, enforce_limit, insert_project, insert_membership,
  create_new, create_or_reuse, create_body, create, update_projects, archive_found, archive_body,
  archive, may_read,
}
use agentmesh_mcp.Control.Projects.Deletion.{
  delete_cascade, delete_found, delete_body, delete_project,
}
use agentmesh_mcp.Control.Projects.Limit.{IsCatalogue}
use agentmesh_mcp.Control.Projects.Laws.{start, next, creates, archives, Reach-IsCatalogue}
use agentmesh_mcp.Control.Projects.Again.{create_idempotent, authenticate_project-delete_project}
use agentmesh_mcp.Control.Projects.Listing.{list, page_of, project_key, readable, follow-list}
use agentmesh_mcp.Tests.Data.{ann_id, bob_id, repeat}
use agentmesh_mcp.Tests.Projects.{connecting}

unfoldable pub control : Unit {0}
unfolding connecting count record_audit audit_event attributed_metadata valid_attribution is_v4
    safe_uuid safe_actor safe_request_id public_project recent_authentication lock_owner below_limit
    enforce_limit insert_project insert_membership create_new create_or_reuse create_body create
    update_projects archive_found archive_body archive delete_cascade delete_found delete_body
    delete_project may_read
control = tt

abbrev pub person : Uuid → Text → User
person id name = record {
  id = id;
  display_name = name;
  avatar_url = none;
  blocked_at = none;
  created_at = 0;
  updated_at = 0;
}

abbrev pub olga : Uuid
olga = ann_id

abbrev pub mesh : Uuid
mesh = 302240678275694148452352

abbrev pub mine : Uuid
mine = 302240678275694148452355

-- A project with a token of its own, and a user without projects.
abbrev pub house : Db
house =
    (create_project (λ t. t) (codes "mesh") mesh 500 bob_id (repeat 43 b's')
      (record empty_db { users = person olga (codes "Olga") ∷ [] })).1

abbrev request : CreateProjectInput
request = record {
  owner_user_id = olga;
  name = codes "attic";
  description = none;
  idempotency_key = 9;
}

abbrev pub attic_db : Db
attic_db = (create 1 request (some 1000) mine 61 1000 house).1

abbrev shown : PublicControlProject
shown = record {
  id = mine;
  name = codes "attic";
  description = none;
  status = active;
  archived_at = none;
  created_at = 1000;
  updated_at = 1000;
  can_edit = true;
}

creates_attic : create 1 request (some 1000) mine 61 1000 house ≡ (ok shown, attic_db)
unfolding control
creates_attic = refl

abbrev attic : OwnedProjectInput
attic = record { owner_user_id = olga; project_id = mine }

abbrev archived_db : Db
archived_db = (archive attic (some 2000) 2000 attic_db).1

archives_attic : archive attic (some 2000) 2000 attic_db ≡ (
  ok (record shown { status = archived; archived_at = some 2000; updated_at = 2000 }),
  archived_db,
)
unfolding control
archives_attic = refl

pub house-IsCatalogue : IsCatalogue 1 house.projects
unfolding control
house-IsCatalogue = record { ids = (tt, tt); limited = λ o. omega arith }

Reach-IsCatalogue_example : IsCatalogue 1 archived_db.projects
Reach-IsCatalogue_example = Reach-IsCatalogue 1 house archived_db (omega arith) house-IsCatalogue (
    next (next start (creates request 1000 mine 61 1000 shown creates_attic)) (
      archives attic 2000 2000
        (record shown { status = archived; archived_at = some 2000; updated_at = 2000 })
        archives_attic))

-- The owner is at the limit of 1 by the second call.
create_idempotent_example : create 1 request (some 3000) 77 78 3000 attic_db ≡ (ok shown, attic_db)
create_idempotent_example =
    create_idempotent 1 1 request 1000 3000 mine 61 77 78 1000 3000 shown house attic_db
      creates_attic

abbrev deleted_db : Db
deleted_db = (delete_project attic (codes "attic") 1000 (some 2000) 2000 attic_db).1

deletes_attic :
    delete_project attic (codes "attic") 1000 (some 2000) 2000 attic_db ≡ (ok tt, deleted_db)
unfolding control
deletes_attic = refl

abbrev pub mesh_token : Text
mesh_token = (create_project_token (λ t. t) bob_id (repeat 43 b's')).token

abbrev pub connected : AuthenticatedProject
connected = record { project_id = mesh; connection_token_id = bob_id }

connects :
    authenticate_project (λ t. t) mesh_token (some 3000) deleted_db
    ≡ (ok connected, (authenticate_project (λ t. t) mesh_token (some 3000) deleted_db).1)
unfolding control
connects = refl

authenticate_project-delete_project_example : mesh ≢ mine
authenticate_project-delete_project_example =
    authenticate_project-delete_project (λ t. t) attic (codes "attic") 1000 (some 2000) 2000
      mesh_token (some 3000) connected attic_db deleted_db
      (authenticate_project (λ t. t) mesh_token (some 3000) deleted_db).1 deletes_attic connects

follow-list_example :
    follow (length (readable olga attic_db)) (λ c. page_of (list 1 olga 1 c attic_db)) none
    ≡ map
        (λ p. public_project p olga)
        (order_by (newest_first project_key) (readable olga attic_db))
unfolding control
follow-list_example = follow-list 1 olga 0 attic_db ((ground arith, tt), (tt, tt))
