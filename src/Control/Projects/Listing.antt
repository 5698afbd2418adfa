-- ===== src/Control/Projects/Listing.antt =====
-- The list of the projects that a user may read, of src/control/project-service.ts, and what
-- following its cursors gives.
use agentmesh_mcp.Prelude.{
  ℕ, suc, ◌≡◌, ◌&&◌, Option, none, some, List, [], ◌∷◌, map, ◌==◌, length, length-order_by, count,
  select, order_by, Unique, Unique-select, arith,
}
use agentmesh_mcp.Schema.{Uuid, Db, Project}
use agentmesh_mcp.Projects.{is_active}
use agentmesh_mcp.Paging.{CreatedCursor, newest_first, created_page, rows_after}
use agentmesh_mcp.Paging.Laws.{follow, follow_all}
use agentmesh_mcp.Control.Projects.{PublicControlProject, public_project, is_active_of, may_read}

pub record ProjectList : Type 0 where
  pub projects : List PublicControlProject
  pub active_count : ℕ
  pub project_limit : ℕ
  pub default_project : Option PublicControlProject
  pub next_cursor : Option CreatedCursor

abbrev pub project_key : Project → CreatedCursor
project_key p = record { created_at = p.created_at; id = p.id }

abbrev pub readable : Uuid → Db → List Project
readable user_id db = select (may_read user_id db) db.projects

-- ORDER BY … LIMIT 1
unfoldable pub first_public : Uuid → List Project → Option PublicControlProject
first_public user_id [] = none
first_public user_id (p ∷ ps) = some (public_project p user_id)

unfoldable pub list : ℕ → Uuid → ℕ → Option CreatedCursor → Db → ProjectList
list project_limit user_id limit cursor db =
    let page =
      created_page project_key (rows_after project_key cursor limit (readable user_id db)) limit in
    record {
      projects = map (λ p. public_project p user_id) page.0;
      active_count = count (is_active_of user_id) db.projects;
      project_limit = project_limit;
      default_project = first_public user_id (
          order_by (newest_first project_key)
            (select (λ p. may_read user_id db p && is_active p.status) db.projects));
      next_cursor = page.1;
    }

-- The page of a call and the cursor of the next one.
abbrev pub page_of : ProjectList → List PublicControlProject × Option CreatedCursor
page_of l = (l.projects, l.next_cursor)

-- Where the ids are unique and the limit is not 0, a client that follows the cursors for as many
-- pages as it may read projects gets exactly these projects, each once, the newest first.
pub follow-list :
    (project_limit : ℕ) (user_id : Uuid) (limit : ℕ) (db : Db)
    → Unique (λ (p q : Project). p.id == q.id) db.projects
    → follow
        (length (readable user_id db))
        (λ c. page_of (list project_limit user_id (suc limit) c db))
        none
      ≡ map
          (λ p. public_project p user_id)
          (order_by (newest_first project_key) (readable user_id db))
unfolding list
follow-list project_limit user_id limit db unique =
    follow_all project_key (λ p. public_project p user_id) limit (readable user_id db)
      (Unique-select (λ (p q : Project). p.id == q.id) (may_read user_id db) db.projects unique)
      (length (readable user_id db))
      (omega (arith, length-order_by (newest_first project_key) (readable user_id db)))
