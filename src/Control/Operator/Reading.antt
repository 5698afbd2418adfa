-- ===== src/Control/Operator/Reading.antt =====
-- src/control/operator-service.ts: the users and projects that an operator reads, a page at a time.
use agentmesh_mcp.Prelude.{
  ℕ, suc, ◌≡◌, Bool, Option, none, some, List, [], ◌∷◌, map, Text, ◌==◌, length, length-order_by,
  is_value, count, find, order_by, Unique, arith, if◌then◌else◌,
}
use agentmesh_mcp.Schema.{
  Uuid, Date, Db, User, OauthIdentity, Project, ProjectStatus, Agent, Message, ProjectToken,
}
use agentmesh_mcp.Audit.{is_v4}
use agentmesh_mcp.WebAuth.Session.{is_user}
use agentmesh_mcp.Projects.{has_project_id}
use agentmesh_mcp.Control.Projects.{is_active_of}
use agentmesh_mcp.Paging.{CreatedCursor, newest_first, created_page, rows_after}
use agentmesh_mcp.Paging.Laws.{follow, follow_all}
use agentmesh_mcp.Control.Operator.{IdentifiedUser, identity_of, identified}

pub record PublicUser : Type 0 where
  pub id : Uuid
  pub github_user_id : Text
  pub github_login : Text
  pub display_name : Text
  pub avatar_url : Option Text
  pub blocked_at : Option Date
  pub created_at : Date
  pub updated_at : Date
  pub project_count : ℕ
  pub active_project_count : ℕ

abbrev pub owned_by : Uuid → Project → Bool
owned_by user_id p = is_value p.owner_user_id user_id

unfoldable pub public_user : Db → IdentifiedUser → PublicUser
public_user db row = record {
  id = row.user.id;
  github_user_id = row.identity.provider_user_id;
  github_login = row.identity.login;
  display_name = row.user.display_name;
  avatar_url = row.user.avatar_url;
  blocked_at = row.user.blocked_at;
  created_at = row.user.created_at;
  updated_at = row.user.updated_at;
  project_count = count (owned_by row.user.id) db.projects;
  active_project_count = count (is_active_of row.user.id) db.projects;
}

abbrev pub and_more : Option IdentifiedUser → List IdentifiedUser → List IdentifiedUser
and_more none rows = rows
and_more (some row) rows = row ∷ rows

-- The inner join; a user has one identity at most.
unfoldable pub joined_users : List User → List OauthIdentity → List IdentifiedUser
joined_users [] identities = []
joined_users (u ∷ us) identities = and_more (identified u identities) (joined_users us identities)

abbrev pub user_query : Db → List IdentifiedUser
user_query db = joined_users db.users db.oauth_identities

abbrev pub user_key : IdentifiedUser → CreatedCursor
user_key row = record { created_at = row.user.created_at; id = row.user.id }

unfoldable pub list_users : ℕ → Option CreatedCursor → Db → List PublicUser × Option CreatedCursor
list_users limit cursor db =
    let page = created_page user_key (rows_after user_key cursor limit (user_query db)) limit in
    (map (public_user db) page.0, page.1)

unfoldable pub get_user : Uuid → Db → Option PublicUser
get_user user_id db =
    if is_v4 user_id
    then (elim (find (λ (row : IdentifiedUser). is_user user_id row.user) (user_query db)) [
      | none ↦ none
      | some row ↦ some (public_user db row)
    ])
    else none

pub record PublicOwner : Type 0 where
  pub id : Uuid
  pub github_user_id : Option Text
  pub github_login : Option Text
  pub display_name : Text

pub record OperatorProject : Type 0 where
  pub id : Uuid
  pub name : Text
  pub status : ProjectStatus
  pub archived_at : Option Date
  pub created_at : Date
  pub updated_at : Date
  pub owner : Option PublicOwner
  pub agents : ℕ
  pub messages : ℕ
  pub connections : ℕ

-- The left joins: an owner without an identity has no GitHub id and login.
unfoldable pub owner_with : User → Option OauthIdentity → PublicOwner
owner_with u none = record {
  id = u.id;
  github_user_id = none;
  github_login = none;
  display_name = u.display_name;
}
owner_with u (some i) = record {
  id = u.id;
  github_user_id = some i.provider_user_id;
  github_login = some i.login;
  display_name = u.display_name;
}

unfoldable pub owner_row : Option User → Db → Option PublicOwner
owner_row none db = none
owner_row (some u) db = some (owner_with u (find (identity_of u.id) db.oauth_identities))

unfoldable pub owner_of : Option Uuid → Db → Option PublicOwner
owner_of none db = none
owner_of (some id) db = owner_row (find (is_user id) db.users) db

unfoldable pub public_project : Db → Project → OperatorProject
public_project db p = record {
  id = p.id;
  name = p.name;
  status = p.status;
  archived_at = p.archived_at;
  created_at = p.created_at;
  updated_at = p.updated_at;
  owner = owner_of p.owner_user_id db;
  agents = count (λ (x : Agent). x.project_id == p.id) db.agents;
  messages = count (λ (x : Message). x.project_id == p.id) db.messages;
  connections = count (λ (x : ProjectToken). x.project_id == p.id) db.project_tokens;
}

abbrev pub catalogue_key : Project → CreatedCursor
catalogue_key p = record { created_at = p.created_at; id = p.id }

unfoldable pub list_projects :
    ℕ → Option CreatedCursor → Db → List OperatorProject × Option CreatedCursor
list_projects limit cursor db =
    let page =
      created_page catalogue_key (rows_after catalogue_key cursor limit db.projects) limit in
    (map (public_project db) page.0, page.1)

unfoldable pub get_project : Uuid → Db → Option OperatorProject
get_project project_id db =
    if is_v4 project_id
    then (elim (find (has_project_id project_id) db.projects) [
      | none ↦ none
      | some p ↦ some (public_project db p)
    ])
    else none

-- Where the ids are unique and the limit is not 0, an operator who follows the cursors for as many
-- pages as there are projects gets every project once, the newest first.
pub follow-list_projects :
    (limit : ℕ) (db : Db)
    → Unique (λ (p q : Project). p.id == q.id) db.projects
    → follow (length db.projects) (λ c. list_projects (suc limit) c db) none
      ≡ map (public_project db) (order_by (newest_first catalogue_key) db.projects)
unfolding list_projects
follow-list_projects limit db unique =
    follow_all catalogue_key (public_project db) limit db.projects unique (length db.projects)
      (omega (arith, length-order_by (newest_first catalogue_key) db.projects))
