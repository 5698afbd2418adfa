-- ===== src/Tests/Operators.antt =====
-- An operator blocks and unblocks a user, and assigns an owner to a project.
use agentmesh_mcp.Prelude.{take, ◌++◌, ◌≡◌, ◌≢◌, refl, none, some, [], ◌∷◌, Text, codes, arith}
use agentmesh_mcp.Schema.{Uuid, Db, OauthIdentity, WebSession}
use agentmesh_mcp.Transaction.{ok}
use agentmesh_mcp.WebAuth.Credential.{value, null}
use agentmesh_mcp.WebAuth.Session.{AuthenticatedWebSession, issue, authenticate}
use agentmesh_mcp.Auth.Uuid.{uuid_text, uuid_value}
use agentmesh_mcp.Control.Projects.Limit.{IsCatalogue}
use agentmesh_mcp.Control.Operator.{
  UserMutationInput, IdentifiedUser, identified, load_mutation_user, block_found, block_body,
  block_at, block_user, unblock_found, unblock_body, unblock_at, unblock_user,
}
use agentmesh_mcp.Control.Operator.Catalogue.{
  AssignOwnerInput, all_digits, is_github_id, find_destination, has_room, assign_to, assign_found,
  assign_body, assign_at, is_some_ownerless, assign_owner,
}
use agentmesh_mcp.Control.Operator.Laws.{authenticate-block_user, authenticate-unblock_user}
use agentmesh_mcp.Control.Operator.Owner.{assign_owner-IsCatalogue}
use agentmesh_mcp.Tests.Data.{bob_id, repeat}
use agentmesh_mcp.Tests.Control.{control, person, olga, mesh, house, house-IsCatalogue}
use agentmesh_mcp.Tests.Sessions.{session, keys, token, csrf}

unfoldable operating : Unit {0}
unfolding control session identified load_mutation_user block_found block_body block_at block_user
    unblock_found unblock_body unblock_at unblock_user all_digits is_github_id find_destination
    has_room assign_to assign_found assign_body assign_at is_some_ownerless assign_owner
operating = tt

abbrev operator : Uuid
operator = 302240678275694148452360

abbrev identity : Uuid → Text → OauthIdentity
identity user_id github = record {
  user_id = user_id;
  provider_user_id = github;
  login = codes "x";
  created_at = 0;
  updated_at = 0;
  last_login_at = 0;
}

-- Two users with a session each.
abbrev known : Db
known = record house {
  users = person olga (codes "Olga") ∷ person bob_id (codes "Bob") ∷ [];
  oauth_identities = identity olga (codes "1") ∷ identity bob_id (codes "2") ∷ [];
}

abbrev bob_token : Text
bob_token = repeat 43 b'b'

abbrev open_db : Db
open_db =
    (issue keys bob_id (some 1000) bob_token csrf 52
      (issue keys olga (some 1000) token csrf 51 known).1).1

abbrev against : UserMutationInput
against = record {
  operator_user_id = uuid_text operator;
  target_user_id = uuid_text olga;
  request_id = codes "r1";
}

abbrev blocked_db : Db
blocked_db = (block_user against (some 2000) 2000 open_db).1

abbrev blocked : IdentifiedUser
blocked = record {
  user = record (person olga (codes "Olga")) { blocked_at = some 2000; updated_at = 2000 };
  identity = identity olga (codes "1");
}

blocks : block_user against (some 2000) 2000 open_db ≡ (ok blocked, blocked_db)
unfolding operating
blocks = refl

-- The other user goes on.
abbrev bobs : AuthenticatedWebSession
bobs = record {
  session_id = 52;
  user_id = bob_id;
  github_user_id = codes "2";
  github_login = codes "x";
  display_name = codes "Bob";
  avatar_url = none;
  authenticated_at = 1000;
  idle_expires_at = 604801000;
  absolute_expires_at = 2592001000;
  csrf_digest = csrf;
}

bob_goes_on : authenticate keys bob_token (some 3000) blocked_db ≡ (value bobs, blocked_db)
unfolding operating
bob_goes_on = refl

authenticate-block_user_example : bob_id ≢ uuid_value (uuid_text olga)
authenticate-block_user_example =
    authenticate-block_user keys against (some 2000) 2000 open_db blocked blocked_db bob_token
      (some 3000) bobs blocked_db blocks bob_goes_on

abbrev unblocked_db : Db
unblocked_db = (unblock_user against (some 4000) 4000 blocked_db).1

abbrev unblocked : IdentifiedUser
unblocked = record {
  user = record (person olga (codes "Olga")) { updated_at = 4000 };
  identity = identity olga (codes "1");
}

unblocks : unblock_user against (some 4000) 4000 blocked_db ≡ (ok unblocked, unblocked_db)
unfolding operating
unblocks = refl

abbrev olgas : WebSession
olgas = record {
  id = 51;
  user_id = olga;
  token_digest = token;
  csrf_digest = csrf;
  authenticated_at = 1000;
  last_seen_at = 1000;
  idle_expires_at = 604801000;
  absolute_expires_at = 2592001000;
  revoked_at = none;
}

authenticate-unblock_user_example :
    authenticate keys token (some 5000) unblocked_db ≡ (null, unblocked_db)
unfolding operating
authenticate-unblock_user_example =
    authenticate-unblock_user keys against against (some 2000) (some 4000) 2000 4000 open_db
      blocked_db unblocked_db blocked unblocked token token olgas (some 5000) blocks unblocks refl
      refl refl

-- An operator whose own id is given with a capital letter is blocked by the operator's own call.
abbrev own : Uuid
own = 302240678275694148452362

abbrev self_blocking : UserMutationInput
self_blocking = record against {
  operator_user_id = uuid_text own;
  target_user_id = take 35 (uuid_text own) ++ b'A' ∷ [];
}

abbrev with_operator : Db
with_operator = record known {
  users = person own (codes "Op") ∷ [];
  oauth_identities = identity own (codes "3") ∷ [];
}

self_blocked :
    (block_user self_blocking (some 2000) 2000 with_operator).0
    ≡ ok (record {
      user = record (person own (codes "Op")) { blocked_at = some 2000; updated_at = 2000 };
      identity = identity own (codes "3");
    })
unfolding operating
self_blocked = refl

abbrev assignment : AssignOwnerInput
assignment = record { project_id = mesh; github_user_id = codes "2"; request_id = codes "r2" }

abbrev assigned_db : Db
assigned_db = (assign_owner 1 assignment (some 3000) 70 3000 known).1

assigns : assign_owner 1 assignment (some 3000) 70 3000 known ≡ (
  ok (record { project_id = mesh; owner_user_id = bob_id; github_user_id = codes "2" }),
  assigned_db,
)
unfolding operating
assigns = refl

assign_owner-IsCatalogue_example : IsCatalogue 1 assigned_db.projects
assign_owner-IsCatalogue_example =
    assign_owner-IsCatalogue 1 assignment (some 3000) 70 3000 known
      (record { project_id = mesh; owner_user_id = bob_id; github_user_id = codes "2" }) assigned_db
      (omega arith) house-IsCatalogue assigns
