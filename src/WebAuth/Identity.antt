-- ===== src/WebAuth/Identity.antt =====
-- src/web-auth/identity-service.ts: the local user of a GitHub identity. The advisory lock makes
-- the calls for one identity wait for each other, and the id of a new user is an argument.
pub mod Laws
use agentmesh_mcp.Prelude.{
  ℕ, ◌≡◌, Bool, true, false, Option, none, some, List, [], ◌∷◌, ◌++◌, Text, text_eq, ◌==◌, is_some,
  find, update, delete, if◌then◌else◌,
}
use agentmesh_mcp.Schema.{Uuid, Date, Db, User, OauthIdentity}
use agentmesh_mcp.WebAuth.Session.{is_user}

-- The profile that src/web-auth/github-client.ts fetches.
pub record GitHubProfile : Type 0 where
  pub id : Text
  pub login : Text
  pub name : Option Text
  pub avatar_url : Option Text

unfoldable pub display_name : GitHubProfile → Text
display_name profile = elim profile.name [ none ↦ profile.login | some n ↦ n ]

abbrev pub is_identity : Text → OauthIdentity → Bool
is_identity id i = text_eq i.provider_user_id id

abbrev pub snapshot_user : GitHubProfile → Date → User → User
snapshot_user profile now u = record u {
  display_name = display_name profile;
  avatar_url = profile.avatar_url;
  updated_at = now;
}

abbrev pub snapshot_identity : GitHubProfile → Date → OauthIdentity → OauthIdentity
snapshot_identity profile now i = record i {
  login = profile.login;
  updated_at = now;
  last_login_at = now;
}

unfoldable pub apply_profile_snapshots : Uuid → GitHubProfile → Date → Db → Db
apply_profile_snapshots user_id profile now db = record db {
  users = update (is_user user_id) (snapshot_user profile now) db.users;
  oauth_identities =
      update (is_identity profile.id) (snapshot_identity profile now) db.oauth_identities;
}

abbrev pub new_user : GitHubProfile → Date → Uuid → User
new_user profile now id = record {
  id = id;
  display_name = display_name profile;
  avatar_url = profile.avatar_url;
  blocked_at = none;
  created_at = now;
  updated_at = now;
}

abbrev pub new_identity : GitHubProfile → Date → Uuid → OauthIdentity
new_identity profile now user_id = record {
  user_id = user_id;
  provider_user_id = profile.id;
  login = profile.login;
  created_at = now;
  updated_at = now;
  last_login_at = now;
}

-- INSERT … ON CONFLICT DO NOTHING of the identity: where another row has the GitHub id, the user who
-- has just been made is deleted and the row's user is taken.
unfoldable pub insert_identity : GitHubProfile → Date → Uuid → Option OauthIdentity → Db → Uuid × Db
insert_identity profile now id none db =
    (id, record db { oauth_identities = db.oauth_identities ++ new_identity profile now id ∷ [] })
insert_identity profile now id (some conflicting) db =
    (conflicting.user_id, record db { users = delete (is_user id) db.users })

-- `none` for the exception on a second user with the id.
unfoldable pub upsert_found :
    GitHubProfile → Date → Uuid → Option OauthIdentity → Db → Option (Uuid × Db)
upsert_found profile now id (some existing) db =
    some (existing.user_id, apply_profile_snapshots existing.user_id profile now db)
upsert_found profile now id none db =
    let created = record db { users = db.users ++ new_user profile now id ∷ [] } in
    let stored =
      insert_identity profile now id (find (is_identity profile.id) created.oauth_identities)
        created in
    if is_some (find (is_user id) db.users)
    then none
    else some (stored.0, apply_profile_snapshots stored.0 profile now stored.1)

unfoldable pub upsert_github : GitHubProfile → Date → Uuid → Db → Option (Uuid × Db)
upsert_github profile now id db =
    upsert_found profile now id (find (is_identity profile.id) db.oauth_identities) db
