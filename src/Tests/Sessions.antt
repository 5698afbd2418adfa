-- ===== src/Tests/Sessions.antt =====
-- A browser session that is issued, used, rotated and revoked.
use agentmesh_mcp.Prelude.{
  ◌+◌, ◌≡◌, ◌≤◌, ◌<◌, refl, true, none, some, [], ◌∷◌, Text, codes, Row, find,
}
use agentmesh_mcp.Schema.{Uuid, Date, Db, empty_db, User, WebSession}
use agentmesh_mcp.WebAuth.Credential.{
  WebKeys, digest, is_canonical_web_credential, SessionCredential, value, null,
  create_session_credential,
}
use agentmesh_mcp.WebAuth.Session.{
  IssuedWebSession, AuthenticatedWebSession, issue, issue_with, insert_session, may_sign_in,
  is_user, authenticate, authenticate_digest, authenticate_row, join_session, with_identity, admits,
  active_at, touch, authenticated_snapshot, revoke, rotate_for_reauthentication, rotate_with,
  belongs_to, is_current, keep_on_throw, absolute_lifetime,
}
use agentmesh_mcp.WebAuth.Session.Laws.{authenticate_sound, authenticate-revoke}
use agentmesh_mcp.WebAuth.Session.Bounds.{authenticate-rotate}
use agentmesh_mcp.WebAuth.Session.Table.{IsTable}
use agentmesh_mcp.WebAuth.Session.Reach.{Step, Reach, next, authenticate-Reach}
use agentmesh_mcp.Tests.Data.{queries, repeat}

unfoldable pub session : Unit {0}
unfolding queries issue issue_with insert_session may_sign_in authenticate authenticate_digest
    authenticate_row join_session with_identity admits active_at touch authenticated_snapshot revoke
    rotate_for_reauthentication rotate_with belongs_to is_current keep_on_throw digest
    is_canonical_web_credential create_session_credential
session = tt

abbrev pub keys : WebKeys
keys = record {
  hmac_sha256 = λ key t. t;
  is_canonical = λ t. true;
  session_digest_key = repeat 32 1;
  csrf_digest_key = repeat 32 2;
}

abbrev pub token : Text
token = repeat 43 b't'

abbrev pub csrf : Text
csrf = repeat 43 b'c'

abbrev pub signed_up : Db
signed_up = record empty_db {
  users =
      record {
        id = 7;
        display_name = codes "Olga";
        avatar_url = none;
        blocked_at = none;
        created_at = 0;
        updated_at = 0;
      }
      ∷ [];
  oauth_identities =
      record {
        user_id = 7;
        provider_user_id = codes "1";
        login = codes "olga";
        created_at = 0;
        updated_at = 0;
        last_login_at = 0;
      }
      ∷ [];
}

abbrev issued_db : Db
issued_db = (issue keys 7 (some 1000) token csrf 51 signed_up).1

abbrev credential : Text → SessionCredential
credential t = record {
  session_token = t;
  csrf_token = csrf;
  session_digest = t;
  csrf_digest = csrf;
}

abbrev pub issued : Uuid → Text → Date → IssuedWebSession
issued id t now = record {
  session_id = id;
  authenticated_at = now;
  idle_expires_at = now + 604800000;
  absolute_expires_at = now + 2592000000;
  credential = credential t;
}

issues :
    issue keys 7 (some 1000) token csrf 51 signed_up ≡ (value (issued 51 token 1000), issued_db)
unfolding session
issues = refl

abbrev snapshot : AuthenticatedWebSession
snapshot = record {
  session_id = 51;
  user_id = 7;
  github_user_id = codes "1";
  github_login = codes "olga";
  display_name = codes "Olga";
  avatar_url = none;
  authenticated_at = 1000;
  idle_expires_at = 400000 + 604800000;
  absolute_expires_at = 1000 + 2592000000;
  csrf_digest = csrf;
}

abbrev used_db : Db
used_db = (authenticate keys token (some 400000) issued_db).1

admitted : authenticate keys token (some 400000) issued_db ≡ (value snapshot, used_db)
unfolding session
admitted = refl

authenticate_sound_example :
    (t : Date) × (s : WebSession) × (u : User) × (some 400000 ≡ some t)
    × (is_canonical_web_credential keys token ≡ true)
    × Row s issued_db.web_sessions
    × (digest (λ key x. x) token (repeat 32 1) ≡ some s.token_digest)
    × (find (is_user s.user_id) issued_db.users ≡ some u)
    × (s.revoked_at ≡ none)
    × (u.blocked_at ≡ none)
    × (s.authenticated_at ≤ t)
    × (t < s.idle_expires_at)
    × (t < s.absolute_expires_at)
    × (51 ≡ s.id)
    × (7 ≡ s.user_id)
authenticate_sound_example =
    authenticate_sound keys token (some 400000) snapshot issued_db used_db admitted

abbrev later_snapshot : AuthenticatedWebSession
later_snapshot = record snapshot { idle_expires_at = 900000 + 604800000 }

abbrev later_db : Db
later_db = (authenticate keys token (some 900000) used_db).1

admitted_later : authenticate keys token (some 900000) used_db ≡ (value later_snapshot, later_db)
unfolding session
admitted_later = refl

authenticate-Reach_example :
    (t : Date) × (some 900000 ≡ some t)
    × (t < later_snapshot.absolute_expires_at)
    × (later_snapshot.absolute_expires_at ≡ 1000 + absolute_lifetime)
    × (later_snapshot.idle_expires_at ≤ later_snapshot.absolute_expires_at)
    × IsTable later_db.web_sessions
authenticate-Reach_example =
    authenticate-Reach keys signed_up used_db token (some 900000) later_snapshot later_db refl
      (next (next Reach.start (Step.issues 7 (some 1000) token csrf 51 signed_up))
        (Step.authenticates token (some 400000) issued_db))
      admitted_later

abbrev row : WebSession
row = record {
  id = 51;
  user_id = 7;
  token_digest = token;
  csrf_digest = csrf;
  authenticated_at = 1000;
  last_seen_at = 1000;
  idle_expires_at = 1000 + 604800000;
  absolute_expires_at = 1000 + 2592000000;
  revoked_at = none;
}

authenticate-revoke_example :
    authenticate keys token (some 3000) (revoke 51 (some 2000) issued_db).1
    ≡ (null, (revoke 51 (some 2000) issued_db).1)
unfolding session
authenticate-revoke_example =
    authenticate-revoke keys token token row 2000 (some 3000) issued_db refl refl

abbrev next_token : Text
next_token = repeat 43 b'n'

abbrev rotated_db : Db
rotated_db = (rotate_for_reauthentication keys 51 7 (some 5000) next_token csrf 52 issued_db).1

rotates :
    rotate_for_reauthentication keys 51 7 (some 5000) next_token csrf 52 issued_db
    ≡ (value (issued 52 next_token 5000), rotated_db)
unfolding session
rotates = refl

authenticate-rotate_example : authenticate keys token (some 6000) rotated_db ≡ (null, rotated_db)
unfolding session
authenticate-rotate_example =
    authenticate-rotate keys token token row 7 5000 next_token csrf 52 (issued 52 next_token 5000)
      (some 6000) issued_db rotated_db refl refl refl rotates
