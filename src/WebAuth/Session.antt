-- ===== src/WebAuth/Session.antt =====
-- src/web-auth/session-service.ts with the digests of src/web-auth/session-token.ts. The random
-- credentials and the session ids are arguments; the clock gives no date when it is invalid.
pub mod Laws
pub mod Bounds
pub mod Table
pub mod Reach
use agentmesh_mcp.Prelude.{
  ℕ, ◌+◌, ◌*◌, ◌≡◌, Bool, true, false, not, ◌&&◌, ◌||◌, Option, none, some, List, [], ◌∷◌, ◌++◌,
  Text, text_eq, length, ◌==◌, ltb, leb, is_none, is_some, find, update, if◌then◌else◌,
}
use agentmesh_mcp.Schema.{Uuid, Date, Db, User, OauthIdentity, WebSession}
use agentmesh_mcp.Transaction.{valid_date}
use agentmesh_mcp.WebAuth.Credential.{
  WebKeys, digest, is_canonical_web_credential, equal_digest, verify_csrf, SessionCredential,
  Outcome, value, null, thrown, create_session_credential,
}

abbrev pub idle_lifetime : ℕ
idle_lifetime = 7 * 24 * 60 * 60 * 1000

abbrev pub absolute_lifetime : ℕ
absolute_lifetime = 30 * 24 * 60 * 60 * 1000

abbrev pub touch_interval : ℕ
touch_interval = 5 * 60 * 1000

abbrev pub minimum_date : Date → Date → Date
minimum_date first second = if leb first second then first else second

unfoldable pub active_at : WebSession → Date → Bool
active_at row now =
    leb row.authenticated_at now
    && (leb row.last_seen_at now
        && (ltb now row.idle_expires_at && ltb now row.absolute_expires_at))

pub record IssuedWebSession : Type 0 where
  pub session_id : Uuid
  pub authenticated_at : Date
  pub idle_expires_at : Date
  pub absolute_expires_at : Date
  pub credential : SessionCredential

abbrev pub new_session : Uuid → Date → SessionCredential → Uuid → WebSession
new_session user_id now credential id = record {
  id = id;
  user_id = user_id;
  token_digest = credential.session_digest;
  csrf_digest = credential.csrf_digest;
  authenticated_at = now;
  last_seen_at = now;
  idle_expires_at = minimum_date (now + idle_lifetime) (now + absolute_lifetime);
  absolute_expires_at = now + absolute_lifetime;
  revoked_at = none;
}

abbrev pub issued_session : WebSession → SessionCredential → IssuedWebSession
issued_session row credential = record {
  session_id = row.id;
  authenticated_at = row.authenticated_at;
  idle_expires_at = row.idle_expires_at;
  absolute_expires_at = row.absolute_expires_at;
  credential = credential;
}

abbrev pub is_user : Uuid → User → Bool
is_user id u = u.id == id

-- Whether the row of a user is there and not blocked.
unfoldable pub may_sign_in : Option User → Bool
may_sign_in none = false
may_sign_in (some u) = is_none u.blocked_at

-- INSERT: a second session with the same digest breaks the unique constraint.
unfoldable pub insert_session : WebSession → SessionCredential → Db → Outcome IssuedWebSession × Db
insert_session row credential db =
    if is_some (find (λ s. text_eq s.token_digest row.token_digest) db.web_sessions)
    then (thrown, db)
    else (
      value (issued_session row credential),
      record db { web_sessions = db.web_sessions ++ row ∷ [] },
    )

unfoldable pub issue_with :
    Uuid → Date → Uuid → Option SessionCredential → Db → Outcome IssuedWebSession × Db
issue_with user_id now id none db = (thrown, db)
issue_with user_id now id (some credential) db =
    if valid_date (now + absolute_lifetime) && valid_date (now + idle_lifetime)
    then (if may_sign_in (find (is_user user_id) db.users)
        then insert_session (new_session user_id now credential id) credential db
        else (null, db))
    else (null, db)

unfoldable pub issue :
    WebKeys → Uuid → Option Date → Text → Text → Uuid → Db → Outcome IssuedWebSession × Db
issue keys user_id none session_token csrf_token id db = (null, db)
issue keys user_id (some now) session_token csrf_token id db =
    issue_with user_id now id (create_session_credential keys session_token csrf_token) db

-- A session joined with its user and the user's GitHub identity.
pub record JoinedSession : Type 0 where
  pub session : WebSession
  pub user : User
  pub identity : OauthIdentity

unfoldable pub with_identity : WebSession → Option User → List OauthIdentity → Option JoinedSession
with_identity s none identities = none
with_identity s (some u) identities =
    elim (find (λ (i : OauthIdentity). i.user_id == u.id) identities) [
      | none ↦ none
      | some i ↦ some (record { session = s; user = u; identity = i })
    ]

unfoldable pub join_session : Option WebSession → Db → Option JoinedSession
join_session none db = none
join_session (some s) db = with_identity s (find (is_user s.user_id) db.users) db.oauth_identities

pub record AuthenticatedWebSession : Type 0 where
  pub session_id : Uuid
  pub user_id : Uuid
  pub github_user_id : Text
  pub github_login : Text
  pub display_name : Text
  pub avatar_url : Option Text
  pub authenticated_at : Date
  pub idle_expires_at : Date
  pub absolute_expires_at : Date
  pub csrf_digest : Text

unfoldable pub authenticated_snapshot : JoinedSession → Date → AuthenticatedWebSession
authenticated_snapshot row idle_expires_at = record {
  session_id = row.session.id;
  user_id = row.session.user_id;
  github_user_id = row.identity.provider_user_id;
  github_login = row.identity.login;
  display_name = row.user.display_name;
  avatar_url = row.user.avatar_url;
  authenticated_at = row.session.authenticated_at;
  idle_expires_at = idle_expires_at;
  absolute_expires_at = row.session.absolute_expires_at;
  csrf_digest = row.session.csrf_digest;
}

abbrev pub is_touchable : Uuid → Text → Date → WebSession → Bool
is_touchable id token_digest now s =
    s.id == id
    && (text_eq s.token_digest token_digest
        && (is_none s.revoked_at && (ltb now s.idle_expires_at && ltb now s.absolute_expires_at)))

abbrev pub touched : Date → Date → WebSession → WebSession
touched now idle_expires_at s = record s { last_seen_at = now; idle_expires_at = idle_expires_at }

abbrev pub next_idle : WebSession → Date → Date
next_idle s now = minimum_date (now + idle_lifetime) s.absolute_expires_at

unfoldable pub touch : JoinedSession → Text → Date → Db → Outcome AuthenticatedWebSession × Db
touch row token_digest now db =
    if leb (row.session.last_seen_at + touch_interval) now
    then (if is_some (find (is_touchable row.session.id token_digest now) db.web_sessions)
        then (
          value (authenticated_snapshot row (next_idle row.session now)),
          record db {
            web_sessions =
                update (is_touchable row.session.id token_digest now)
                  (touched now (next_idle row.session now)) db.web_sessions;
          },
        )
        else (null, db))
    else (value (authenticated_snapshot row row.session.idle_expires_at), db)

unfoldable pub admits : JoinedSession → Date → Bool
admits row now =
    is_none row.session.revoked_at && (is_none row.user.blocked_at && active_at row.session now)

unfoldable pub authenticate_row :
    Option JoinedSession → Text → Date → Db → Outcome AuthenticatedWebSession × Db
authenticate_row none token_digest now db = (null, db)
authenticate_row (some row) token_digest now db =
    if admits row now then touch row token_digest now db else (null, db)

abbrev pub has_digest : Text → WebSession → Bool
has_digest d s = text_eq s.token_digest d

unfoldable pub authenticate_digest : Option Text → Date → Db → Outcome AuthenticatedWebSession × Db
authenticate_digest none now db = (thrown, db)
authenticate_digest (some d) now db =
    authenticate_row (join_session (find (has_digest d) db.web_sessions) db) d now db

unfoldable pub authenticate :
    WebKeys → Text → Option Date → Db → Outcome AuthenticatedWebSession × Db
authenticate keys session_token none db = (null, db)
authenticate keys session_token (some now) db =
    if is_canonical_web_credential keys session_token
    then authenticate_digest (digest keys.hmac_sha256 session_token keys.session_digest_key) now db
    else (null, db)

abbrev pub revoked : Date → WebSession → WebSession
revoked now s = record s { revoked_at = some now }

abbrev pub is_live_id : Uuid → WebSession → Bool
is_live_id id s = s.id == id && is_none s.revoked_at

-- `false` where an invalid clock makes it throw.
unfoldable pub revoke : Uuid → Option Date → Db → Bool × Db
revoke session_id none db = (false, db)
revoke session_id (some now) db = (
  true,
  record db { web_sessions = update (is_live_id session_id) (revoked now) db.web_sessions },
)

unfoldable pub revoke_all_for_user : Uuid → Option Date → Db → Bool × Db
revoke_all_for_user user_id none db = (false, db)
revoke_all_for_user user_id (some now) db = (
  true,
  record db {
    web_sessions =
        update (λ s. s.user_id == user_id && is_none s.revoked_at) (revoked now) db.web_sessions;
  },
)

-- The guard of `rotateForReauthentication` and, without the user, of `rotateCsrf`.
unfoldable pub is_current : Option WebSession → Date → Db → Bool
is_current none now db = false
is_current (some s) now db =
    is_none s.revoked_at && (may_sign_in (find (is_user s.user_id) db.users) && active_at s now)

unfoldable pub belongs_to : Uuid → Option WebSession → Bool
belongs_to user_id none = false
belongs_to user_id (some s) = s.user_id == user_id

unfoldable pub keep_on_throw : Db → Outcome IssuedWebSession × Db → Outcome IssuedWebSession × Db
keep_on_throw before (thrown, after) = (thrown, before)
keep_on_throw before (null, after) = (null, after)
keep_on_throw before (value a, after) = (value a, after)

unfoldable pub rotate_with :
    Uuid → Uuid → Date → Uuid → Option SessionCredential → Db → Outcome IssuedWebSession × Db
rotate_with current_session_id user_id now id none db = (thrown, db)
rotate_with current_session_id user_id now id (some credential) db =
    let current = find (λ (s : WebSession). s.id == current_session_id) db.web_sessions in
    if valid_date (now + absolute_lifetime)
      && (belongs_to user_id current && is_current current now db)
    then keep_on_throw db (
        insert_session (new_session user_id now credential id) credential (record db {
          web_sessions =
              update (λ s. is_live_id current_session_id s && s.user_id == user_id) (revoked now)
                db.web_sessions;
        }))
    else (null, db)

unfoldable pub rotate_for_reauthentication :
    WebKeys → Uuid → Uuid → Option Date → Text → Text → Uuid → Db → Outcome IssuedWebSession × Db
rotate_for_reauthentication keys current_session_id user_id none session_token csrf_token id db =
    (null, db)
rotate_for_reauthentication keys current_session_id user_id (some now) session_token csrf_token id
      db =
    rotate_with current_session_id user_id now id
      (create_session_credential keys session_token csrf_token) db

-- A join with a user that is missing gives no row.
unfoldable pub rotate_csrf_with : Uuid → Date → Text → Option Text → Db → Outcome Text × Db
rotate_csrf_with session_id now csrf_token none db = (thrown, db)
rotate_csrf_with session_id now csrf_token (some csrf_digest) db =
    if is_current (find (λ (s : WebSession). s.id == session_id) db.web_sessions) now db
    then (
      value csrf_token,
      record db {
        web_sessions =
            update (is_live_id session_id) (λ s. record s { csrf_digest = csrf_digest })
              db.web_sessions;
      },
    )
    else (null, db)

unfoldable pub rotate_csrf : WebKeys → Uuid → Option Date → Text → Db → Outcome Text × Db
rotate_csrf keys session_id none csrf_token db = (null, db)
rotate_csrf keys session_id (some now) csrf_token db =
    rotate_csrf_with session_id now csrf_token
      (digest keys.hmac_sha256 csrf_token keys.csrf_digest_key) db
