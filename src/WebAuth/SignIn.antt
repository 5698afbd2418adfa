-- ===== src/WebAuth/SignIn.antt =====
-- src/web-auth/oauth-service.ts: a sign-in with GitHub. The GitHub client is an argument, as are the
-- random texts.
pub mod Laws
use agentmesh_mcp.Prelude.{
  ℕ, ◌+◌, ◌*◌, ◌≡◌, Bool, true, false, not, ◌&&◌, ◌||◌, Option, none, some, List, [], ◌∷◌, ◌++◌,
  map, Text, codes, text_eq, take, ◌==◌, ltb, leb, is_none, is_some, find, select, order_by, update,
  delete, if◌then◌else◌,
}
use agentmesh_mcp.Schema.{Uuid, Date, Db, OauthAttempt, login_succeeded, login_failed}
use agentmesh_mcp.Audit.{RecordAuditInput, audit_event}
use agentmesh_mcp.WebAuth.Credential.{
  WebKeys, Outcome, value, null, thrown, is_canonical_web_credential,
}
use agentmesh_mcp.WebAuth.Session.{
  AuthenticatedWebSession, IssuedWebSession, issue, rotate_for_reauthentication,
}
use agentmesh_mcp.WebAuth.Cookie.{
  CookieLibrary, OAuthAttempt, seal_oauth_attempt, open_oauth_attempt, safe_integer,
}
use agentmesh_mcp.WebAuth.Identity.{GitHubProfile, upsert_github}

abbrev pub attempt_lifetime : ℕ
attempt_lifetime = 5 * 60 * 1000

abbrev pub cleanup_limit : ℕ
cleanup_limit = 128

-- The digest of a cookie under the key of the service.
abbrev pub attempt_digest : CookieLibrary → Text → Text → Text
attempt_digest lib key cookie = lib.hmac_sha256 key cookie

abbrev pub by_expiry : OauthAttempt → OauthAttempt → Bool
by_expiry a b = leb a.expires_at b.expires_at

unfoldable pub in_digests : List Text → Text → Bool
in_digests [] d = false
in_digests (x ∷ xs) d = text_eq x d || in_digests xs d

-- The expired attempts that go, the oldest 128 at most. The digest is the primary key.
unfoldable pub expired_attempts : Date → List OauthAttempt → List Text
expired_attempts now attempts =
    map (λ a. a.attempt_digest)
      (take cleanup_limit (order_by by_expiry (select (λ a. leb a.expires_at now) attempts)))

unfoldable pub clean_up : Date → List OauthAttempt → List OauthAttempt
clean_up now attempts =
    delete (λ a. in_digests (expired_attempts now attempts) a.attempt_digest) attempts

abbrev pub new_attempt : Text → Date → OauthAttempt
new_attempt digest now = record {
  attempt_digest = digest;
  expires_at = now + attempt_lifetime;
  consumed_at = none;
  created_at = now;
}

abbrev pub has_attempt_digest : Text → OauthAttempt → Bool
has_attempt_digest d a = text_eq a.attempt_digest d

-- The transaction; an insertion that breaks the primary key makes `start` return null.
unfoldable pub store_attempt : CookieLibrary → Text → Date → Option Text → Db → Outcome Text × Db
store_attempt lib key now none db = (thrown, db)
store_attempt lib key now (some cookie) db =
    let kept = clean_up now db.oauth_attempts in
    if is_some (find (has_attempt_digest (attempt_digest lib key cookie)) kept)
    then (null, db)
    else (
      value cookie,
      record db { oauth_attempts = kept ++ new_attempt (attempt_digest lib key cookie) now ∷ [] },
    )

-- The cookie of the attempt; the authorization URL, which the client builds, is left out.
unfoldable pub start :
    CookieLibrary → Text → Text → Option Date → Text → Text → Text → Db → Outcome Text × Db
start lib key return_to none state verifier iv db = (null, db)
start lib key return_to (some now) state verifier iv db =
    if safe_integer (now + attempt_lifetime)
    then store_attempt lib key now
        (seal_oauth_attempt lib
          (record {
            state = state;
            verifier = verifier;
            expires_at = now + attempt_lifetime;
            return_to = some return_to;
          })
          key iv)
        db
    else (null, db)

unfoldable pub is_open_attempt : Date → OauthAttempt → Bool
is_open_attempt now a = ltb now a.expires_at && is_none a.consumed_at

abbrev pub is_marked : CookieLibrary → Text → List Text → Date → OauthAttempt → Bool
is_marked lib key cookies now a =
    in_digests (map (attempt_digest lib key) cookies) a.attempt_digest && is_open_attempt now a

unfoldable pub consumed : Date → OauthAttempt → OauthAttempt
consumed now a = record a { consumed_at = some now }

-- An attempt counts where its row was marked and its sealed expiry is the row's.
unfoldable pub same_expiry : OauthAttempt → Option OAuthAttempt → Option OAuthAttempt
same_expiry row none = none
same_expiry row (some a) = if a.expires_at == row.expires_at then some a else none

unfoldable pub accept_marked :
    CookieLibrary → Text → Date → Text → Option OauthAttempt → Option OAuthAttempt
accept_marked lib key now cookie none = none
accept_marked lib key now cookie (some row) =
    same_expiry row (open_oauth_attempt lib cookie key now)

-- UPDATE … RETURNING, and the answer for each cookie.
unfoldable pub consume_at :
    CookieLibrary → Text → List Text → Date → Db → List (Option OAuthAttempt) × Db
consume_at lib key cookies now db = (
  map
      (λ c. accept_marked lib key now c (
        find (has_attempt_digest (attempt_digest lib key c))
          (select (is_marked lib key cookies now) db.oauth_attempts)))
      cookies,
  record db {
    oauth_attempts = update (is_marked lib key cookies now) (consumed now) db.oauth_attempts;
  },
)

unfoldable pub consume :
    CookieLibrary → Text → List Text → Option Date → Db → List (Option OAuthAttempt) × Db
consume lib key cookies none db = (map (λ c. none) cookies, db)
consume lib key cookies (some now) db = consume_at lib key cookies now db

-- `recordBestEffort`: the events of a sign-in name no subject and no actor, so they are stored.
abbrev pub login_event : Bool → Option Uuid → RecordAuditInput
login_event succeeded user_id = record {
  user_id = user_id;
  subject_user_id = none;
  actor = none;
  request_id = none;
  project_id = none;
  event_type = if succeeded then login_succeeded else login_failed;
  connection_label = none;
  project_name = none;
  invitation_id = none;
}

abbrev pub record_login : Bool → Option Uuid → Date → Db → Db
record_login succeeded user_id at db = record db {
  audit_events = db.audit_events ++ audit_event (login_event succeeded user_id) at ∷ [];
}

pub record SignedIn : Type 0 where
  pub session : IssuedWebSession
  pub return_to : Text

unfoldable pub failed : Date → Db → Option SignedIn × Db
failed at db = (none, record_login false none at db)

-- `returnTo ?? "/app"`
unfoldable pub return_of : OAuthAttempt → Text
return_of attempt = elim attempt.return_to [ none ↦ codes "/app" | some t ↦ t ]

-- What the call draws and reads: the clocks of the services, random texts and ids.
pub record SignInContext : Type 0 where
  pub identity_now : Date
  pub session_now : Option Date
  pub recorded_at : Date
  pub user_id : Uuid
  pub session_id : Uuid
  pub session_token : Text
  pub csrf_token : Text

unfoldable pub open_session :
    WebKeys
    → SignInContext
    → Option AuthenticatedWebSession
    → Uuid
    → Db
    → Outcome IssuedWebSession × Db
open_session keys c none user_id db =
    issue keys user_id c.session_now c.session_token c.csrf_token c.session_id db
open_session keys c (some current) user_id db =
    rotate_for_reauthentication keys current.session_id user_id c.session_now c.session_token
      c.csrf_token c.session_id db

unfoldable pub finish_session :
    SignInContext → OAuthAttempt → Uuid → Outcome IssuedWebSession × Db → Option SignedIn × Db
finish_session c attempt user_id (value s, db) = (
  some (record { session = s; return_to = return_of attempt }),
  record_login true (some user_id) c.recorded_at db,
)
finish_session c attempt user_id (null, db) = failed c.recorded_at db
finish_session c attempt user_id (thrown, db) = failed c.recorded_at db

unfoldable pub with_user :
    WebKeys
    → SignInContext
    → OAuthAttempt
    → Option AuthenticatedWebSession
    → Option (Uuid × Db)
    → Db
    → Option SignedIn × Db
with_user keys c attempt current none db = failed c.recorded_at db
with_user keys c attempt current (some (user_id, db')) db =
    finish_session c attempt user_id (open_session keys c current user_id db')

-- currentSession !== null && currentSession.githubUserId !== profile.id
unfoldable pub same_github : Option AuthenticatedWebSession → GitHubProfile → Bool
same_github none profile = true
same_github (some current) profile = text_eq current.github_user_id profile.id

unfoldable pub with_profile :
    WebKeys
    → SignInContext
    → OAuthAttempt
    → Option AuthenticatedWebSession
    → Option GitHubProfile
    → Db
    → Option SignedIn × Db
with_profile keys c attempt current none db = failed c.recorded_at db
with_profile keys c attempt current (some profile) db =
    if same_github current profile
    then with_user keys c attempt current (upsert_github profile c.identity_now c.user_id db) db
    else failed c.recorded_at db

-- src/web-auth/github-client.ts, which asks GitHub; `none` where a call throws.
pub record GitHubClient : Type 0 where
  pub exchange_code : Text → Text → Option Text
  pub fetch_profile : Text → Option GitHubProfile

unfoldable pub profile_with : GitHubClient → Option Text → Option GitHubProfile
profile_with client none = none
profile_with client (some access_token) = client.fetch_profile access_token

unfoldable pub complete :
    WebKeys
    → GitHubClient
    → SignInContext
    → OAuthAttempt
    → Text
    → Text
    → Option AuthenticatedWebSession
    → Db
    → Option SignedIn × Db
complete keys client c attempt code state current db =
    if is_canonical_web_credential keys state && text_eq state attempt.state
    then with_profile keys c attempt current
        (profile_with client (client.exchange_code code attempt.verifier)) db
    else failed c.recorded_at db
