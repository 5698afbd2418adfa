-- ===== src/WebAuth/Session/Bounds.antt =====
-- The lifetimes of sessions, and the rotation of one.
use agentmesh_mcp.Prelude.{
  ◌+◌, ◌≡◌, ◌≤◌, ◌<◌, refl, sym, ap, Bool, true, ◌&&◌, Option, none, some, [], ◌∷◌, ◌++◌, Text,
  text_eq, ◌==◌, leb, ==_refl, is_none, is_some, find, find-Row, find-append, find-update_found,
  update, arith, and-true, All, All-append, All-Row, Bool-cases, inl, inr, if◌then◌else◌,
}
use mathlib.Core.Path.{subst}
use agentmesh_mcp.Schema.{Uuid, Date, Db, WebSession}
use agentmesh_mcp.Transaction.{valid_date}
use agentmesh_mcp.WebAuth.Credential.{
  WebKeys, digest, SessionCredential, Outcome, value, null, thrown, create_session_credential,
}
use agentmesh_mcp.WebAuth.Session.{
  idle_lifetime, absolute_lifetime, touch_interval, minimum_date, IssuedWebSession, issued_session,
  new_session, is_user, may_sign_in, insert_session, issue_with, issue, JoinedSession, join_session,
  AuthenticatedWebSession, authenticated_snapshot, is_touchable, touch, has_digest, authenticate,
  revoked, is_live_id, belongs_to, is_current, keep_on_throw, rotate_with,
  rotate_for_reauthentication,
}
use agentmesh_mcp.WebAuth.Session.Laws.{
  IsSession, authenticate-value, authenticate_digest-value, authenticate_row-value,
  join_session-some, authenticate-revoked, admits-when,
}

pub minimum_date-le : (a b : Date) → minimum_date a b ≤ b
minimum_date-le a b = ground arith

pub new_session-IsSession :
    (user_id : Uuid) (now : Date) (credential : SessionCredential) (id : Uuid)
    → IsSession (new_session user_id now credential id)
new_session-IsSession user_id now credential id = record {
  absolute = refl;
  idle = minimum_date-le (now + idle_lifetime) (now + absolute_lifetime);
}

insert_session-value :
    (row : WebSession) (credential : SessionCredential) (a : IssuedWebSession) (db db' : Db)
    → insert_session row credential db ≡ (value a, db')
    → (a ≡ issued_session row credential) × (db'.web_sessions ≡ db.web_sessions ++ row ∷ [])
unfolding insert_session
insert_session-value row credential a db db' h =
    elim (Bool-cases (
      is_some
        (find (λ (s : WebSession). text_eq s.token_digest row.token_digest) db.web_sessions))) [
          | inl e ↦ absurd (ground (arith, e, h))
          | inr e ↦ ground (arith, e, h)
        ]

issue_with-value :
    (user_id : Uuid) (now : Date) (id : Uuid) (o : Option SessionCredential) (a : IssuedWebSession)
    (db db' : Db)
    → issue_with user_id now id o db ≡ (value a, db')
    → (credential : SessionCredential) × (o ≡ some credential)
      × (may_sign_in (find (is_user user_id) db.users) ≡ true)
      × (insert_session (new_session user_id now credential id) credential db ≡ (value a, db'))
unfolding issue_with
issue_with-value user_id now id none a db db' h = absurd (ground arith)
issue_with-value user_id now id (some credential) a db db' h =
    elim (Bool-cases (valid_date (now + absolute_lifetime) && valid_date (now + idle_lifetime))) [
      | inr e ↦ absurd (ground (arith, e, h))
      | inl e ↦ elim (Bool-cases (may_sign_in (find (is_user user_id) db.users))) [
        | inr f ↦ absurd (ground (arith, e, f, h))
        | inl f ↦ (credential, refl, f, ground (arith, e, f, h))
      ]
    ]

-- A session that is issued belongs to a user who is stored and not blocked, starts now, and ends
-- at most 30 days later; with it, every session keeps its bounds.
pub issue-IsSession :
    (keys : WebKeys) (user_id : Uuid) (now : Date) (session_token csrf_token : Text) (id : Uuid)
    (a : IssuedWebSession) (db db' : Db)
    → All IsSession db.web_sessions
    → issue keys user_id (some now) session_token csrf_token id db ≡ (value a, db')
    → (may_sign_in (find (is_user user_id) db.users) ≡ true)
      × (a.authenticated_at ≡ now)
      × (a.absolute_expires_at ≡ now + absolute_lifetime)
      × (a.idle_expires_at ≤ a.absolute_expires_at)
      × All IsSession db'.web_sessions
unfolding issue
issue-IsSession keys user_id now session_token csrf_token id a db db' good h =
    let (credential, made, allowed, h1) =
      issue_with-value user_id now id (create_session_credential keys session_token csrf_token) a db
        db' h in
    let row = new_session user_id now credential id in
    let (shown, stored) = insert_session-value row credential a db db' h1 in
    (
      allowed,
      ap (λ (x : IssuedWebSession). x.authenticated_at) shown,
      ap (λ (x : IssuedWebSession). x.absolute_expires_at) shown,
      subst (λ (x : IssuedWebSession). x.idle_expires_at ≤ x.absolute_expires_at) (sym shown)
          (minimum_date-le (now + idle_lifetime) (now + absolute_lifetime)),
      rw stored (
          All-append IsSession db.web_sessions (row ∷ []) good
            (new_session-IsSession user_id now credential id, tt)),
    )

touch-bounds :
    (row : JoinedSession) (d : Text) (now : Date) (a : AuthenticatedWebSession) (db db' : Db)
    → IsSession row.session
    → touch row d now db ≡ (value a, db')
    → (a.absolute_expires_at ≡ a.authenticated_at + absolute_lifetime)
      × (a.idle_expires_at ≤ a.absolute_expires_at)
      × (a.absolute_expires_at ≡ row.session.absolute_expires_at)
unfolding touch authenticated_snapshot
touch-bounds row d now a db db' good h =
    let absolute = good.absolute in
    let idle = good.idle in
    elim (Bool-cases (leb (row.session.last_seen_at + touch_interval) now)) [
      | inr e ↦ ground (arith, e, h, absolute, idle)
      | inl e ↦
          elim (Bool-cases (is_some (find (is_touchable row.session.id d now) db.web_sessions))) [
            | inr f ↦ absurd (ground (arith, e, f, h))
            | inl f ↦
                let below = minimum_date-le (now + idle_lifetime) row.session.absolute_expires_at in
                ground (arith, e, f, h, absolute, below)
          ]
    ]

-- The times that a request sees, from a table whose sessions have their bounds.
pub authenticate-bounds :
    (keys : WebKeys) (token : Text) (now : Option Date) (a : AuthenticatedWebSession) (db db' : Db)
    → All IsSession db.web_sessions
    → authenticate keys token now db ≡ (value a, db')
    → (a.absolute_expires_at ≡ a.authenticated_at + absolute_lifetime)
      × (a.idle_expires_at ≤ a.absolute_expires_at)
      × (t : Date) × (now ≡ some t)
      × (t < a.absolute_expires_at)
authenticate-bounds keys token now a db db' good h =
    let (t, given, canonical, h1) = authenticate-value keys token now a db db' h in
    let (d, digested, h2) =
      authenticate_digest-value (digest keys.hmac_sha256 token keys.session_digest_key) t a db db'
        h1 in
    let (row, joined, admitted, h3) =
      authenticate_row-value (join_session (find (has_digest d) db.web_sessions) db) d t a db db'
        h2 in
    let (found, whose) = join_session-some (find (has_digest d) db.web_sessions) db row joined in
    let (absolute, idle, same) =
      touch-bounds row d t a db db'
        (All-Row IsSession good (find-Row (has_digest d) db.web_sessions row.session found)) h3 in
    let (_, _, _, _, before) = admits-when row t admitted in
    (absolute, idle, t, given, rw same before)

keep_on_throw-value :
    (before : Db) (r : Outcome IssuedWebSession × Db) (a : IssuedWebSession) (db' : Db)
    → keep_on_throw before r ≡ (value a, db')
    → r ≡ (value a, db')
unfolding keep_on_throw
keep_on_throw-value before (thrown, db) a db' h = absurd (ground arith)
keep_on_throw-value before (null, db) a db' h = absurd (ground arith)
keep_on_throw-value before (value x, db) a db' h = h

abbrev pub is_session : Uuid → WebSession → Bool
is_session id s = s.id == id

rotate_with-value :
    (current user_id : Uuid) (now : Date) (id : Uuid) (o : Option SessionCredential)
    (a : IssuedWebSession) (db db' : Db)
    → rotate_with current user_id now id o db ≡ (value a, db')
    → (credential : SessionCredential) × (o ≡ some credential)
      × (belongs_to user_id (find (is_session current) db.web_sessions) ≡ true)
      × (is_current (find (is_session current) db.web_sessions) now db ≡ true)
      × (db'.web_sessions
          ≡ update (λ s. is_live_id current s && s.user_id == user_id) (revoked now) db.web_sessions
            ++ new_session user_id now credential id ∷ [])
unfolding rotate_with
rotate_with-value current user_id now id none a db db' h = absurd (ground arith)
rotate_with-value current user_id now id (some credential) a db db' h =
    let o = find (is_session current) db.web_sessions in
    let test =
      valid_date (now + absolute_lifetime) && (belongs_to user_id o && is_current o now db) in
    let db1 = record db {
      web_sessions =
          update (λ s. is_live_id current s && s.user_id == user_id) (revoked now) db.web_sessions;
    } in
    let row = new_session user_id now credential id in
    elim (Bool-cases test) [
      | inr e ↦ absurd (ground (arith, e, h))
      | inl e ↦
          let inserted = keep_on_throw-value db (insert_session row credential db1) a db' (
            subst
              (λ b.
                (if b then keep_on_throw db (insert_session row credential db1) else (null, db))
                ≡ (value a, db'))
              e h) in
          let (shown, stored) = insert_session-value row credential a db1 db' inserted in
          let (valid, rest) =
            and-true (valid_date (now + absolute_lifetime))
              (belongs_to user_id o && is_current o now db) e in
          let (mine, live) = and-true (belongs_to user_id o) (is_current o now db) rest in
          (credential, refl, mine, live, stored)
    ]

is_current-live :
    (s : WebSession) (now : Date) (db : Db)
    → is_current (some s) now db ≡ true
    → is_none s.revoked_at ≡ true
unfolding is_current
is_current-live s now db h = (and-true (is_none s.revoked_at) _ h).0

belongs_to-some :
    (user_id : Uuid) (s : WebSession)
    → belongs_to user_id (some s) ≡ true
    → (s.user_id == user_id) ≡ true
unfolding belongs_to
belongs_to-some user_id s h = h

-- A rotation that succeeds revokes the session that it replaces: no request with the old token is
-- authenticated after it, at any time.
pub authenticate-rotate :
    (keys : WebKeys) (token d : Text) (s : WebSession) (user_id : Uuid) (t : Date)
    (session_token csrf_token : Text) (id : Uuid) (a : IssuedWebSession) (now : Option Date)
    (db db' : Db)
    → digest keys.hmac_sha256 token keys.session_digest_key ≡ some d
    → find (has_digest d) db.web_sessions ≡ some s
    → find (is_session s.id) db.web_sessions ≡ some s
    → rotate_for_reauthentication keys s.id user_id (some t) session_token csrf_token id db
      ≡ (value a, db')
    → authenticate keys token now db' ≡ (null, db')
unfolding rotate_for_reauthentication
authenticate-rotate keys token d s user_id t session_token csrf_token id a now db db' digested found
      by_id h =
    let (credential, made, mine, live, stored) =
      rotate_with-value s.id user_id t id (create_session_credential keys session_token csrf_token)
        a db db' h in
    let alive : is_none s.revoked_at ≡ true =
      is_current-live s t db (subst (λ o. is_current o t db ≡ true) by_id live) in
    let owned : (s.user_id == user_id) ≡ true =
      belongs_to-some user_id s (subst (λ o. belongs_to user_id o ≡ true) by_id mine) in
    let p = λ (x : WebSession). is_live_id s.id x && x.user_id == user_id in
    let passes : p s ≡ true = rw (==_refl s.id) (rw alive owned) in
    authenticate-revoked keys token d (revoked t s) now db' digested
      (rw stored (
        rw
          (find-append (has_digest d) (update p (revoked t) db.web_sessions)
            (new_session user_id t credential id ∷ []))
          (rw
            (find-update_found (has_digest d) p (revoked t) db.web_sessions s (λ y. refl) found
              passes)
            refl)))
      refl
