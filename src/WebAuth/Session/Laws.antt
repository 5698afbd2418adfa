-- ===== src/WebAuth/Session/Laws.antt =====
-- Sessions: which are admitted, and that a revoked one is not.
use agentmesh_mcp.Prelude.{
  ◌+◌, ◌≡◌, ◌≤◌, ◌<◌, refl, sym, ap, ◌∙◌, Bool, true, false, Option, none, some, List, Text,
  text_eq_iff, ◌==◌, ==_refl, is_none, find, find-true, find-Row, find-update, update, arith, Row,
  Bool-cases, Option-cases, inl, inr, if◌then◌else◌,
}
use mathlib.Core.Path.{subst}
use agentmesh_mcp.Schema.{Date, Db, User, OauthIdentity, WebSession}
use agentmesh_mcp.WebAuth.Credential.{WebKeys, digest, is_canonical_web_credential, value, null}
use agentmesh_mcp.WebAuth.Session.{
  absolute_lifetime, active_at, is_user, JoinedSession, with_identity, join_session,
  AuthenticatedWebSession, authenticated_snapshot, touch, admits, authenticate_row, has_digest,
  authenticate_digest, authenticate, revoked, is_live_id, revoke,
}

-- Every row ends within its absolute lifetime, and is idle no longer than that.
pub record IsSession (s : WebSession) : Type 0 where
  pub absolute : s.absolute_expires_at ≡ s.authenticated_at + absolute_lifetime
  pub idle : s.idle_expires_at ≤ s.absolute_expires_at

with_identity-some :
    (s : WebSession) (o : Option User) (identities : List OauthIdentity) (row : JoinedSession)
    → with_identity s o identities ≡ some row
    → (row.session ≡ s) × (o ≡ some row.user)
unfolding with_identity
with_identity-some s none identities row h = absurd (ground arith)
with_identity-some s (some u) identities row h =
    elim (Option-cases (find (λ (i : OauthIdentity). i.user_id == u.id) identities)) [
      | inl e ↦ absurd (ground (arith, e))
      | inr (i, e) ↦ ground (arith, e)
    ]

pub join_session-some :
    (o : Option WebSession) (db : Db) (row : JoinedSession)
    → join_session o db ≡ some row
    → (o ≡ some row.session) × (find (is_user row.session.user_id) db.users ≡ some row.user)
unfolding join_session
join_session-some none db row h = absurd (ground arith)
join_session-some (some s) db row h =
    let (same, found) =
      with_identity-some s (find (is_user s.user_id) db.users) db.oauth_identities row h in
    (
      ap some (sym same),
      subst (λ (t : WebSession). find (is_user t.user_id) db.users ≡ some row.user) (sym same)
          found,
    )

pub authenticate_row-value :
    (o : Option JoinedSession) (d : Text) (now : Date) (a : AuthenticatedWebSession) (db db' : Db)
    → authenticate_row o d now db ≡ (value a, db')
    → (row : JoinedSession) × (o ≡ some row)
      × (admits row now ≡ true)
      × (touch row d now db ≡ (value a, db'))
unfolding authenticate_row
authenticate_row-value none d now a db db' h = absurd (ground arith)
authenticate_row-value (some row) d now a db db' h = elim (Bool-cases (admits row now)) [
  | inl e ↦ (
    row,
    refl,
    e,
    subst (λ b. (if b then touch row d now db else (null, db)) ≡ (value a, db')) e h,
  )
  | inr e ↦ absurd (ground (arith, e, h))
]

pub authenticate_digest-value :
    (o : Option Text) (now : Date) (a : AuthenticatedWebSession) (db db' : Db)
    → authenticate_digest o now db ≡ (value a, db')
    → (d : Text) × (o ≡ some d)
      × (authenticate_row (join_session (find (has_digest d) db.web_sessions) db) d now db
          ≡ (value a, db'))
unfolding authenticate_digest
authenticate_digest-value none now a db db' h = absurd (ground arith)
authenticate_digest-value (some d) now a db db' h = (d, refl, h)

pub authenticate-value :
    (keys : WebKeys) (token : Text) (now : Option Date) (a : AuthenticatedWebSession) (db db' : Db)
    → authenticate keys token now db ≡ (value a, db')
    → (t : Date) × (now ≡ some t)
      × (is_canonical_web_credential keys token ≡ true)
      × (authenticate_digest (digest keys.hmac_sha256 token keys.session_digest_key) t db
          ≡ (value a, db'))
unfolding authenticate
authenticate-value keys token none a db db' h = absurd (ground arith)
authenticate-value keys token (some t) a db db' h =
    elim (Bool-cases (is_canonical_web_credential keys token)) [
      | inl e ↦ (
        t,
        refl,
        e,
        subst
            (λ b.
              (if b
                then authenticate_digest (digest keys.hmac_sha256 token keys.session_digest_key) t
                    db
                else (null, db))
              ≡ (value a, db'))
            e h,
      )
      | inr e ↦ absurd (ground (arith, e, h))
    ]

touch-shown :
    (row : JoinedSession) (d : Text) (now : Date) (a : AuthenticatedWebSession) (db db' : Db)
    → touch row d now db ≡ (value a, db')
    → (a.session_id ≡ row.session.id) × (a.user_id ≡ row.session.user_id)
unfolding touch authenticated_snapshot
touch-shown row d now a db db' h = ground arith

pub admits-when :
    (row : JoinedSession) (now : Date)
    → admits row now ≡ true
    → (row.session.revoked_at ≡ none)
      × (row.user.blocked_at ≡ none)
      × (row.session.authenticated_at ≤ now)
      × (now < row.session.idle_expires_at)
      × (now < row.session.absolute_expires_at)
unfolding admits active_at
admits-when row now h = (ground arith, ground arith, ground arith, ground arith, ground arith)

-- A browser is authenticated only by a canonical token whose digest a stored session has; that
-- session is neither revoked nor past its idle or its absolute expiry, its user is not blocked,
-- and the snapshot that is returned names the two.
pub authenticate_sound :
    (keys : WebKeys) (token : Text) (now : Option Date) (a : AuthenticatedWebSession) (db db' : Db)
    → authenticate keys token now db ≡ (value a, db')
    → (t : Date) × (s : WebSession) × (u : User) × (now ≡ some t)
      × (is_canonical_web_credential keys token ≡ true)
      × Row s db.web_sessions
      × (digest keys.hmac_sha256 token keys.session_digest_key ≡ some s.token_digest)
      × (find (is_user s.user_id) db.users ≡ some u)
      × (s.revoked_at ≡ none)
      × (u.blocked_at ≡ none)
      × (s.authenticated_at ≤ t)
      × (t < s.idle_expires_at)
      × (t < s.absolute_expires_at)
      × (a.session_id ≡ s.id)
      × (a.user_id ≡ s.user_id)
authenticate_sound keys token now a db db' h =
    let (t, given, canonical, h1) = authenticate-value keys token now a db db' h in
    let (d, digested, h2) =
      authenticate_digest-value (digest keys.hmac_sha256 token keys.session_digest_key) t a db db'
        h1 in
    let (row, joined, admitted, h3) =
      authenticate_row-value (join_session (find (has_digest d) db.web_sessions) db) d t a db db'
        h2 in
    let (found, whose) = join_session-some (find (has_digest d) db.web_sessions) db row joined in
    let (live, free, since, idle, absolute) = admits-when row t admitted in
    let (id, user_id) = touch-shown row d t a db db' h3 in
    (
      t,
      row.session,
      row.user,
      given,
      canonical,
      find-Row (has_digest d) db.web_sessions row.session found,
      digested
          ∙ ap some (
              sym (
                (text_eq_iff row.session.token_digest d).0
                  (find-true (has_digest d) db.web_sessions row.session found))),
      whose,
      live,
      free,
      since,
      idle,
      absolute,
      id,
      user_id,
    )

with_identity-revoked :
    (s : WebSession) (o : Option User) (identities : List OauthIdentity) (d : Text) (now : Date)
    (db : Db)
    → is_none s.revoked_at ≡ false
    → authenticate_row (with_identity s o identities) d now db ≡ (null, db)
unfolding with_identity authenticate_row admits
with_identity-revoked s none identities d now db h = refl
with_identity-revoked s (some u) identities d now db h =
    elim (Option-cases (find (λ (i : OauthIdentity). i.user_id == u.id) identities)) [
      | inl e ↦ ground (arith, e, h)
      | inr (i, e) ↦ ground (arith, e, h)
    ]

pub authenticate-revoked :
    (keys : WebKeys) (token d : Text) (s : WebSession) (now : Option Date) (db : Db)
    → digest keys.hmac_sha256 token keys.session_digest_key ≡ some d
    → find (has_digest d) db.web_sessions ≡ some s
    → is_none s.revoked_at ≡ false
    → authenticate keys token now db ≡ (null, db)
unfolding authenticate authenticate_digest join_session
authenticate-revoked keys token d s none db digested found gone = refl
authenticate-revoked keys token d s (some t) db digested found gone =
    elim (Bool-cases (is_canonical_web_credential keys token)) [
      | inl e ↦ rw e (
          rw digested (
            rw found (
              with_identity-revoked s (find (is_user s.user_id) db.users) db.oauth_identities d t db
                gone)))
      | inr e ↦ rw e refl
    ]

-- The row that a digest finds after sessions have been revoked.
pub find-revoked :
    (d : Text) (p : WebSession → Bool) (t : Date) (s : WebSession) (xs : List WebSession)
    → find (has_digest d) xs ≡ some s
    → find (has_digest d) (update p (revoked t) xs) ≡ some (if p s then revoked t s else s)
find-revoked d p t s xs found =
    rw (find-update (has_digest d) p (revoked t) xs (λ y. refl)) (rw found refl)

live_id-revoked :
    (t : Date) (s : WebSession)
    → is_none (if is_live_id s.id s then revoked t s else s).revoked_at ≡ false
live_id-revoked t s = rw (==_refl s.id) (ground arith)

-- After a session that is stored under the digest of a token has been revoked, at whatever time,
-- no request with that token is authenticated, at whatever time, and the request changes nothing.
pub authenticate-revoke :
    (keys : WebKeys) (token d : Text) (s : WebSession) (t : Date) (now : Option Date) (db : Db)
    → digest keys.hmac_sha256 token keys.session_digest_key ≡ some d
    → find (has_digest d) db.web_sessions ≡ some s
    → authenticate keys token now (revoke s.id (some t) db).1 ≡ (null, (revoke s.id (some t) db).1)
unfolding revoke
authenticate-revoke keys token d s t now db digested found =
    authenticate-revoked keys token d (if is_live_id s.id s then revoked t s else s) now
      (record db { web_sessions = update (is_live_id s.id) (revoked t) db.web_sessions }) digested
      (find-revoked d (is_live_id s.id) t s db.web_sessions found) (live_id-revoked t s)
