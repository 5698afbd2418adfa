-- ===== src/WebAuth/Session/Reach.antt =====
-- Everything that happens to the table of sessions, in any order, and the times that a request
-- sees after it.
use agentmesh_mcp.Prelude.{
  ◌+◌, ◌≡◌, ◌≤◌, ◌<◌, refl, sym, ◌&&◌, Option, none, some, [], Text, ◌==◌, find, update, Bool-cases,
  Option-cases, inl, inr,
}
use mathlib.Core.Path.{subst}
use agentmesh_mcp.Schema.{Uuid, Date, Db, WebSession}
use agentmesh_mcp.Transaction.{valid_date}
use agentmesh_mcp.WebAuth.Credential.{
  WebKeys, digest, is_canonical_web_credential, SessionCredential, Outcome, value, null, thrown,
  create_session_credential,
}
use agentmesh_mcp.WebAuth.Session.{
  absolute_lifetime, IssuedWebSession, new_session, insert_session, issue, join_session, admits,
  authenticate_row, has_digest, authenticate_digest, AuthenticatedWebSession, authenticate, revoked,
  is_live_id, revoke, revoke_all_for_user, belongs_to, is_current, keep_on_throw, rotate_with,
  rotate_for_reauthentication, rotate_csrf_with, rotate_csrf,
}
use agentmesh_mcp.WebAuth.Session.Laws.{join_session-some}
use agentmesh_mcp.WebAuth.Session.Bounds.{new_session-IsSession, authenticate-bounds}
use agentmesh_mcp.WebAuth.Session.Table.{
  IsTable, empty-IsTable, update-IsTable, revoked-IsTable, insert_session-IsTable, issue-IsTable,
  touch-IsTable,
}

authenticate_digest-IsTable :
    (o : Option Text) (now : Date) (db : Db)
    → IsTable db.web_sessions
    → IsTable (authenticate_digest o now db).1.web_sessions
unfolding authenticate_digest authenticate_row
authenticate_digest-IsTable none now db good = good
authenticate_digest-IsTable (some d) now db good =
    elim (Option-cases (join_session (find (has_digest d) db.web_sessions) db)) [
      | inl e ↦ rw e good
      | inr (row, e) ↦ rw e (elim (Bool-cases (admits row now)) [
        | inr f ↦ rw f good
        | inl f ↦ rw f (
            touch-IsTable row d now db
              (join_session-some (find (has_digest d) db.web_sessions) db row e).0 good)
      ])
    ]

authenticate-IsTable :
    (keys : WebKeys) (token : Text) (now : Option Date) (db : Db)
    → IsTable db.web_sessions
    → IsTable (authenticate keys token now db).1.web_sessions
unfolding authenticate
authenticate-IsTable keys token none db good = good
authenticate-IsTable keys token (some now) db good =
    elim (Bool-cases (is_canonical_web_credential keys token)) [
      | inl e ↦ rw e (
          authenticate_digest-IsTable (digest keys.hmac_sha256 token keys.session_digest_key) now db
            good)
      | inr e ↦ rw e good
    ]

revoke-IsTable :
    (id : Uuid) (now : Option Date) (db : Db)
    → IsTable db.web_sessions
    → IsTable (revoke id now db).1.web_sessions
unfolding revoke
revoke-IsTable id none db good = good
revoke-IsTable id (some t) db good = revoked-IsTable (is_live_id id) t db.web_sessions good

revoke_all-IsTable :
    (user_id : Uuid) (now : Option Date) (db : Db)
    → IsTable db.web_sessions
    → IsTable (revoke_all_for_user user_id now db).1.web_sessions
unfolding revoke_all_for_user
revoke_all-IsTable user_id none db good = good
revoke_all-IsTable user_id (some t) db good = revoked-IsTable _ t db.web_sessions good

keep_on_throw-IsTable :
    (before : Db) (r : Outcome IssuedWebSession × Db)
    → IsTable before.web_sessions
    → IsTable r.1.web_sessions
    → IsTable (keep_on_throw before r).1.web_sessions
unfolding keep_on_throw
keep_on_throw-IsTable before (thrown, db) good h = good
keep_on_throw-IsTable before (null, db) good h = h
keep_on_throw-IsTable before (value a, db) good h = h

rotate_with-IsTable :
    (current user_id : Uuid) (now : Date) (id : Uuid) (o : Option SessionCredential) (db : Db)
    → IsTable db.web_sessions
    → IsTable (rotate_with current user_id now id o db).1.web_sessions
unfolding rotate_with
rotate_with-IsTable current user_id now id none db good = good
rotate_with-IsTable current user_id now id (some credential) db good =
    let o = find (λ (s : WebSession). s.id == current) db.web_sessions in
    let mine = λ (s : WebSession). is_live_id current s && s.user_id == user_id in
    let row = new_session user_id now credential id in
    let closed = record db { web_sessions = update mine (revoked now) db.web_sessions } in
    elim (Bool-cases
      (valid_date (now + absolute_lifetime) && (belongs_to user_id o && is_current o now db))) [
        | inr e ↦ rw e good
        | inl e ↦ rw e (
            keep_on_throw-IsTable db (insert_session row credential closed) good (
              insert_session-IsTable row credential closed
                (new_session-IsSession user_id now credential id)
                (revoked-IsTable mine now db.web_sessions good)))
      ]

rotate-IsTable :
    (keys : WebKeys) (current user_id : Uuid) (now : Option Date) (session_token csrf_token : Text)
    (id : Uuid) (db : Db)
    → IsTable db.web_sessions
    → IsTable
        (rotate_for_reauthentication keys current user_id now session_token csrf_token id
          db).1.web_sessions
unfolding rotate_for_reauthentication
rotate-IsTable keys current user_id none session_token csrf_token id db good = good
rotate-IsTable keys current user_id (some t) session_token csrf_token id db good =
    rotate_with-IsTable current user_id t id
      (create_session_credential keys session_token csrf_token) db good

rotate_csrf_with-IsTable :
    (id : Uuid) (now : Date) (csrf_token : Text) (o : Option Text) (db : Db)
    → IsTable db.web_sessions
    → IsTable (rotate_csrf_with id now csrf_token o db).1.web_sessions
unfolding rotate_csrf_with
rotate_csrf_with-IsTable id now csrf_token none db good = good
rotate_csrf_with-IsTable id now csrf_token (some d) db good =
    elim (Bool-cases (is_current (find (λ (s : WebSession). s.id == id) db.web_sessions) now db)) [
      | inr e ↦ rw e good
      | inl e ↦ rw e (
          update-IsTable (is_live_id id) (λ s. record s { csrf_digest = d }) db.web_sessions
            (λ s h. record { absolute = h.absolute; idle = h.idle }) (λ s. refl) good)
    ]

rotate_csrf-IsTable :
    (keys : WebKeys) (id : Uuid) (now : Option Date) (csrf_token : Text) (db : Db)
    → IsTable db.web_sessions
    → IsTable (rotate_csrf keys id now csrf_token db).1.web_sessions
unfolding rotate_csrf
rotate_csrf-IsTable keys id none csrf_token db good = good
rotate_csrf-IsTable keys id (some t) csrf_token db good =
    rotate_csrf_with-IsTable id t csrf_token
      (digest keys.hmac_sha256 csrf_token keys.csrf_digest_key) db good

-- One call of the session service, whatever it answers, or a change of the other tables. An
-- operator who blocks a user revokes the user's sessions as `revoke_all_for_user` does.
pub data Step (keys : WebKeys) : Db → Db → Type 0 where
  issues :
      (user_id : Uuid) (now : Option Date) (session_token csrf_token : Text) (id : Uuid) (db : Db)
      → Step keys db (issue keys user_id now session_token csrf_token id db).1
  authenticates :
      (token : Text) (now : Option Date) (db : Db) → Step keys db (authenticate keys token now db).1
  revokes : (id : Uuid) (now : Option Date) (db : Db) → Step keys db (revoke id now db).1
  revokes_all :
      (user_id : Uuid) (now : Option Date) (db : Db)
      → Step keys db (revoke_all_for_user user_id now db).1
  rotates :
      (current user_id : Uuid) (now : Option Date) (session_token csrf_token : Text) (id : Uuid)
      (db : Db)
      → Step keys db
          (rotate_for_reauthentication keys current user_id now session_token csrf_token id db).1
  rotates_csrf :
      (id : Uuid) (now : Option Date) (csrf_token : Text) (db : Db)
      → Step keys db (rotate_csrf keys id now csrf_token db).1
  elsewhere : (db db' : Db) → db'.web_sessions ≡ db.web_sessions → Step keys db db'

pub data Reach (keys : WebKeys) (db : Db) : Db → Type 0 where
  start : Reach keys db db
  next : {d d' : Db} → Reach keys db d → Step keys d d' → Reach keys db d'

Step-IsTable :
    (keys : WebKeys) {db db' : Db}
    → Step keys db db'
    → IsTable db.web_sessions
    → IsTable db'.web_sessions
Step-IsTable keys (issues user_id now session_token csrf_token id db) good =
    issue-IsTable keys user_id now session_token csrf_token id db good
Step-IsTable keys (authenticates token now db) good = authenticate-IsTable keys token now db good
Step-IsTable keys (revokes id now db) good = revoke-IsTable id now db good
Step-IsTable keys (revokes_all user_id now db) good = revoke_all-IsTable user_id now db good
Step-IsTable keys (rotates current user_id now session_token csrf_token id db) good =
    rotate-IsTable keys current user_id now session_token csrf_token id db good
Step-IsTable keys (rotates_csrf id now csrf_token db) good =
    rotate_csrf-IsTable keys id now csrf_token db good
Step-IsTable keys (elsewhere db db' same) good = subst IsTable (sym same) good

Reach-IsTable :
    (keys : WebKeys) (db db' : Db)
    → IsTable db.web_sessions
    → Reach keys db db'
    → IsTable db'.web_sessions
Reach-IsTable keys db db' good start = good
Reach-IsTable keys db db' good (next {d} r s) = Step-IsTable keys s (Reach-IsTable keys db d good r)

-- Start without sessions and let any calls of the session service and any changes of the other
-- tables follow, in any order. A request that is authenticated then comes before the absolute
-- expiry, which is 30 days after the sign-in however often the session has been used, and the idle
-- expiry that it sees is never past it; the table that it leaves keeps these bounds of every
-- session, and its digests unique.
pub authenticate-Reach :
    (keys : WebKeys) (db0 db : Db) (token : Text) (now : Option Date) (a : AuthenticatedWebSession)
    (db' : Db)
    → db0.web_sessions ≡ []
    → Reach keys db0 db
    → authenticate keys token now db ≡ (value a, db')
    → (t : Date) × (now ≡ some t)
      × (t < a.absolute_expires_at)
      × (a.absolute_expires_at ≡ a.authenticated_at + absolute_lifetime)
      × (a.idle_expires_at ≤ a.absolute_expires_at)
      × IsTable db'.web_sessions
authenticate-Reach keys db0 db token now a db' empty reached h =
    let good = Reach-IsTable keys db0 db (subst IsTable (sym empty) empty-IsTable) reached in
    let (absolute, idle, t, given, before) =
      authenticate-bounds keys token now a db db' good.bounds h in
    let left = authenticate-IsTable keys token now db good in
    (
      t,
      given,
      before,
      absolute,
      idle,
      subst (λ (r : Outcome AuthenticatedWebSession × Db). IsTable r.1.web_sessions) h left,
    )
