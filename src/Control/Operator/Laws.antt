-- ===== src/Control/Operator/Laws.antt =====
-- What blocking and unblocking a user does to the user's sessions.
use agentmesh_mcp.Prelude.{
  ◌≡◌, ◌≢◌, refl, sym, ◌∙◌, false, not, ◌&&◌, Option, none, some, List, [], ◌∷◌, Text, text_eq,
  ==_refl, is_none, is_some, find, update, if◌then◌else◌, Bool-cases, inl, inr, arith,
}
use mathlib.Core.Path.{subst}
use agentmesh_mcp.Schema.{Uuid, Date, Db, User, WebSession, user_blocked, user_unblocked}
use agentmesh_mcp.Transaction.{
  ok, continue-eq-ok, ok_inj, require, require-eq-ok, transaction-eq-ok, call-eq-ok,
}
use agentmesh_mcp.Audit.{record_audit, record_audit-eq-ok}
use agentmesh_mcp.Auth.Uuid.{uuid_value}
use agentmesh_mcp.Auth.Pattern.{matches, uuid_v4_pattern}
use agentmesh_mcp.WebAuth.Credential.{WebKeys, digest, value, null}
use agentmesh_mcp.WebAuth.Session.{
  is_user, revoked, has_digest, AuthenticatedWebSession, authenticate,
}
use agentmesh_mcp.WebAuth.Session.Laws.{authenticate_sound, authenticate-revoked, find-revoked}
use agentmesh_mcp.Control.Operator.{
  user_state_conflict, UserMutationInput, IdentifiedUser, load_mutation_user, operator_event,
  to_blocked, to_unblocked, is_unblocked_user, is_open_session, block_in, unblock_in, with_user,
  block_found, block_body, block_at, block_user, unblock_found, unblock_body, unblock_at,
  unblock_user,
}

block_found-eq-ok :
    (input : UserMutationInput) (now at : Date) (o : Option IdentifiedUser) (db : Db)
    (a : IdentifiedUser) (db' : Db)
    → block_found input now at o db ≡ ok (a, db')
    → (db'.users ≡ (block_in (uuid_value input.target_user_id) now db).users)
      × (db'.web_sessions ≡ (block_in (uuid_value input.target_user_id) now db).web_sessions)
unfolding block_found
block_found-eq-ok input now at none db a db' h = absurd (ground arith)
block_found-eq-ok input now at (some c) db a db' h =
    let (u1, db1, h1, k1) =
      continue-eq-ok (require (is_none c.user.blocked_at) user_state_conflict db) _ h in
    let (_, same) = require-eq-ok (is_none c.user.blocked_at) user_state_conflict db u1 db1 h1 in
    let event =
      operator_event user_blocked (some (uuid_value input.target_user_id))
        (uuid_value input.operator_user_id) input.request_id in
    let (u2, db2, h2, k2) =
      continue-eq-ok (record_audit event at (block_in (uuid_value input.target_user_id) now db1)) _
        k1 in
    let logged =
      record_audit-eq-ok event at (block_in (uuid_value input.target_user_id) now db1) u2 db2 h2 in
    let (_, end) = ok_inj (with_user (to_blocked now) c) a db2 db' k2 in
    (rw (← end) (rw (← logged) (rw (← same) refl)), rw (← end) (rw (← logged) (rw (← same) refl)))

block_at-eq-ok :
    (input : UserMutationInput) (now : Option Date) (at : Date) (db : Db) (a : IdentifiedUser)
    (db' : Db)
    → block_at input now at db ≡ (ok a, db')
    → (t : Date) × (db'.users ≡ (block_in (uuid_value input.target_user_id) t db).users)
      × (db'.web_sessions ≡ (block_in (uuid_value input.target_user_id) t db).web_sessions)
unfolding block_at block_body
block_at-eq-ok input none at db a db' h = absurd (ground arith)
block_at-eq-ok input (some t) at db a db' h =
    let (users, sessions) =
      block_found-eq-ok input t at (load_mutation_user (uuid_value input.target_user_id) db) db a
        db' (transaction-eq-ok (block_body input t at) db h) in
    (t, users, sessions)

block_user-eq-ok :
    (input : UserMutationInput) (now : Option Date) (at : Date) (db : Db) (a : IdentifiedUser)
    (db' : Db)
    → block_user input now at db ≡ (ok a, db')
    → (t : Date) × (db'.users ≡ (block_in (uuid_value input.target_user_id) t db).users)
      × (db'.web_sessions ≡ (block_in (uuid_value input.target_user_id) t db).web_sessions)
unfolding block_user
block_user-eq-ok input now at db a db' h =
    let (_, h1) =
      call-eq-ok
        (matches uuid_v4_pattern input.operator_user_id
          && matches uuid_v4_pattern input.target_user_id)
        _ _ db h in
    let (_, h2) =
      call-eq-ok (not (text_eq input.operator_user_id input.target_user_id)) _ _ db h1 in
    block_at-eq-ok input now at db a db' h2

unblock_found-eq-ok :
    (input : UserMutationInput) (now at : Date) (o : Option IdentifiedUser) (db : Db)
    (a : IdentifiedUser) (db' : Db)
    → unblock_found input now at o db ≡ ok (a, db')
    → db'.web_sessions ≡ db.web_sessions
unfolding unblock_found
unblock_found-eq-ok input now at none db a db' h = absurd (ground arith)
unblock_found-eq-ok input now at (some c) db a db' h =
    let (u1, db1, h1, k1) =
      continue-eq-ok (require (is_some c.user.blocked_at) user_state_conflict db) _ h in
    let (_, same) = require-eq-ok (is_some c.user.blocked_at) user_state_conflict db u1 db1 h1 in
    let event =
      operator_event user_unblocked (some (uuid_value input.target_user_id))
        (uuid_value input.operator_user_id) input.request_id in
    let (u2, db2, h2, k2) =
      continue-eq-ok (record_audit event at (unblock_in (uuid_value input.target_user_id) now db1))
        _ k1 in
    let logged =
      record_audit-eq-ok event at (unblock_in (uuid_value input.target_user_id) now db1) u2 db2
        h2 in
    let (_, end) = ok_inj (with_user (to_unblocked now) c) a db2 db' k2 in
    rw (← end) (rw (← logged) (rw (← same) refl))

unblock_at-eq-ok :
    (input : UserMutationInput) (now : Option Date) (at : Date) (db : Db) (a : IdentifiedUser)
    (db' : Db)
    → unblock_at input now at db ≡ (ok a, db')
    → db'.web_sessions ≡ db.web_sessions
unfolding unblock_at unblock_body
unblock_at-eq-ok input none at db a db' h = absurd (ground arith)
unblock_at-eq-ok input (some t) at db a db' h =
    unblock_found-eq-ok input t at (load_mutation_user (uuid_value input.target_user_id) db) db a
      db' (transaction-eq-ok (unblock_body input t at) db h)

unblock_user-eq-ok :
    (input : UserMutationInput) (now : Option Date) (at : Date) (db : Db) (a : IdentifiedUser)
    (db' : Db)
    → unblock_user input now at db ≡ (ok a, db')
    → db'.web_sessions ≡ db.web_sessions
unfolding unblock_user
unblock_user-eq-ok input now at db a db' h =
    let (_, h1) =
      call-eq-ok
        (matches uuid_v4_pattern input.operator_user_id
          && matches uuid_v4_pattern input.target_user_id)
        _ _ db h in
    unblock_at-eq-ok input now at db a db' h1

-- The user who was blocked, wherever the table gives one.
found-blocked :
    (id : Uuid) (now : Date) (users : List User) (u : User)
    → find (is_user id) (update (is_unblocked_user id) (to_blocked now) users) ≡ some u
    → is_none u.blocked_at ≡ false
unfolding find update
found-blocked id now [] u h = absurd (ground arith)
found-blocked id now (v ∷ users) u h =
    let rest = found-blocked id now users u in
    elim (Bool-cases (is_user id v)) [
      | inl e ↦ elim (Bool-cases (is_none v.blocked_at)) [
        | inl k ↦ ground (arith, e, k, h)
        | inr k ↦ ground (arith, e, k, h)
      ]
      | inr e ↦ ground (arith, e, rest, h)
    ]

-- While a user is blocked, right after the call, no request of any browser is authenticated as
-- that user, whatever session it has and at whatever time.
pub authenticate-block_user :
    (keys : WebKeys) (input : UserMutationInput) (now : Option Date) (at : Date) (db : Db)
    (blocked : IdentifiedUser) (db' : Db) (token : Text) (later : Option Date)
    (a : AuthenticatedWebSession) (db'' : Db)
    → block_user input now at db ≡ (ok blocked, db')
    → authenticate keys token later db' ≡ (value a, db'')
    → a.user_id ≢ uuid_value input.target_user_id
authenticate-block_user keys input now at db blocked db' token later a db'' h k same =
    let (t, users, _) = block_user-eq-ok input now at db blocked db' h in
    let (_, s, u, _, _, _, _, found, _, free, _, _, _, _, whose) =
      authenticate_sound keys token later a db' db'' k in
    let target : s.user_id ≡ uuid_value input.target_user_id = sym whose ∙ same in
    let there = subst (λ (x : Uuid). find (is_user x) db'.users ≡ some u) target found in
    let there2 =
      subst (λ (x : List User). find (is_user (uuid_value input.target_user_id)) x ≡ some u) users
        there in
    let gone = found-blocked (uuid_value input.target_user_id) t db.users u there2 in
    ground (arith, gone, free)

open_session-revoked :
    (t : Date) (id : Uuid) (s : WebSession)
    → s.user_id ≡ id
    → is_none (if is_open_session id s then revoked t s else s).revoked_at ≡ false
open_session-revoked t id s own = elim (Bool-cases (is_none s.revoked_at)) [
  | inl e ↦ rw own (rw (==_refl id) (rw e (ground arith)))
  | inr e ↦ rw own (rw (==_refl id) (rw e e))
]

-- A session of a user that was there when the user was blocked stays dead: after the user has
-- been unblocked, no request with its token is authenticated, at whatever time, and the request
-- changes nothing.
pub authenticate-unblock_user :
    (keys : WebKeys) (input input2 : UserMutationInput) (now now2 : Option Date) (at at2 : Date)
    (db db' db'' : Db) (a a2 : IdentifiedUser) (token d : Text) (s : WebSession)
    (later : Option Date)
    → block_user input now at db ≡ (ok a, db')
    → unblock_user input2 now2 at2 db' ≡ (ok a2, db'')
    → digest keys.hmac_sha256 token keys.session_digest_key ≡ some d
    → find (has_digest d) db.web_sessions ≡ some s
    → s.user_id ≡ uuid_value input.target_user_id
    → authenticate keys token later db'' ≡ (null, db'')
authenticate-unblock_user keys input input2 now now2 at at2 db db' db'' a a2 token d s later h k
      digested found own =
    let (t, _, sessions) = block_user-eq-ok input now at db a db' h in
    let kept = unblock_user-eq-ok input2 now2 at2 db' a2 db'' k in
    let p = is_open_session (uuid_value input.target_user_id) in
    authenticate-revoked keys token d (if p s then revoked t s else s) later db'' digested
      (subst
        (λ (x : List WebSession). find (has_digest d) x ≡ some (if p s then revoked t s else s))
        (sym (kept ∙ sessions)) (find-revoked d p t s db.web_sessions found))
      (open_session-revoked t (uuid_value input.target_user_id) s own)
