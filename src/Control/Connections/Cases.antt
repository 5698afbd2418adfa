-- ===== src/Control/Connections/Cases.antt =====
-- What the transactions on connections read and write when they succeed.
use agentmesh_mcp.Prelude.{
  ℕ, ◌+◌, ◌*◌, ◌≡◌, refl, sym, ap, ◌∙◌, true, ◌&&◌, Option, none, some, [], ◌∷◌, ◌++◌, Text, leb,
  is_none, is_some, find, update, Bool-cases, inl, inr, arith,
}
use mathlib.Core.Path.{subst}
use agentmesh_mcp.Schema.{Uuid, Date, Db, Project, ProjectToken}
use agentmesh_mcp.Transaction.{
  Result, ok, code, continue-eq-ok, ok_inj, require, require-eq-ok, transaction, transaction-eq-ok,
  valid_date, guard-eq-ok, call-eq-ok,
}
use agentmesh_mcp.Auth.ProjectToken.{CreatedProjectToken}
use agentmesh_mcp.Audit.{record_audit, record_audit-eq-ok, is_v4}
use agentmesh_mcp.Projects.{is_active, has_token_id, is_token}
use agentmesh_mcp.Control.Membership.{is_owned}
use agentmesh_mcp.Control.Connections.{
  ConnectionControlErrorCode, invalid_request, control_unavailable, project_not_found,
  project_state_conflict, connection_state_conflict, PublicControlConnection,
  IssuedControlConnection, IssueConnectionInput, RevokeConnectionInput, day, max_token_ttl_days,
  public_connection, issued_connection, now_and_expiry, owner_free, lock_found, lock_owned_project,
  has_issue_key, new_connection, insert_token, issued_event, finish_issue, issue_new, issue_body,
  issue_labelled, is_revocable, to_revoked, revoked_event, revoke_at, revoke_found, revoke_body,
  revoke,
}

-- The locked project of a call that goes on: it is unchanged, and its owner is not blocked.
pub record Locked (owner_id project_id : Uuid) (p : Project) (db : Db) : Type 0 where
  pub found : find (is_owned project_id owner_id) db.projects ≡ some p
  pub free : owner_free owner_id db ≡ true

lock_found-Locked :
    (owner_id project_id : Uuid) (o : Option Project) (p : Project) (db db' : Db)
    → find (is_owned project_id owner_id) db.projects ≡ o
    → lock_found owner_id o db ≡ ok (p, db')
    → Locked owner_id project_id p db × (db' ≡ db)
unfolding lock_found
lock_found-Locked owner_id project_id none p db db' found h = absurd (ground arith)
lock_found-Locked owner_id project_id (some q) p db db' found h =
    let (u1, db1, h1, k1) =
      continue-eq-ok (require (owner_free owner_id db) project_not_found db) _ h in
    let (free, same) = require-eq-ok (owner_free owner_id db) project_not_found db u1 db1 h1 in
    let (shown, end) = ok_inj q p db1 db' k1 in
    (record { found = found ∙ ap some shown; free = free }, sym end ∙ sym same)

lock_owned_project-Locked :
    (owner_id project_id : Uuid) (p : Project) (db db' : Db)
    → lock_owned_project owner_id project_id db ≡ ok (p, db')
    → Locked owner_id project_id p db × (db' ≡ db)
unfolding lock_owned_project
lock_owned_project-Locked owner_id project_id p db db' h =
    lock_found-Locked owner_id project_id (find (is_owned project_id owner_id) db.projects) p db db'
      refl h

now_and_expiry-eq-ok :
    (ttl : ℕ) (clock : Option Date) (now expires_at : Date) (db db' : Db)
    → now_and_expiry ttl clock db ≡ ok ((now, expires_at), db')
    → (clock ≡ some now) × (expires_at ≡ now + ttl * day) × (db' ≡ db)
unfolding now_and_expiry
now_and_expiry-eq-ok ttl none now expires_at db db' h = absurd (ground arith)
now_and_expiry-eq-ok ttl (some t) now expires_at db db' h =
    let (_, good) =
      guard-eq-ok ((leb 1 ttl && leb ttl max_token_ttl_days) && valid_date (t + ttl * day))
        (now_and_later t) (code control_unavailable) h in
    (cc, cc, cc)
  where
    now_and_later : Date → Result ConnectionControlErrorCode ((Date × Date) × Db)
    now_and_later t = ok ((t, t + ttl * day), db)

-- The two ways in which an issue succeeds: the key was used before, or a new token was stored.
pub data Issued (input : IssueConnectionInput) (label : Text) (token : CreatedProjectToken)
    (now expires_at : Date) (r : IssuedControlConnection) (db db' : Db) : Type 0 where
  again :
      (t : ProjectToken)
      → find (has_issue_key input.project_id input.idempotency_key) db.project_tokens ≡ some t
      → r ≡ issued_connection t now none
      → db' ≡ db
      → Issued input label token now expires_at r db db'
  stored :
      find (has_issue_key input.project_id input.idempotency_key) db.project_tokens ≡ none
      → find (has_token_id token.token_id) db.project_tokens ≡ none
      → r
        ≡ issued_connection (new_connection input label token now expires_at) now (some token.token)
      → db'.project_tokens
        ≡ db.project_tokens ++ new_connection input label token now expires_at ∷ []
      → db'.projects ≡ db.projects
      → db'.users ≡ db.users
      → Issued input label token now expires_at r db db'

module _ (input : IssueConnectionInput) (label : Text) (token : CreatedProjectToken)
    (now expires_at at : Date) where
  finish_issue-eq-ok :
      (t : ProjectToken) (r : IssuedControlConnection) (db db' : Db)
      → finish_issue input token.token now at (some t) db ≡ ok (r, db')
      → (r ≡ issued_connection t now (some token.token))
        × (db'.project_tokens ≡ db.project_tokens)
        × (db'.projects ≡ db.projects)
        × (db'.users ≡ db.users)
  unfolding finish_issue
  finish_issue-eq-ok t r db db' h =
      let (u1, db1, h1, k1) =
        continue-eq-ok (record_audit (issued_event input t.label) at db) _ h in
      let logged = record_audit-eq-ok (issued_event input t.label) at db u1 db1 h1 in
      let (shown, end) = ok_inj (issued_connection t now (some token.token)) r db1 db' k1 in
      (
        sym shown,
        rw (← end) (rw (← logged) refl),
        rw (← end) (rw (← logged) refl),
        rw (← end) (rw (← logged) refl),
      )

  insert_token-eq-ok :
      (t : ProjectToken) (key : Uuid) (o : Option ProjectToken) (db db' : Db)
      → find (has_issue_key t.project_id key) db.project_tokens ≡ none
      → insert_token t key db ≡ ok (o, db')
      → (o ≡ some t)
        × (find (has_token_id t.id) db.project_tokens ≡ none)
        × (record db { project_tokens = db.project_tokens ++ t ∷ [] } ≡ db')
  unfolding insert_token
  insert_token-eq-ok t key o db db' unused h =
      elim (Bool-cases (is_some (find (has_token_id t.id) db.project_tokens))) [
        | inl e ↦ absurd (ground (arith, e, h, unused))
        | inr e ↦ (ground (arith, e, h, unused), ground (arith, e), ground (arith, e, h, unused))
      ]

  issue_new-Issued :
      (o : Option ProjectToken) (r : IssuedControlConnection) (db db' : Db)
      → find (has_issue_key input.project_id input.idempotency_key) db.project_tokens ≡ o
      → issue_new input label token now expires_at at o db ≡ ok (r, db')
      → Issued input label token now expires_at r db db'
  unfolding issue_new
  issue_new-Issued (some t) r db db' found h =
      let (shown, same) = ok_inj (issued_connection t now none) r db db' h in
      again t found (sym shown) (sym same)
  issue_new-Issued none r db db' unused h =
      let t = new_connection input label token now expires_at in
      let (o, db1, h1, k1) = continue-eq-ok (insert_token t input.idempotency_key db) _ h in
      let (inserted, free, added) = insert_token-eq-ok t input.idempotency_key o db db1 unused h1 in
      let (shown, tokens, projects, users) =
        finish_issue-eq-ok t r db1 db'
          (subst (λ x. finish_issue input token.token now at x db1 ≡ ok (r, db')) inserted k1) in
      stored unused free shown (tokens ∙ rw (← added) refl) (projects ∙ rw (← added) refl)
        (users ∙ rw (← added) refl)

module _ (ttl : ℕ) (input : IssueConnectionInput) (token : CreatedProjectToken)
    (clock : Option Date) (at : Date) where
  issue_body-Issued :
      (label : Text) (r : IssuedControlConnection) (db db' : Db)
      → issue_body ttl input label token clock at db ≡ ok (r, db')
      → (p : Project) × (now : Date) × Locked input.owner_user_id input.project_id p db
        × (is_active p.status ≡ true)
        × (clock ≡ some now)
        × Issued input label token now (now + ttl * day) r db db'
  unfolding issue_body
  issue_body-Issued label r db db' h =
      let (p, db1, h1, k1) =
        continue-eq-ok (lock_owned_project input.owner_user_id input.project_id db) _ h in
      let (locked, same1) =
        lock_owned_project-Locked input.owner_user_id input.project_id p db db1 h1 in
      let (u2, db2, h2, k2) =
        continue-eq-ok (require (is_active p.status) project_state_conflict db1) _ k1 in
      let (live, same2) = require-eq-ok (is_active p.status) project_state_conflict db1 u2 db2 h2 in
      let ((now, expires_at), db3, h3, k3) = continue-eq-ok (now_and_expiry ttl clock db2) _ k2 in
      let (given, until, same3) = now_and_expiry-eq-ok ttl clock now expires_at db2 db3 h3 in
      let all : db3 ≡ db = same3 ∙ sym same2 ∙ same1 in
      (
        p,
        now,
        locked,
        live,
        given,
        subst (λ e. Issued input label token now e r db db') until
            (subst (λ d. Issued input label token now expires_at r d db') all
              (issue_new-Issued input label token now expires_at at
                (find (has_issue_key input.project_id input.idempotency_key) db3.project_tokens) r
                db3 db' refl k3)),
      )

  pub issue_labelled-Issued :
      (o : Option Text) (r : IssuedControlConnection) (db db' : Db)
      → issue_labelled ttl input token clock at o db ≡ (ok r, db')
      → (label : Text) × (p : Project) × (now : Date) × (o ≡ some label)
        × (is_v4 input.owner_user_id && (is_v4 input.project_id && is_v4 input.idempotency_key)
            ≡ true)
        × Locked input.owner_user_id input.project_id p db
        × (is_active p.status ≡ true)
        × (clock ≡ some now)
        × Issued input label token now (now + ttl * day) r db db'
  unfolding issue_labelled
  issue_labelled-Issued none r db db' h = absurd (ground arith)
  issue_labelled-Issued (some label) r db db' h =
      let (valid, done) =
        call-eq-ok
          (is_v4 input.owner_user_id && (is_v4 input.project_id && is_v4 input.idempotency_key))
          (transaction (issue_body ttl input label token clock at) db) (code invalid_request) db
          h in
      let (p, now, locked, live, given, issued) =
        issue_body-Issued label r db db'
          (transaction-eq-ok (issue_body ttl input label token clock at) db done) in
      (label, p, now, refl, valid, locked, live, given, issued)

-- A revocation that succeeds.
pub record Revocation (input : RevokeConnectionInput) (r : PublicControlConnection) (db db' : Db)
    : Type 0 where
  pub at_time : Date
  pub token : ProjectToken
  pub found : find (is_token input.project_id input.connection_id) db.project_tokens ≡ some token
  pub live : is_none token.revoked_at ≡ true
  pub shown : r ≡ public_connection (to_revoked at_time token) at_time
  pub changed :
      db'.project_tokens
      ≡ update
          (is_revocable input.project_id input.connection_id)
          (to_revoked at_time)
          db.project_tokens

module _ (input : RevokeConnectionInput) (at : Date) where
  revoke_at-eq-ok :
      (t : ProjectToken) (clock : Option Date) (r : PublicControlConnection) (db db' : Db)
      → revoke_at input t at clock db ≡ ok (r, db')
      → (now : Date) × (r ≡ public_connection (to_revoked now t) now)
        × (db'.project_tokens
            ≡ update
                (is_revocable input.project_id input.connection_id)
                (to_revoked now)
                db.project_tokens)
  unfolding revoke_at
  revoke_at-eq-ok t none r db db' h = absurd (ground arith)
  revoke_at-eq-ok t (some now) r db db' h =
      let db1 = record db {
        project_tokens =
            update (is_revocable input.project_id input.connection_id) (to_revoked now)
              db.project_tokens;
      } in
      let (u2, db2, h2, k2) =
        continue-eq-ok (record_audit (revoked_event input t.label) at db1) _ h in
      let logged = record_audit-eq-ok (revoked_event input t.label) at db1 u2 db2 h2 in
      let (shown, end) = ok_inj (public_connection (to_revoked now t) now) r db2 db' k2 in
      (now, sym shown, rw (← end) (rw (← logged) refl))

  revoke_found-Revocation :
      (clock : Option Date) (o : Option ProjectToken) (r : PublicControlConnection) (db db' : Db)
      → find (is_token input.project_id input.connection_id) db.project_tokens ≡ o
      → revoke_found input clock at o db ≡ ok (r, db')
      → Revocation input r db db'
  unfolding revoke_found
  revoke_found-Revocation clock none r db db' found h = absurd (ground arith)
  revoke_found-Revocation clock (some t) r db db' found h =
      let (u1, db1, h1, k1) =
        continue-eq-ok (require (is_none t.revoked_at) connection_state_conflict db) _ h in
      let (live, same) =
        require-eq-ok (is_none t.revoked_at) connection_state_conflict db u1 db1 h1 in
      let (now, shown, changed) = revoke_at-eq-ok t clock r db1 db' k1 in
      record {
        at_time = now;
        token = t;
        found = found;
        live = live;
        shown = shown;
        changed =
            changed
            ∙ ap
                (λ (d : Db).
                  update (is_revocable input.project_id input.connection_id) (to_revoked now)
                    d.project_tokens)
                (sym same);
      }

  pub revoke-Revocation :
      (clock : Option Date) (r : PublicControlConnection) (db db' : Db)
      → revoke input clock at db ≡ (ok r, db')
      → Revocation input r db db'
  unfolding revoke revoke_body
  revoke-Revocation clock r db db' h =
      let (valid, done) =
        call-eq-ok
          (is_v4 input.owner_user_id && (is_v4 input.project_id && is_v4 input.connection_id))
          (transaction (revoke_body input clock at) db) (code invalid_request) db h in
      let (p, db1, h1, k1) =
        continue-eq-ok (lock_owned_project input.owner_user_id input.project_id db) _
          (transaction-eq-ok (revoke_body input clock at) db done) in
      let (locked, same) =
        lock_owned_project-Locked input.owner_user_id input.project_id p db db1 h1 in
      subst (λ d. Revocation input r d db') same
        (revoke_found-Revocation clock
          (find (is_token input.project_id input.connection_id) db1.project_tokens) r db1 db' refl
          k1)
