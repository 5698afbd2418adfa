-- ===== src/Control/Connections/Laws.antt =====
-- The secret of a connection is shown once, and a revoked connection is refused.
use agentmesh_mcp.Prelude.{
  ℕ, ◌+◌, ◌*◌, ◌≡◌, refl, sym, ap, true, false, ◌&&◌, Option, none, some, List, [], ◌∷◌, ◌++◌, Text,
  ==_refl, leb, find, find-append, update, All, All-Row, Bool-cases, inl, inr, arith,
}
use mathlib.Core.Path.{subst}
use agentmesh_mcp.Schema.{Uuid, Date, Db, Project, ProjectToken}
use agentmesh_mcp.Transaction.{ok, transaction, valid_date}
use agentmesh_mcp.Auth.ProjectToken.{CreatedProjectToken, create_project_token}
use agentmesh_mcp.Audit.{is_v4}
use agentmesh_mcp.Projects.{is_active, AuthenticatedProject, authenticate_project}
use agentmesh_mcp.Projects.Laws.{authenticate_project_sound}
use agentmesh_mcp.Control.Connections.{
  PublicControlConnection, IssuedControlConnection, IssueConnectionInput, RevokeConnectionInput,
  day, max_token_ttl_days, normalized_label, public_connection, issued_connection, now_and_expiry,
  lock_found, lock_owned_project, has_issue_key, new_connection, issue_new, issue_body,
  issue_labelled, issue, is_revocable, to_revoked, revoke,
}
use agentmesh_mcp.Control.Connections.Cases.{
  Locked, Issued, again, stored, issue_labelled-Issued, revoke-Revocation,
}

-- A call with a key that has been used.
issue-found :
    (sha256 : Text → Text) (ttl : ℕ) (input : IssueConnectionInput) (token_id : Uuid)
    (secret label : Text) (now at : Date) (p : Project) (t : ProjectToken) (db : Db)
    → normalized_label input.label ≡ some label
    → is_v4 input.owner_user_id && (is_v4 input.project_id && is_v4 input.idempotency_key) ≡ true
    → Locked input.owner_user_id input.project_id p db
    → is_active p.status ≡ true
    → (leb 1 ttl && leb ttl max_token_ttl_days) && valid_date (now + ttl * day) ≡ true
    → find (has_issue_key input.project_id input.idempotency_key) db.project_tokens ≡ some t
    → issue sha256 ttl input token_id secret (some now) at db
      ≡ (ok (issued_connection t now none), db)
unfolding issue issue_labelled issue_body lock_owned_project lock_found now_and_expiry issue_new
    transaction
issue-found sha256 ttl input token_id secret label now at p t db named valid locked live timely
      found =
    rw named (rw valid (rw locked.found (rw locked.free (rw live (rw timely (rw found refl))))))

find-issued :
    (input : IssueConnectionInput) (label : Text) (token : CreatedProjectToken)
    (now expires_at : Date) (tokens : List ProjectToken)
    → find (has_issue_key input.project_id input.idempotency_key) tokens ≡ none
    → find
        (has_issue_key input.project_id input.idempotency_key)
        (tokens ++ new_connection input label token now expires_at ∷ [])
      ≡ some (new_connection input label token now expires_at)
unfolding find
find-issued input label token now expires_at tokens unused =
    rw
      (find-append (has_issue_key input.project_id input.idempotency_key) tokens
        (new_connection input label token now expires_at ∷ []))
      (rw unused (rw (==_refl input.project_id) (rw (==_refl input.idempotency_key) refl)))

-- The row that has the key after a successful call.
Issued-found :
    (input : IssueConnectionInput) (label : Text) (token : CreatedProjectToken)
    (now expires_at : Date) (p : Project) (r : IssuedControlConnection) (db db' : Db)
    → Locked input.owner_user_id input.project_id p db
    → Issued input label token now expires_at r db db'
    → (t : ProjectToken) × (r.connection ≡ public_connection t now)
      × (find (has_issue_key input.project_id input.idempotency_key) db'.project_tokens ≡ some t)
      × Locked input.owner_user_id input.project_id p db'
Issued-found input label token now expires_at p r db db' locked (again t found shown same) =
    (t, ap (λ (x : IssuedControlConnection). x.connection) shown, rw same found, rw same locked)
Issued-found input label token now expires_at p r db db' locked
      (stored unused free shown added projects users) =
    (
      new_connection input label token now expires_at,
      ap (λ (x : IssuedControlConnection). x.connection) shown,
      rw added (find-issued input label token now expires_at db.project_tokens unused),
      record { found = rw projects locked.found; free = rw users locked.free },
    )

-- The secret of a connection is shown by the call that stores it only: after a call that succeeds,
-- every further call with the same key, of the same owner and project, with any valid label and
-- while the clock and the lifetime are valid, returns the same connection without a secret and
-- writes nothing.
pub issue_once :
    (sha256 : Text → Text) (ttl : ℕ) (input : IssueConnectionInput) (label2 name2 : Text)
    (id id2 : Uuid) (secret secret2 : Text) (clock : Option Date) (now2 at at2 : Date)
    (r : IssuedControlConnection) (db db' : Db)
    → issue sha256 ttl input id secret clock at db ≡ (ok r, db')
    → normalized_label label2 ≡ some name2
    → (leb 1 ttl && leb ttl max_token_ttl_days) && valid_date (now2 + ttl * day) ≡ true
    → (r2 : IssuedControlConnection) × (issue sha256 ttl
          (record input { label = label2 })
          id2
          secret2
          (some now2)
          at2
          db'
        ≡ (ok r2, db'))
      × (r2.secret ≡ none)
      × (r2.connection.id ≡ r.connection.id)
unfolding issue public_connection
issue_once sha256 ttl input label2 name2 id id2 secret secret2 clock now2 at at2 r db db' h named
      timely =
    let (label, p, now, _, valid, locked, live, given, issued) =
      issue_labelled-Issued ttl input (create_project_token sha256 id secret) clock at
        (normalized_label input.label) r db db' h in
    let (t, shown, found, locked') =
      Issued-found input label (create_project_token sha256 id secret) now (now + ttl * day) p r db
        db' locked issued in
    (
      issued_connection t now2 none,
      issue-found sha256 ttl (record input { label = label2 }) id2 secret2 name2 now2 at2 p t db'
          named valid locked' live timely found,
      refl,
      sym (ap (λ (c : PublicControlConnection). c.id) shown),
    )

revoked_rows :
    (p id : Uuid) (now : Date) (tokens : List ProjectToken)
    → All (λ t. is_revocable p id t ≡ false) (update (is_revocable p id) (to_revoked now) tokens)
unfolding update
revoked_rows p id now [] = tt
revoked_rows p id now (t ∷ ts) = elim (Bool-cases (is_revocable p id t)) [
  | inl e ↦ (rw e (ground arith), revoked_rows p id now ts)
  | inr e ↦ (rw e e, revoked_rows p id now ts)
]

-- After the owner has revoked a connection, no token is authenticated as that connection of that
-- project, at any time.
pub authenticate_project-revoke :
    (sha256 : Text → Text) (input : RevokeConnectionInput) (clock : Option Date) (at : Date)
    (r : PublicControlConnection) (token : Text) (now : Option Date) (a : AuthenticatedProject)
    (db db' db'' : Db)
    → revoke input clock at db ≡ (ok r, db')
    → authenticate_project sha256 token now db' ≡ (ok a, db'')
    → ¬ ((a.project_id ≡ input.project_id) × (a.connection_token_id ≡ input.connection_id))
authenticate_project-revoke sha256 input clock at r token now a db db' db'' h k
      (project, connection) =
    let done = revoke-Revocation input at clock r db db' h in
    let (t, p, s, given, in_p, in_s, shown, own, named, _, live, _, _, _, _) =
      authenticate_project_sound sha256 token now a db' db'' k in
    let left =
      subst (All (λ x. is_revocable input.project_id input.connection_id x ≡ false))
        (sym done.changed)
        (revoked_rows input.project_id input.connection_id done.at_time db.project_tokens) in
    let closed =
      All-Row (λ x. is_revocable input.project_id input.connection_id x ≡ false) left in_s in
    ground (arith, closed, own, shown, project, named, connection, live)
