-- ===== src/Projects/Laws.antt =====
-- Which tokens authenticate a project.
use agentmesh_mcp.Prelude.{
  ◌≡◌, refl, true, false, not, ◌&&◌, Option, none, some, Text, ◌==◌, ==_iff, is_none, Row, find,
  find-Row, find-true, update, arith, and-true, not-true, Bool-cases, inl, inr, if◌then◌else◌,
}
use mathlib.Core.Path.{subst}
use agentmesh_mcp.Schema.{Uuid, Date, Db, Project, ProjectToken, project_auth_invalid}
use agentmesh_mcp.Transaction.{ok, err, code, transaction, transaction-eq-ok}
use agentmesh_mcp.Auth.Uuid.{uuid_value}
use agentmesh_mcp.Auth.ProjectToken.{parse_project_token, verify_project_token}
use agentmesh_mcp.Projects.{
  is_active, has_token_id, is_token, has_project_id, AuthenticatedProject, is_expired, owner_admits,
  used, is_usable, use_token, with_project, authenticate_body, preflight, authenticate_parsed,
  authenticate_project,
}

module _ (sha256 : Text → Text) (token : Text) where
  use_token-eq-ok :
      (now : Option Date) (p : Project) (o : Option ProjectToken) (a : AuthenticatedProject)
      (db db' : Db)
      → use_token sha256 token now p o db ≡ ok (a, db')
      → (t : Date) × (stored : ProjectToken) × (now ≡ some t)
        × (o ≡ some stored)
        × (is_usable sha256 token t stored ≡ true)
        × (owner_admits db.users p.owner_user_id ≡ true)
        × (a.project_id ≡ p.id)
        × (a.connection_token_id ≡ stored.id)
        × (db' ≡ record db {
          project_tokens = update (is_token p.id stored.id) (used t) db.project_tokens;
        })
  unfolding use_token
  use_token-eq-ok now p none a db db' h = absurd (ground arith)
  use_token-eq-ok none p (some stored) a db db' h = absurd (ground arith)
  use_token-eq-ok (some t) p (some stored) a db db' h =
      elim (Bool-cases (is_usable sha256 token t stored && owner_admits db.users p.owner_user_id)) [
        | inr e ↦ absurd (ground (arith, e, h))
        | inl e ↦
            let (usable, owner) =
              and-true (is_usable sha256 token t stored) (owner_admits db.users p.owner_user_id)
                e in
            (
              t,
              stored,
              refl,
              refl,
              usable,
              owner,
              ground (arith, e, h),
              ground (arith, e, h),
              ground (arith, e, h),
            )
      ]

  with_project-eq-ok :
      (now : Option Date) (id : Uuid) (o : Option Project) (a : AuthenticatedProject) (db db' : Db)
      → with_project sha256 token now id o db ≡ ok (a, db')
      → (p : Project) × (o ≡ some p)
        × (is_active p.status ≡ true)
        × (use_token sha256 token now p (find (is_token p.id id) db.project_tokens) db
            ≡ ok (a, db'))
  unfolding with_project
  with_project-eq-ok now id none a db db' h = absurd (ground arith)
  with_project-eq-ok now id (some p) a db db' h = elim (Bool-cases (is_active p.status)) [
    | inr e ↦ absurd (ground (arith, e, h))
    | inl e ↦ (
      p,
      refl,
      e,
      subst
          (λ b.
            (if b
              then use_token sha256 token now p (find (is_token p.id id) db.project_tokens) db
              else err (code project_auth_invalid))
            ≡ ok (a, db'))
          e h,
    )
  ]

  preflight-eq-ok :
      (now : Option Date) (id : Uuid) (o : Option ProjectToken) (a : AuthenticatedProject)
      (db db' : Db)
      → preflight sha256 token now id o db ≡ (ok a, db')
      → (t : ProjectToken) × (o ≡ some t)
        × (authenticate_body sha256 token now t.project_id id db ≡ ok (a, db'))
  unfolding preflight
  preflight-eq-ok now id none a db db' h = absurd (ground arith)
  preflight-eq-ok now id (some t) a db db' h =
      elim (Bool-cases (verify_project_token sha256 token t.token_digest)) [
        | inr e ↦ absurd (ground (arith, e, h))
        | inl e ↦ (
          t,
          refl,
          transaction-eq-ok (authenticate_body sha256 token now t.project_id id) db (
              subst
                (λ b.
                  (if b
                    then transaction (authenticate_body sha256 token now t.project_id id) db
                    else (err (code project_auth_invalid), db))
                  ≡ (ok a, db'))
                e h),
        )
      ]

  authenticate_parsed-eq-ok :
      (now : Option Date) (o : Option Text) (a : AuthenticatedProject) (db db' : Db)
      → authenticate_parsed sha256 token now o db ≡ (ok a, db')
      → (id : Text) × (o ≡ some id)
        × (preflight sha256 token now
              (uuid_value id)
              (find (has_token_id (uuid_value id)) db.project_tokens)
              db
            ≡ (ok a, db'))
  unfolding authenticate_parsed
  authenticate_parsed-eq-ok now none a db db' h = absurd (ground arith)
  authenticate_parsed-eq-ok now (some id) a db db' h = (id, refl, h)

  usable-when :
      (t : Date) (s : ProjectToken)
      → is_usable sha256 token t s ≡ true
      → (s.revoked_at ≡ none)
        × (is_expired t s.expires_at ≡ false)
        × (verify_project_token sha256 token s.token_digest ≡ true)
  unfolding is_usable
  usable-when t s h =
      let (live, rest) = and-true (is_none s.revoked_at) _ h in
      let (fresh, verified) = and-true (not (is_expired t s.expires_at)) _ rest in
      (ground (arith, live), not-true (is_expired t s.expires_at) fresh, verified)

-- A connection is authenticated only where its token is stored for the project that is returned,
-- is neither revoked nor expired and passes verification, the project is active, and its owner, if
-- it has one, is not blocked; the database changes only in that token, which is marked as used at
-- that time.
pub authenticate_project_sound :
    (sha256 : Text → Text) (token : Text) (now : Option Date) (a : AuthenticatedProject)
    (db db' : Db)
    → authenticate_project sha256 token now db ≡ (ok a, db')
    → (t : Date) × (p : Project) × (s : ProjectToken) × (now ≡ some t)
      × Row p db.projects
      × Row s db.project_tokens
      × (a.project_id ≡ p.id)
      × (s.project_id ≡ p.id)
      × (a.connection_token_id ≡ s.id)
      × (is_active p.status ≡ true)
      × (s.revoked_at ≡ none)
      × (is_expired t s.expires_at ≡ false)
      × (verify_project_token sha256 token s.token_digest ≡ true)
      × (owner_admits db.users p.owner_user_id ≡ true)
      × (db'
          ≡ record db { project_tokens = update (is_token p.id s.id) (used t) db.project_tokens })
unfolding authenticate_project authenticate_body
authenticate_project_sound sha256 token now a db db' h =
    let (id, parsed, h1) =
      authenticate_parsed-eq-ok sha256 token now (parse_project_token sha256 token) a db db' h in
    let (t0, first, h2) =
      preflight-eq-ok sha256 token now (uuid_value id)
        (find (has_token_id (uuid_value id)) db.project_tokens) a db db' h1 in
    let (p, found, live, h3) =
      with_project-eq-ok sha256 token now (uuid_value id)
        (find (has_project_id t0.project_id) db.projects) a db db' h2 in
    let (t, s, given, stored, usable, owner, in_p, is_s, after) =
      use_token-eq-ok sha256 token now p (find (is_token p.id (uuid_value id)) db.project_tokens) a
        db db' h3 in
    let (unrevoked, unexpired, verified) = usable-when sha256 token t s usable in
    let (own, _) =
      and-true (s.project_id == p.id) _
        (find-true (is_token p.id (uuid_value id)) db.project_tokens s stored) in
    (
      t,
      p,
      s,
      given,
      find-Row (has_project_id t0.project_id) db.projects p found,
      find-Row (is_token p.id (uuid_value id)) db.project_tokens s stored,
      in_p,
      (==_iff s.project_id p.id).0 own,
      is_s,
      live,
      unrevoked,
      unexpired,
      verified,
      owner,
      after,
    )
