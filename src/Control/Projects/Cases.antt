-- ===== src/Control/Projects/Cases.antt =====
-- What the transactions on projects read and write when they succeed.
use agentmesh_mcp.Prelude.{
  ℕ, ◌≡◌, refl, sym, Bool, true, not, ◌&&◌, Option, none, some, [], ◌∷◌, ◌++◌, ◌==◌, is_some, find,
  update, Bool-cases, inl, inr, arith,
}
use mathlib.Core.Path.{subst}
use agentmesh_mcp.Schema.{Uuid, Date, Db, Project, Membership}
use agentmesh_mcp.Transaction.{
  ok, continue-eq-ok, ok_inj, require, require-eq-ok, transaction-eq-ok,
}
use agentmesh_mcp.Audit.{record_audit, record_audit-eq-ok}
use agentmesh_mcp.Projects.{is_active, has_project_id}
use agentmesh_mcp.Control.Membership.{is_owned, is_member}
use agentmesh_mcp.Control.Projects.{
  project_not_found, project_limit_reached, project_state_conflict, PublicControlProject,
  public_project, CreateProjectInput, OwnedProjectInput, lock_owner, below_limit, enforce_limit,
  has_key, new_project, owner_membership, insert_project, insert_membership, created_event,
  create_new, create_or_reuse, create_body, create, is_owned_active, is_owned_archived, to_archived,
  to_active, archived_event, restored_event, update_projects, archive_found, archive_body, archive,
  restore_found, restore_body, restore,
}

-- The two ways in which a creation succeeds.
pub data Created (limit : ℕ) (input : CreateProjectInput) (now : Date) (id m : Uuid)
    (a : PublicControlProject) (db db' : Db) : Type 0 where
  reused :
      (p : Project)
      → find (has_key input.owner_user_id input.idempotency_key) db.projects ≡ some p
      → a ≡ public_project p input.owner_user_id
      → db' ≡ db
      → Created limit input now id m a db db'
  fresh :
      find (has_key input.owner_user_id input.idempotency_key) db.projects ≡ none
      → below_limit limit input.owner_user_id db ≡ true
      → find (has_project_id id) db.projects ≡ none
      → a ≡ public_project (new_project input now id) input.owner_user_id
      → db'.projects ≡ db.projects ++ new_project input now id ∷ []
      → db'.memberships ≡ db.memberships ++ owner_membership id input.owner_user_id now m ∷ []
      → db'.users ≡ db.users
      → Created limit input now id m a db db'

insert_project-eq-ok :
    (p : Project) (db : Db) (u : Unit {0}) (db' : Db)
    → insert_project p db ≡ ok (u, db')
    → (find (has_project_id p.id) db.projects ≡ none)
      × (record db { projects = db.projects ++ p ∷ [] } ≡ db')
unfolding insert_project
insert_project-eq-ok p db u db' h =
    elim (Bool-cases (is_some (find (has_project_id p.id) db.projects))) [
      | inl e ↦ absurd (ground (arith, e, h))
      | inr e ↦ (ground (arith, e), ground (arith, e, h))
    ]

pub insert_membership-eq-ok :
    {C : Type 0} (m : Membership) (db : Db) (u : Unit {0}) (db' : Db)
    → insert_membership {C = C} m db ≡ ok (u, db')
    → record db { memberships = db.memberships ++ m ∷ [] } ≡ db'
unfolding insert_membership
insert_membership-eq-ok {C} m db u db' h =
    elim (Bool-cases (is_some (find (is_member m.project_id m.user_id) db.memberships))) [
      | inl e ↦ absurd (ground (arith, e, h))
      | inr e ↦ ground (arith, e, h)
    ]

module _ (limit : ℕ) (input : CreateProjectInput) (now : Date) (id m : Uuid) (at : Date) where
  abbrev owner_id : Uuid
  owner_id = input.owner_user_id

  create_new-Created :
      (db : Db) (a : PublicControlProject) (db' : Db)
      → find (has_key owner_id input.idempotency_key) db.projects ≡ none
      → create_new limit input now id m at db ≡ ok (a, db')
      → Created limit input now id m a db db'
  unfolding create_new enforce_limit
  create_new-Created db a db' unused h =
      let p = new_project input now id in
      let (u1, db1, h1, k1) =
        continue-eq-ok (require (below_limit limit owner_id db) project_limit_reached db) _ h in
      let (below, same) =
        require-eq-ok (below_limit limit owner_id db) project_limit_reached db u1 db1 h1 in
      let (u2, db2, h2, k2) = continue-eq-ok (insert_project p db1) _ k1 in
      let (free, added) = insert_project-eq-ok p db1 u2 db2 h2 in
      let (u3, db3, h3, k3) =
        continue-eq-ok (insert_membership (owner_membership id owner_id now m) db2) _ k2 in
      let joined = insert_membership-eq-ok (owner_membership id owner_id now m) db2 u3 db3 h3 in
      let (u4, db4, h4, k4) =
        continue-eq-ok (record_audit (created_event p owner_id) at db3) _ k3 in
      let logged = record_audit-eq-ok (created_event p owner_id) at db3 u4 db4 h4 in
      let (shown, end) = ok_inj (public_project p owner_id) a db4 db' k4 in
      fresh unused below (rw same free) (sym shown)
        (rw (← end) (rw (← logged) (rw (← joined) (rw (← added) (rw (← same) refl)))))
        (rw (← end) (rw (← logged) (rw (← joined) (rw (← added) (rw (← same) refl)))))
        (rw (← end) (rw (← logged) (rw (← joined) (rw (← added) (rw (← same) refl)))))

  create_or_reuse-Created :
      (o : Option Project) (db : Db) (a : PublicControlProject) (db' : Db)
      → find (has_key owner_id input.idempotency_key) db.projects ≡ o
      → create_or_reuse limit input now id m at o db ≡ ok (a, db')
      → Created limit input now id m a db db'
  unfolding create_or_reuse
  create_or_reuse-Created none db a db' found h = create_new-Created db a db' found h
  create_or_reuse-Created (some p) db a db' found h =
      let (shown, same) = ok_inj (public_project p owner_id) a db db' h in
      reused p found (sym shown) (sym same)

  pub create-Created :
      (db : Db) (a : PublicControlProject) (db' : Db)
      → create limit input (some now) id m at db ≡ (ok a, db')
      → Created limit input now id m a db db'
        × (is_some (find (λ u. u.id == owner_id) db.users) ≡ true)
  unfolding create create_body lock_owner
  create-Created db a db' h =
      let body = transaction-eq-ok (create_body limit input now id m at) db h in
      let (u1, db1, h1, k1) =
        continue-eq-ok
          (require (is_some (find (λ u. u.id == owner_id) db.users)) project_not_found db) _ body in
      let (known, same) =
        require-eq-ok (is_some (find (λ u. u.id == owner_id) db.users)) project_not_found db u1 db1
          h1 in
      (
        subst (λ d. Created limit input now id m a d db') (sym same)
            (create_or_reuse-Created (find (has_key owner_id input.idempotency_key) db1.projects)
              db1 a db' refl k1),
        known,
      )

-- An archive or a restore that succeeds.
pub record Changed (input : OwnedProjectInput) (test : Project → Bool) (f : Project → Project)
    (a : PublicControlProject) (db db' : Db) : Type 0 where
  pub project : Project
  pub found : find (is_owned input.project_id input.owner_user_id) db.projects ≡ some project
  pub passes : test project ≡ true
  pub shown : a ≡ public_project (f project) input.owner_user_id
  pub changed :
      db'.projects
      ≡ update (λ p. is_owned input.project_id input.owner_user_id p && test p) f db.projects

module _ (input : OwnedProjectInput) (now at : Date) where
  archive_found-Changed :
      (o : Option Project) (db : Db) (a : PublicControlProject) (db' : Db)
      → find (is_owned input.project_id input.owner_user_id) db.projects ≡ o
      → archive_found input now at o db ≡ ok (a, db')
      → Changed input (λ p. is_active p.status) (to_archived now) a db db'
  unfolding archive_found update_projects
  archive_found-Changed none db a db' found h = absurd (ground arith)
  archive_found-Changed (some p) db a db' found h =
      let (u1, db1, h1, k1) =
        continue-eq-ok (require (is_active p.status) project_state_conflict db) _ h in
      let (live, same) = require-eq-ok (is_active p.status) project_state_conflict db u1 db1 h1 in
      let db2 = record db1 {
        projects = update (is_owned_active input) (to_archived now) db1.projects;
      } in
      let (u3, db3, h3, k3) =
        continue-eq-ok (record_audit (archived_event p input.owner_user_id) at db2) _ k1 in
      let logged = record_audit-eq-ok (archived_event p input.owner_user_id) at db2 u3 db3 h3 in
      let (shown, end) =
        ok_inj (public_project (to_archived now p) input.owner_user_id) a db3 db' k3 in
      record {
        project = p;
        found = found;
        passes = live;
        shown = sym shown;
        changed = rw (← end) (rw (← logged) (rw (← same) refl));
      }

  pub archive-Changed :
      (db : Db) (a : PublicControlProject) (db' : Db)
      → archive input (some now) at db ≡ (ok a, db')
      → Changed input (λ p. is_active p.status) (to_archived now) a db db'
  unfolding archive archive_body
  archive-Changed db a db' h =
      archive_found-Changed (find (is_owned input.project_id input.owner_user_id) db.projects) db a
        db' refl (transaction-eq-ok (archive_body input now at) db h)

  restore_found-Changed :
      (limit : ℕ) (o : Option Project) (db : Db) (a : PublicControlProject) (db' : Db)
      → find (is_owned input.project_id input.owner_user_id) db.projects ≡ o
      → restore_found limit input now at o db ≡ ok (a, db')
      → Changed input (λ p. not (is_active p.status)) (to_active now) a db db'
        × (below_limit limit input.owner_user_id db ≡ true)
  unfolding restore_found update_projects enforce_limit
  restore_found-Changed limit none db a db' found h = absurd (ground arith)
  restore_found-Changed limit (some p) db a db' found h =
      let (u1, db1, h1, k1) =
        continue-eq-ok (require (not (is_active p.status)) project_state_conflict db) _ h in
      let (dead, same1) =
        require-eq-ok (not (is_active p.status)) project_state_conflict db u1 db1 h1 in
      let (u2, db2, h2, k2) =
        continue-eq-ok
          (require (below_limit limit input.owner_user_id db1) project_limit_reached db1) _ k1 in
      let (below, same2) =
        require-eq-ok (below_limit limit input.owner_user_id db1) project_limit_reached db1 u2 db2
          h2 in
      let db3 = record db2 {
        projects = update (is_owned_archived input) (to_active now) db2.projects;
      } in
      let (u4, db4, h4, k4) =
        continue-eq-ok (record_audit (restored_event p input.owner_user_id) at db3) _ k2 in
      let logged = record_audit-eq-ok (restored_event p input.owner_user_id) at db3 u4 db4 h4 in
      let (shown, end) =
        ok_inj (public_project (to_active now p) input.owner_user_id) a db4 db' k4 in
      (
        record {
          project = p;
          found = found;
          passes = dead;
          shown = sym shown;
          changed = rw (← end) (rw (← logged) (rw (← same2) (rw (← same1) refl)));
        },
        rw same1 below,
      )

  pub restore-Changed :
      (limit : ℕ) (db : Db) (a : PublicControlProject) (db' : Db)
      → restore limit input (some now) at db ≡ (ok a, db')
      → Changed input (λ p. not (is_active p.status)) (to_active now) a db db'
        × (below_limit limit input.owner_user_id db ≡ true)
  unfolding restore restore_body lock_owner
  restore-Changed limit db a db' h =
      let body = transaction-eq-ok (restore_body limit input now at) db h in
      let (u1, db1, h1, k1) =
        continue-eq-ok
          (require (is_some (find (λ u. u.id == input.owner_user_id) db.users)) project_not_found
            db)
          _ body in
      let (known, same) =
        require-eq-ok (is_some (find (λ u. u.id == input.owner_user_id) db.users)) project_not_found
          db u1 db1 h1 in
      subst
        (λ (d : Db).
          Changed input (λ p. not (is_active p.status)) (to_active now) a d db'
          × (below_limit limit input.owner_user_id d ≡ true))
        (sym same)
        (restore_found-Changed limit
          (find (is_owned input.project_id input.owner_user_id) db1.projects) db1 a db' refl k1)
