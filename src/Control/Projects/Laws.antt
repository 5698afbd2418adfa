-- ===== src/Control/Projects/Laws.antt =====
-- Sequences of calls on the projects of all owners, and what a single call promises.
use agentmesh_mcp.Prelude.{
  ℕ, ◌≡◌, ◌<◌, refl, sym, ap, true, ◌&&◌, Option, none, some, Text, text_eq, text_eq_iff, find,
  if◌then◌else◌, Bool-cases, inl, inr, arith,
}
use mathlib.Core.Path.{subst}
use agentmesh_mcp.Schema.{Uuid, Date, Db, Project}
use agentmesh_mcp.Transaction.{
  ok, err, code, continue-eq-ok, require, require-eq-ok, transaction, transaction-eq-ok,
}
use agentmesh_mcp.Audit.{record_audit-eq-ok}
use agentmesh_mcp.Projects.{is_active}
use agentmesh_mcp.Control.Membership.{is_owned}
use agentmesh_mcp.Control.Projects.{
  project_confirmation_mismatch, recent_auth_required, PublicControlProject, CreateProjectInput,
  OwnedProjectInput, recent_authentication, new_project, create, archive, restore,
}
use agentmesh_mcp.Control.Projects.Deletion.{
  delete_cascade, deleted_event, delete_found, delete_body, delete_project,
}
use agentmesh_mcp.Control.Projects.Cases.{
  Created, reused, fresh, create-Created, archive-Changed, restore-Changed,
}
use agentmesh_mcp.Control.Projects.Limit.{
  IsCatalogue, insert-IsCatalogue, restore-IsCatalogue, archive-IsCatalogue, delete-IsCatalogue,
}

-- What a deletion that succeeds found and left.
pub record Deleted (input : OwnedProjectInput) (confirm_name : Text) (authenticated_at : Date)
    (now : Option Date) (db db' : Db) : Type 0 where
  pub recent : recent_authentication now authenticated_at ≡ true
  pub project : Project
  pub found : find (is_owned input.project_id input.owner_user_id) db.projects ≡ some project
  pub confirmed : confirm_name ≡ project.name
  pub tables : Db
  pub cascaded :
      tables ≡ delete_cascade (is_owned input.project_id input.owner_user_id) input.project_id db
  pub projects : db'.projects ≡ tables.projects
  pub agents : db'.agents ≡ tables.agents
  pub project_tokens : db'.project_tokens ≡ tables.project_tokens

delete_found-Deleted :
    (input : OwnedProjectInput) (confirm_name : Text) (authenticated_at : Date) (now : Option Date)
    (at : Date) (o : Option Project) (db : Db) (u : Unit {0}) (db' : Db)
    → recent_authentication now authenticated_at ≡ true
    → find (is_owned input.project_id input.owner_user_id) db.projects ≡ o
    → delete_found input confirm_name at o db ≡ ok (u, db')
    → Deleted input confirm_name authenticated_at now db db'
unfolding delete_found
delete_found-Deleted input confirm_name auth now at none db u db' recent found h =
    absurd (ground arith)
delete_found-Deleted input confirm_name auth now at (some p) db u db' recent found h =
    let (u1, db1, h1, k1) =
      continue-eq-ok (require (text_eq confirm_name p.name) project_confirmation_mismatch db) _ h in
    let (named, same) =
      require-eq-ok (text_eq confirm_name p.name) project_confirmation_mismatch db u1 db1 h1 in
    let db2 = delete_cascade (is_owned input.project_id input.owner_user_id) input.project_id db1 in
    let logged = record_audit-eq-ok (deleted_event p input.owner_user_id) at db2 u db' k1 in
    record {
      recent = recent;
      project = p;
      found = found;
      confirmed = (text_eq_iff confirm_name p.name).0 named;
      tables = db2;
      cascaded =
          ap (delete_cascade (is_owned input.project_id input.owner_user_id) input.project_id)
            (sym same);
      projects = ap (λ (d : Db). d.projects) (sym logged);
      agents = ap (λ (d : Db). d.agents) (sym logged);
      project_tokens = ap (λ (d : Db). d.project_tokens) (sym logged);
    }

pub delete_project-Deleted :
    (input : OwnedProjectInput) (confirm_name : Text) (authenticated_at : Date) (now : Option Date)
    (at : Date) (db db' : Db)
    → delete_project input confirm_name authenticated_at now at db ≡ (ok tt, db')
    → Deleted input confirm_name authenticated_at now db db'
unfolding delete_project delete_body
delete_project-Deleted input confirm_name auth now at db db' h =
    elim (Bool-cases (recent_authentication now auth)) [
      | inr e ↦ absurd (ground (arith, e, h))
      | inl e ↦
          delete_found-Deleted input confirm_name auth now at
            (find (is_owned input.project_id input.owner_user_id) db.projects) db tt db' e refl
            (transaction-eq-ok (delete_body input confirm_name at) db (
              subst
                (λ b.
                  (if b
                    then transaction (delete_body input confirm_name at) db
                    else (err (code recent_auth_required), db))
                  ≡ (ok tt, db'))
                e h))
    ]

-- A call that succeeds, by any owner at any time.
pub data Step (limit : ℕ) (db db' : Db) : Type 0 where
  creates :
      (input : CreateProjectInput) (now : Date) (id m : Uuid) (at : Date) (a : PublicControlProject)
      → create limit input (some now) id m at db ≡ (ok a, db')
      → Step limit db db'
  archives :
      (input : OwnedProjectInput) (now at : Date) (a : PublicControlProject)
      → archive input (some now) at db ≡ (ok a, db')
      → Step limit db db'
  restores :
      (input : OwnedProjectInput) (now at : Date) (a : PublicControlProject)
      → restore limit input (some now) at db ≡ (ok a, db')
      → Step limit db db'
  deletes :
      (input : OwnedProjectInput) (confirm_name : Text) (authenticated_at : Date)
      (now : Option Date) (at : Date)
      → delete_project input confirm_name authenticated_at now at db ≡ (ok tt, db')
      → Step limit db db'

pub data Reach (limit : ℕ) (db : Db) : Db → Type 0 where
  start : Reach limit db db
  next : {d d' : Db} → Reach limit db d → Step limit d d' → Reach limit db d'

Created-IsCatalogue :
    (limit : ℕ) (input : CreateProjectInput) (now : Date) (id m : Uuid) (a : PublicControlProject)
    (db db' : Db)
    → 0 < limit
    → Created limit input now id m a db db'
    → IsCatalogue limit db.projects
    → IsCatalogue limit db'.projects
Created-IsCatalogue limit input now id m a db db' positive (reused p found shown same) good =
    rw same good
Created-IsCatalogue limit input now id m a db db' positive
      (fresh unused below free shown added joined users) good =
    rw added (
      insert-IsCatalogue limit positive (new_project input now id) input.owner_user_id db refl free
        below good)

Step-IsCatalogue :
    (limit : ℕ) {db db' : Db}
    → 0 < limit
    → Step limit db db'
    → IsCatalogue limit db.projects
    → IsCatalogue limit db'.projects
unfolding delete_cascade
Step-IsCatalogue limit {db} {db'} positive (creates input now id m at a h) good =
    let (made, known) = create-Created limit input now id m at db a db' h in
    Created-IsCatalogue limit input now id m a db db' positive made good
Step-IsCatalogue limit {db} {db'} positive (archives input now at a h) good =
    let done = archive-Changed input now at db a db' h in
    rw done.changed (
      archive-IsCatalogue limit
        (λ p. is_owned input.project_id input.owner_user_id p && is_active p.status) now db.projects
        good)
Step-IsCatalogue limit {db} {db'} positive (restores input now at a h) good =
    let (done, below) = restore-Changed input now at limit db a db' h in
    rw done.changed (restore-IsCatalogue limit positive input now db below good)
Step-IsCatalogue limit {db} {db'} positive (deletes input confirm_name auth now at h) good =
    let done = delete_project-Deleted input confirm_name auth now at db db' h in
    rw done.projects (
      rw done.cascaded
        (delete-IsCatalogue limit (is_owned input.project_id input.owner_user_id) db.projects good))

-- Where the limit is not 0, no owner ever has more active projects than the limit allows, and the
-- ids of projects stay unique, through any sequence of creations, archivings, restorations and
-- deletions that succeed, of any owners.
pub Reach-IsCatalogue :
    (limit : ℕ) (db db' : Db)
    → 0 < limit
    → IsCatalogue limit db.projects
    → Reach limit db db'
    → IsCatalogue limit db'.projects
Reach-IsCatalogue limit db db' positive good start = good
Reach-IsCatalogue limit db db' positive good (next {d} r s) =
    Step-IsCatalogue limit positive s (Reach-IsCatalogue limit db d positive good r)
