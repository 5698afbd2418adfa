-- ===== src/Control/Projects/Again.antt =====
-- A creation that is repeated, and what a deletion takes with it.
use agentmesh_mcp.Prelude.{
  ℕ, ◌≡◌, ◌≢◌, refl, sym, ap, ◌∙◌, true, false, Option, none, some, List, [], ◌∷◌, ◌++◌, Text, ◌==◌,
  ==_refl, is_some, find, find-append, All, All-Row, All-deleted, arith,
}
use mathlib.Core.Path.{subst}
use agentmesh_mcp.Schema.{Uuid, Date, Db, Project, ProjectToken}
use agentmesh_mcp.Transaction.{ok, transaction}
use agentmesh_mcp.Projects.{AuthenticatedProject, authenticate_project}
use agentmesh_mcp.Projects.Laws.{authenticate_project_sound}
use agentmesh_mcp.Control.Projects.{
  PublicControlProject, public_project, CreateProjectInput, OwnedProjectInput, lock_owner, has_key,
  new_project, create_or_reuse, create_body, create,
}
use agentmesh_mcp.Control.Projects.Deletion.{delete_cascade, delete_project}
use agentmesh_mcp.Control.Projects.Cases.{Created, reused, fresh, create-Created}
use agentmesh_mcp.Control.Projects.Laws.{delete_project-Deleted}

create-found :
    (limit : ℕ) (input : CreateProjectInput) (now : Date) (id m : Uuid) (at : Date) (p : Project)
    (db : Db)
    → is_some (find (λ u. u.id == input.owner_user_id) db.users) ≡ true
    → find (has_key input.owner_user_id input.idempotency_key) db.projects ≡ some p
    → create limit input (some now) id m at db ≡ (ok (public_project p input.owner_user_id), db)
unfolding create create_body lock_owner create_or_reuse transaction
create-found limit input now id m at p db known found = rw known (rw found refl)

find-new :
    (input : CreateProjectInput) (now : Date) (id : Uuid) (projects : List Project)
    → find (has_key input.owner_user_id input.idempotency_key) projects ≡ none
    → find
        (has_key input.owner_user_id input.idempotency_key)
        (projects ++ new_project input now id ∷ [])
      ≡ some (new_project input now id)
unfolding find
find-new input now id projects unused =
    rw
      (find-append (has_key input.owner_user_id input.idempotency_key) projects
        (new_project input now id ∷ []))
      (rw unused (rw (==_refl input.owner_user_id) (rw (==_refl input.idempotency_key) refl)))

Created-again :
    (limit limit2 : ℕ) (input : CreateProjectInput) (now now2 : Date) (id m id2 m2 : Uuid)
    (at2 : Date) (a : PublicControlProject) (db db' : Db)
    → is_some (find (λ u. u.id == input.owner_user_id) db.users) ≡ true
    → Created limit input now id m a db db'
    → create limit2 input (some now2) id2 m2 at2 db' ≡ (ok a, db')
Created-again limit limit2 input now now2 id m id2 m2 at2 a db db' known
      (reused p found shown same) =
    rw shown (create-found limit2 input now2 id2 m2 at2 p db' (rw same known) (rw same found))
Created-again limit limit2 input now now2 id m id2 m2 at2 a db db' known
      (fresh unused below free shown added joined users) =
    rw shown (
      create-found limit2 input now2 id2 m2 at2 (new_project input now id) db' (rw users known)
        (rw added (find-new input now id db.projects unused)))

-- A creation that is repeated with the same key and input returns the project that the first call
-- returned and writes nothing, at any later time, even where the owner has reached the limit by
-- then.
pub create_idempotent :
    (limit limit2 : ℕ) (input : CreateProjectInput) (now now2 : Date) (id m id2 m2 : Uuid)
    (at at2 : Date) (a : PublicControlProject) (db db' : Db)
    → create limit input (some now) id m at db ≡ (ok a, db')
    → create limit2 input (some now2) id2 m2 at2 db' ≡ (ok a, db')
create_idempotent limit limit2 input now now2 id m id2 m2 at at2 a db db' h =
    let (made, known) = create-Created limit input now id m at db a db' h in
    Created-again limit limit2 input now now2 id m id2 m2 at2 a db db' known made

-- After a project has been deleted by its owner, who signed in at most 15 minutes before and
-- repeated its name, no connection token is authenticated for that project.
pub authenticate_project-delete_project :
    (sha256 : Text → Text) (input : OwnedProjectInput) (confirm_name : Text)
    (authenticated_at : Date) (now : Option Date) (at : Date) (token : Text) (later : Option Date)
    (a : AuthenticatedProject) (db db' db'' : Db)
    → delete_project input confirm_name authenticated_at now at db ≡ (ok tt, db')
    → authenticate_project sha256 token later db' ≡ (ok a, db'')
    → a.project_id ≢ input.project_id
unfolding delete_cascade
authenticate_project-delete_project sha256 input confirm_name auth now at token later a db db' db''
      h k same =
    let done = delete_project-Deleted input confirm_name auth now at db db' h in
    let (t, p, s, given, in_p, in_s, shown, own, rest, _, _, _, _, _, _) =
      authenticate_project_sound sha256 token later a db' db'' k in
    let left =
      subst (All (λ (x : ProjectToken). (x.project_id == input.project_id) ≡ false))
        (sym (done.project_tokens ∙ ap (λ (d : Db). d.project_tokens) done.cascaded))
        (All-deleted (λ (x : ProjectToken). x.project_id == input.project_id) db.project_tokens) in
    let other =
      All-Row (λ (x : ProjectToken). (x.project_id == input.project_id) ≡ false) left in_s in
    ground (arith, other, own, shown, same)
