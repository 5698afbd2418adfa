-- ===== src/Control/Operator/Owner.antt =====
-- The limit on active projects when an operator assigns an owner.
use agentmesh_mcp.Prelude.{
  ℕ, ◌≡◌, ◌≤◌, ◌<◌, refl, sym, ◌∙◌, true, false, ◌&&◌, Option, none, some, List, ◌==◌, ==_iff,
  ==_refl, some_inj, find-Unique, count-update-Row, is_none, find, find-Row, Row, update, count,
  count-update-le, count-update_other, count-Unique, Unique, Unique-update, Bool-cases, inl, inr,
  arith,
}
use mathlib.Core.Path.{subst}
use agentmesh_mcp.Schema.{Uuid, Date, Db, User, Project}
use agentmesh_mcp.Transaction.{
  ok, continue-eq-ok, ok_inj, require, require-eq-ok, transaction-eq-ok, call-eq-ok,
}
use agentmesh_mcp.Audit.{record_audit, record_audit-eq-ok, is_v4}
use agentmesh_mcp.Projects.{is_active, has_project_id}
use agentmesh_mcp.Control.Projects.{is_active_of, owner_membership, insert_membership}
use agentmesh_mcp.Control.Projects.Cases.{insert_membership-eq-ok}
use agentmesh_mcp.Control.Projects.Limit.{same_project, IsCatalogue, below-lt}
use agentmesh_mcp.Control.Operator.{project_limit_reached, user_is_blocked}
use agentmesh_mcp.Control.Operator.Catalogue.{
  AssignOwnerInput, is_github_id, find_destination, is_ownerless, to_owned, assigned_event,
  has_room, OwnerAssigned, assign_to, assign_found, assign_body, assign_at, is_some_ownerless,
  assign_owner,
}

-- An assignment that succeeds.
pub record Assigned (limit : ℕ) (input : AssignOwnerInput) (now : Date) (db db' : Db) : Type 0 where
  pub destination : User
  pub found : find_destination input.github_user_id db ≡ some destination
  pub free : destination.blocked_at ≡ none
  pub project : Project
  pub ownerless : find (is_ownerless input.project_id) db.projects ≡ some project
  pub room : has_room limit project destination.id db ≡ true
  pub changed :
      db'.projects ≡ update (is_ownerless project.id) (to_owned destination.id now) db.projects

module _ (limit : ℕ) (input : AssignOwnerInput) (now : Date) (membership_id : Uuid)
    (at : Date) where
  assign_to-Assigned :
      (u : User) (o : Option Project) (db : Db) (a : OwnerAssigned) (db' : Db)
      → find_destination input.github_user_id db ≡ some u
      → u.blocked_at ≡ none
      → find (is_ownerless input.project_id) db.projects ≡ o
      → assign_to limit input now membership_id at u.id o db ≡ ok (a, db')
      → Assigned limit input now db db'
  unfolding assign_to
  assign_to-Assigned u none db a db' known free found h = absurd (ground arith)
  assign_to-Assigned u (some p) db a db' known free found h =
      let (u1, db1, h1, k1) =
        continue-eq-ok (require (has_room limit p u.id db) project_limit_reached db) _ h in
      let (room, same) =
        require-eq-ok (has_room limit p u.id db) project_limit_reached db u1 db1 h1 in
      let db2 = record db1 {
        projects = update (is_ownerless p.id) (to_owned u.id now) db1.projects;
      } in
      let m = owner_membership p.id u.id now membership_id in
      let (u3, db3, h3, k3) = continue-eq-ok (insert_membership m db2) _ k1 in
      let joined = insert_membership-eq-ok m db2 u3 db3 h3 in
      let (u4, db4, h4, k4) =
        continue-eq-ok (record_audit (assigned_event input p u.id) at db3) _ k3 in
      let logged = record_audit-eq-ok (assigned_event input p u.id) at db3 u4 db4 h4 in
      let (_, end) = ok_inj _ a db4 db' k4 in
      record {
        destination = u;
        found = known;
        free = free;
        project = p;
        ownerless = found;
        room = room;
        changed = rw (← end) (rw (← logged) (rw (← joined) (rw (← same) refl)));
      }

  assign_found-Assigned :
      (o : Option User) (db : Db) (a : OwnerAssigned) (db' : Db)
      → find_destination input.github_user_id db ≡ o
      → assign_found limit input now membership_id at o db ≡ ok (a, db')
      → Assigned limit input now db db'
  unfolding assign_found
  assign_found-Assigned none db a db' known h = absurd (ground arith)
  assign_found-Assigned (some u) db a db' known h =
      let (u1, db1, h1, k1) =
        continue-eq-ok (require (is_none u.blocked_at) user_is_blocked db) _ h in
      let (free, same) = require-eq-ok (is_none u.blocked_at) user_is_blocked db u1 db1 h1 in
      subst (λ (d : Db). Assigned limit input now d db') (sym same)
        (assign_to-Assigned u (find (is_ownerless input.project_id) db1.projects) db1 a db'
          (subst (λ (d : Db). find_destination input.github_user_id d ≡ some u) same known)
          (ground arith) refl k1)

assign_at-Assigned :
    (limit : ℕ) (input : AssignOwnerInput) (now : Option Date) (membership_id : Uuid) (at : Date)
    (db : Db) (a : OwnerAssigned) (db' : Db)
    → assign_at limit input now membership_id at db ≡ (ok a, db')
    → (t : Date) × Assigned limit input t db db'
unfolding assign_at assign_body
assign_at-Assigned limit input none membership_id at db a db' h = absurd (ground arith)
assign_at-Assigned limit input (some t) membership_id at db a db' h = (
  t,
  assign_found-Assigned limit input t membership_id at (find_destination input.github_user_id db) db
      a db' refl (transaction-eq-ok (assign_body limit input t membership_id at) db h),
)

assign_owner-Assigned :
    (limit : ℕ) (input : AssignOwnerInput) (now : Option Date) (membership_id : Uuid) (at : Date)
    (db : Db) (a : OwnerAssigned) (db' : Db)
    → assign_owner limit input now membership_id at db ≡ (ok a, db')
    → (t : Date) × Assigned limit input t db db'
unfolding assign_owner
assign_owner-Assigned limit input now membership_id at db a db' h =
    let (_, h1) =
      call-eq-ok (is_v4 input.project_id && is_github_id input.github_user_id) _ _ db h in
    let (_, h2) =
      call-eq-ok (is_some_ownerless (find (has_project_id input.project_id) db.projects)) _ _ db
        h1 in
    assign_at-Assigned limit input now membership_id at db a db' h2

Unique-Row :
    (p q : Project) (projects : List Project)
    → Unique same_project projects
    → Row p projects
    → Row q projects
    → q.id ≡ p.id
    → p ≡ q
Unique-Row p q projects unique in_p in_q same =
    let only : (y z : Project)
        → has_project_id p.id y ≡ true
        → has_project_id p.id z ≡ true
        → same_project y z ≡ true =
      λ y z h k. ground arith in
    some_inj (
      sym
        (find-Unique same_project (has_project_id p.id) projects p only unique in_p (==_refl p.id))
      ∙ find-Unique same_project (has_project_id p.id) projects q only unique in_q
          ((==_iff q.id p.id).1 same))

module _ (limit : ℕ) (p : Project) (user_id : Uuid) (now : Date) (db : Db)
    (good : IsCatalogue limit db.projects) (r : Row p db.projects) where
  -- The new owner of an active project had room for it.
  assigned-active :
      0 < limit
      → is_active p.status ≡ true
      → has_room limit p user_id db ≡ true
      → count (is_active_of user_id) (update (is_ownerless p.id) (to_owned user_id now) db.projects)
        ≤ limit
  unfolding has_room
  assigned-active positive live room =
      let below = below-lt limit user_id db positive (ground (arith, live, room)) in
      let grown =
        count-update-le (is_active_of user_id) (is_ownerless p.id) (to_owned user_id now)
          db.projects in
      let one =
        count-Unique same_project (is_ownerless p.id) db.projects (λ y z h k. ground arith)
          good.ids in
      omega (arith, below, grown, one)

  assigned-archived :
      is_active p.status ≡ false
      → count (is_active_of user_id) (update (is_ownerless p.id) (to_owned user_id now) db.projects)
        ≤ limit
  assigned-archived dead =
      let kept =
        count-update-Row (is_active_of user_id) (is_ownerless p.id) (to_owned user_id now)
          db.projects
          (λ q in_q h k.
            let same = Unique-Row p q db.projects good.ids r in_q (ground (arith, h)) in
            let dead_too = subst (λ (x : Project). is_active x.status ≡ false) same dead in
            absurd (ground (arith, dead_too, k))) in
      omega (arith, kept, good.limited user_id)

  assigned-other :
      (o : Uuid)
      → (user_id == o) ≡ false
      → count (is_active_of o) (update (is_ownerless p.id) (to_owned user_id now) db.projects)
        ≤ limit
  assigned-other o other =
      let kept =
        count-update_other (is_active_of o) (is_ownerless p.id) (to_owned user_id now) db.projects
          (λ q h k. absurd (ground (arith, other, k))) in
      omega (arith, kept, good.limited o)

  assigned-IsCatalogue :
      0 < limit
      → has_room limit p user_id db ≡ true
      → IsCatalogue limit (update (is_ownerless p.id) (to_owned user_id now) db.projects)
  assigned-IsCatalogue positive room = record {
    ids =
        Unique-update same_project (is_ownerless p.id) (to_owned user_id now) (λ x y. refl)
          (λ x y. refl) db.projects good.ids;
    limited = λ o. elim (Bool-cases (user_id == o)) [
      | inr other ↦ assigned-other o other
      | inl same ↦ rw (← (==_iff user_id o).0 same) (elim (Bool-cases (is_active p.status)) [
        | inl live ↦ assigned-active positive live room
        | inr dead ↦ assigned-archived dead
      ])
    ];
  }

-- An operator who assigns an owner to a project without one never gets past the limit: where it
-- is not 0, no owner has more active projects than it allows after the call either, and the ids
-- stay unique.
pub assign_owner-IsCatalogue :
    (limit : ℕ) (input : AssignOwnerInput) (now : Option Date) (membership_id : Uuid) (at : Date)
    (db : Db) (a : OwnerAssigned) (db' : Db)
    → 0 < limit
    → IsCatalogue limit db.projects
    → assign_owner limit input now membership_id at db ≡ (ok a, db')
    → IsCatalogue limit db'.projects
assign_owner-IsCatalogue limit input now membership_id at db a db' positive good h =
    let (t, done) = assign_owner-Assigned limit input now membership_id at db a db' h in
    rw done.changed (
      assigned-IsCatalogue limit done.project done.destination.id t db good
        (find-Row (is_ownerless input.project_id) db.projects done.project done.ownerless) positive
        done.room)
