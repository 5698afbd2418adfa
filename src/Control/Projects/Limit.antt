-- ===== src/Control/Projects/Limit.antt =====
-- The limit on the active projects of an owner, and the keys of the table.
use agentmesh_mcp.Prelude.{
  ℕ, ◌≡◌, ◌≤◌, ◌<◌, refl, Bool, true, false, Option, none, some, List, [], ◌∷◌, ◌++◌, ◌==◌, ==_iff,
  is_value, All, All-imp, Unique, Unique-insert, Unique-update, Unique-delete, find, find-none_iff,
  update, delete, count, count-append, count-update-le, count-update_other, count-delete-le,
  count-Unique, Bool-cases, inl, inr, arith, and-true,
}
use agentmesh_mcp.Schema.{Uuid, Date, Db, Project}
use agentmesh_mcp.Projects.{has_project_id}
use agentmesh_mcp.Control.Membership.{is_owned}
use agentmesh_mcp.Control.Projects.{
  is_active_of, below_limit, is_owned_archived, to_archived, to_active, OwnedProjectInput,
}

-- Two rows with one primary key.
abbrev pub same_project : Project → Project → Bool
same_project a b = b.id == a.id

abbrev pub WithinLimit : ℕ → List Project → Type 0
WithinLimit limit projects = (o : Uuid) → count (is_active_of o) projects ≤ limit

pub record IsCatalogue (limit : ℕ) (projects : List Project) : Type 0 where
  pub ids : Unique same_project projects
  pub limited : WithinLimit limit projects

same_project-new :
    (p : Project) (projects : List Project)
    → find (has_project_id p.id) projects ≡ none
    → All (λ q. same_project q p ≡ false) projects
same_project-new p projects h =
    All-imp (λ q. has_project_id p.id q ≡ false) (λ q. same_project q p ≡ false) projects
      (λ q k. ground (arith, k)) ((find-none_iff (has_project_id p.id) projects).0 h)

pub below-lt :
    (limit : ℕ) (o : Uuid) (db : Db)
    → 0 < limit
    → below_limit limit o db ≡ true
    → count (is_active_of o) db.projects < limit
unfolding below_limit
below-lt limit o db positive h = ground arith

pub is_value-some : (o : Option ℕ) (a b : ℕ) → is_value o a ≡ true → is_value o b ≡ true → a ≡ b
is_value-some none a b h k = absurd (ground arith)
is_value-some (some c) a b h k = ground arith

module _ (limit : ℕ) (positive : 0 < limit) where
  -- One more active project of an owner below the limit.
  pub insert-IsCatalogue :
      (p : Project) (owner_id : Uuid) (db : Db)
      → p.owner_user_id ≡ some owner_id
      → find (has_project_id p.id) db.projects ≡ none
      → below_limit limit owner_id db ≡ true
      → IsCatalogue limit db.projects
      → IsCatalogue limit (db.projects ++ p ∷ [])
  unfolding count
  insert-IsCatalogue p owner_id db owns free below good = record {
    ids = Unique-insert same_project db.projects p (same_project-new p db.projects free) good.ids;
    limited = λ o.
        let counted = count-append (is_active_of o) db.projects (p ∷ []) in
        let before = good.limited o in
        let room = below-lt limit owner_id db positive below in
        elim (Bool-cases (is_value p.owner_user_id o)) [
          | inr e ↦ rw counted (ground (arith, e, before))
          | inl e ↦
              let same : o ≡ owner_id =
                is_value-some p.owner_user_id o owner_id e (rw owns (ground arith)) in
              rw counted (rw same (ground (arith, room)))
        ];
  }

  -- One owner's archived project that becomes active again, below the limit.
  pub restore-IsCatalogue :
      (input : OwnedProjectInput) (now : Date) (db : Db)
      → below_limit limit input.owner_user_id db ≡ true
      → IsCatalogue limit db.projects
      → IsCatalogue limit (update (is_owned_archived input) (to_active now) db.projects)
  restore-IsCatalogue input now db below good = record {
    ids =
        Unique-update same_project (is_owned_archived input) (to_active now) (λ x y. refl)
          (λ x y. refl) db.projects good.ids;
    limited = λ o.
        let before = good.limited o in
        let room = below-lt limit input.owner_user_id db positive below in
        elim (Bool-cases (o == input.owner_user_id)) [
          | inl e ↦
              let same : o ≡ input.owner_user_id = (==_iff o input.owner_user_id).0 e in
              let grown =
                count-update-le (is_active_of input.owner_user_id) (is_owned_archived input)
                  (to_active now) db.projects in
              let one =
                count-Unique same_project (is_owned_archived input) db.projects
                  (λ y z h k. ground arith) good.ids in
              rw same (omega (arith, grown, one, room))
          | inr e ↦
              let kept =
                count-update_other (is_active_of o) (is_owned_archived input) (to_active now)
                  db.projects (λ x h k. absurd (other_owner o input x h k e)) in
              omega (arith, kept, before)
        ];
  }
    where
      other_owner :
          (o : Uuid) (input : OwnedProjectInput) (x : Project)
          → is_owned_archived input x ≡ true
          → is_active_of o (to_active now x) ≡ true
          → (o == input.owner_user_id) ≡ false
          → ⊥
      other_owner o input x h k e =
          let (owned, _) = and-true (is_owned input.project_id input.owner_user_id x) _ h in
          let (_, mine) = and-true (x.id == input.project_id) _ owned in
          let (other, _) = and-true (is_value x.owner_user_id o) _ k in
          let same = is_value-some x.owner_user_id o input.owner_user_id other mine in
          ground (arith, e, same)

-- Archiving and deleting leave fewer active projects.
pub archive-IsCatalogue :
    (limit : ℕ) (p : Project → Bool) (now : Date) (projects : List Project)
    → IsCatalogue limit projects
    → IsCatalogue limit (update p (to_archived now) projects)
archive-IsCatalogue limit p now projects good = record {
  ids =
      Unique-update same_project p (to_archived now) (λ x y. refl) (λ x y. refl) projects good.ids;
  limited = λ o.
      let kept =
        count-update_other (is_active_of o) p (to_archived now) projects
          (λ x h k. absurd (ground (arith, k))) in
      omega (arith, kept, good.limited o);
}

pub delete-IsCatalogue :
    (limit : ℕ) (p : Project → Bool) (projects : List Project)
    → IsCatalogue limit projects
    → IsCatalogue limit (delete p projects)
delete-IsCatalogue limit p projects good = record {
  ids = Unique-delete same_project p projects good.ids;
  limited = λ o. omega (arith, count-delete-le (is_active_of o) p projects, good.limited o);
}
