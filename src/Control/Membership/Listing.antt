-- ===== src/Control/Membership/Listing.antt =====
-- src/control/membership-service.ts, `list`: the members and the open invitations of a project.
use agentmesh_mcp.Prelude.{
  ◌≡◌, Bool, true, false, not, ◌&&◌, ◌||◌, Option, none, some, List, [], ◌∷◌, ◌++◌, map, Text, ◌==◌,
  ltb, leb, find, find-none_iff, select, order_by, All, All-append, All-order_by, All-select,
  All-Row, if◌then◌else◌, arith,
}
use agentmesh_mcp.Schema.{
  Uuid, Date, Db, Role, owner, viewer, Membership, Invitation, User, OauthIdentity,
}
use agentmesh_mcp.Transaction.{Result, ok, err, code, read, ◌>>◌, transaction, otherwise}
use agentmesh_mcp.Control.Membership.{
  ProjectMembershipErrorCode, control_unavailable, Control, require_owner, is_open,
  OwnerMutationInput, is_removable, is_viewer, remove_viewer,
}
use agentmesh_mcp.Control.Membership.Once.{remove_viewer-gone}

pub record PublicProjectMember : Type 0 where
  pub user_id : Uuid
  pub role : Role
  pub github_login : Text
  pub display_name : Text
  pub avatar_url : Option Text
  pub joined_at : Date

pub record PublicProjectInvitation : Type 0 where
  pub id : Uuid
  pub created_at : Date
  pub expires_at : Date

pub record MemberList : Type 0 where
  pub members : List PublicProjectMember
  pub invitations : List PublicProjectInvitation

abbrev pub public_member : Membership → User → OauthIdentity → PublicProjectMember
public_member m u i = record {
  user_id = m.user_id;
  role = m.role;
  github_login = i.login;
  display_name = u.display_name;
  avatar_url = u.avatar_url;
  joined_at = m.created_at;
}

unfoldable pub with_member_identity :
    Membership → User → Option OauthIdentity → List PublicProjectMember
with_member_identity m u none = []
with_member_identity m u (some i) = public_member m u i ∷ []

unfoldable pub with_member_user : Membership → Option User → Db → List PublicProjectMember
with_member_user m none db = []
with_member_user m (some u) db =
    with_member_identity m u (find (λ (i : OauthIdentity). i.user_id == u.id) db.oauth_identities)

-- The inner joins with the user and the user's identity.
unfoldable pub joined_members : Db → List Membership → List PublicProjectMember
joined_members db [] = []
joined_members db (m ∷ ms) =
    with_member_user m (find (λ (u : User). u.id == m.user_id) db.users) db ++ joined_members db ms

abbrev pub is_owner_role : Role → Bool
is_owner_role owner = true
is_owner_role viewer = false

-- The owner first, then by the time of joining, then by the user's id.
unfoldable pub member_order : PublicProjectMember → PublicProjectMember → Bool
member_order a b =
    if is_owner_role a.role
    then (if is_owner_role b.role then by_joining a b else true)
    else (if is_owner_role b.role then false else by_joining a b)
  where
    by_joining : PublicProjectMember → PublicProjectMember → Bool
    by_joining a b =
        ltb a.joined_at b.joined_at || a.joined_at == b.joined_at && leb a.user_id b.user_id

abbrev pub by_invitation : Invitation → Invitation → Bool
by_invitation a b = ltb a.created_at b.created_at || a.created_at == b.created_at && leb a.id b.id

abbrev pub public_invitation : Invitation → PublicProjectInvitation
public_invitation i = record { id = i.id; created_at = i.created_at; expires_at = i.expires_at }

unfoldable pub member_list : Uuid → Date → Db → MemberList
member_list project_id now db = record {
  members =
      order_by member_order (
        joined_members db (select (λ (m : Membership). m.project_id == project_id) db.memberships));
  invitations = map public_invitation (
      order_by by_invitation
        (select (λ (i : Invitation). i.project_id == project_id && is_open now i) db.invitations));
}

unfoldable pub list_body : Uuid → Uuid → Date → Control MemberList
list_body owner_user_id project_id now =
    require_owner owner_user_id project_id >> read (member_list project_id now)

unfoldable pub list :
    Uuid → Uuid → Option Date → Db → Result ProjectMembershipErrorCode MemberList × Db
list owner_user_id project_id none db = (err (code control_unavailable), db)
list owner_user_id project_id (some now) db =
    otherwise control_unavailable (transaction (list_body owner_user_id project_id now) db)

abbrev pub shows_viewer : Uuid → PublicProjectMember → Bool
shows_viewer user_id m = m.user_id == user_id && not (is_owner_role m.role)

joined_members-absent :
    (user_id : Uuid) (db : Db) (ms : List Membership)
    → All (λ (m : Membership). (m.user_id == user_id && not (is_owner_role m.role)) ≡ false) ms
    → All (λ m. shows_viewer user_id m ≡ false) (joined_members db ms)
unfolding joined_members with_member_user with_member_identity
joined_members-absent user_id db [] h = tt
joined_members-absent user_id db (m ∷ ms) (h, hs) =
    All-append (λ x. shows_viewer user_id x ≡ false) _ (joined_members db ms)
      (with_member_user-absent user_id m (find (λ (u : User). u.id == m.user_id) db.users) db h)
      (joined_members-absent user_id db ms hs)
  where
    with_identity-absent :
        (user_id : Uuid) (m : Membership) (u : User) (o : Option OauthIdentity)
        → (m.user_id == user_id && not (is_owner_role m.role)) ≡ false
        → All (λ x. shows_viewer user_id x ≡ false) (with_member_identity m u o)
    with_identity-absent user_id m u none h = tt
    with_identity-absent user_id m u (some i) h = (h, tt)

    with_member_user-absent :
        (user_id : Uuid) (m : Membership) (o : Option User) (db : Db)
        → (m.user_id == user_id && not (is_owner_role m.role)) ≡ false
        → All (λ x. shows_viewer user_id x ≡ false) (with_member_user m o db)
    with_member_user-absent user_id m none db h = tt
    with_member_user-absent user_id m (some u) db h =
        with_identity-absent user_id m u
          (find (λ (i : OauthIdentity). i.user_id == u.id) db.oauth_identities) h

viewer_apart :
    (project_id user_id : Uuid) (m : Membership)
    → (m.project_id == project_id) ≡ true
    → is_removable project_id user_id m ≡ false
    → (m.user_id == user_id && not (is_owner_role m.role)) ≡ false
unfolding is_viewer
viewer_apart project_id user_id m e h = ground (arith, e, h)

-- After the removal of a viewer that succeeds, the list of the project's members shows no viewer
-- with the user's id, at any later time.
pub member_list-remove_viewer :
    (input : OwnerMutationInput) (user_id : Uuid) (now : Option Date) (at later : Date)
    (db db' : Db)
    → remove_viewer input user_id now at db ≡ (ok tt, db')
    → All (λ m. shows_viewer user_id m ≡ false) (member_list input.project_id later db').members
unfolding member_list
member_list-remove_viewer input user_id now at later db db' h =
    let (_, gone) = remove_viewer-gone input user_id now at db db' h in
    let none_left =
      (find-none_iff (is_removable input.project_id user_id) db'.memberships).0 gone in
    All-order_by (λ m. shows_viewer user_id m ≡ false) member_order _
      (joined_members-absent user_id db'
        (select (λ (m : Membership). m.project_id == input.project_id) db'.memberships)
        (All-select
          (λ (m : Membership). (m.user_id == user_id && not (is_owner_role m.role)) ≡ false)
          (λ (m : Membership). m.project_id == input.project_id) db'.memberships
          (λ m r e.
            let other =
              All-Row (λ x. is_removable input.project_id user_id x ≡ false) none_left r in
            viewer_apart input.project_id user_id m e other)))
