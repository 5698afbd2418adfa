-- ===== src/Control/Membership.antt =====
-- src/control/membership-service.ts: the viewers of a project and the invitations that make them.
-- The clock gives no date when it is invalid; `sha256` is the hash of node:crypto; the random
-- token and the ids that the database gives are arguments.
use agentmesh_mcp.Prelude.{
  ℕ, ◌+◌, ◌*◌, ◌≡◌, Bool, true, false, not, ◌&&◌, ◌||◌, Option, none, some, List, [], ◌∷◌, ◌++◌,
  map, Text, text_eq, ◌==◌, ltb, leb, is_none, is_some, is_value, find, select, update, delete,
  order_by, if◌then◌else◌,
}
use agentmesh_mcp.Schema.{
  Uuid, Date, Db, Project, Role, owner, viewer, Membership, Invitation, User, OauthIdentity,
  invitation_created, invitation_redeemed, invitation_revoked, viewer_removed,
}
use agentmesh_mcp.Transaction.{
  Result, ok, err, Failure, code, internal, Tx, pure, throw, crash, read, write, require, ◌>>=◌,
  ◌>>◌, transaction, otherwise, valid_date,
}
use agentmesh_mcp.Auth.Pattern.{matches, base64url_43}
use agentmesh_mcp.Audit.{RecordAuditInput, audit, record_audit}
pub mod Laws
pub mod Once
pub mod Listing

pub data ProjectMembershipErrorCode : Type 0 where
  project_not_found invitation_not_found invitation_unavailable : ProjectMembershipErrorCode
  member_not_found already_member control_unavailable : ProjectMembershipErrorCode

abbrev pub Control : Type 0 → Type 0
Control A = Tx ProjectMembershipErrorCode A

abbrev pub invitation_lifetime : ℕ
invitation_lifetime = 7 * 24 * 60 * 60 * 1000

pub record OwnerMutationInput : Type 0 where
  pub owner_user_id : Uuid
  pub project_id : Uuid
  pub request_id : Text

abbrev pub is_owned : Uuid → Uuid → Project → Bool
is_owned project_id owner_user_id p = p.id == project_id && is_value p.owner_user_id owner_user_id

unfoldable pub require_owner : Uuid → Uuid → Control (Unit {0})
require_owner owner_user_id project_id db =
    require (is_some (find (is_owned project_id owner_user_id) db.projects)) project_not_found db

-- Neither redeemed nor revoked, and not expired.
unfoldable pub is_open : Date → Invitation → Bool
is_open now i = is_none i.redeemed_at && (is_none i.revoked_at && ltb now i.expires_at)

abbrev pub is_open_token : Text → Date → Invitation → Bool
is_open_token digest now i = text_eq i.token_digest digest && is_open now i

abbrev pub is_member : Uuid → Uuid → Membership → Bool
is_member project_id user_id m = m.project_id == project_id && m.user_id == user_id

abbrev pub new_invitation : OwnerMutationInput → Text → Date → Uuid → Invitation
new_invitation input digest now id = record {
  id = id;
  project_id = input.project_id;
  token_digest = digest;
  created_by = input.owner_user_id;
  expires_at = now + invitation_lifetime;
  redeemed_by = none;
  redeemed_at = none;
  revoked_at = none;
  created_at = now;
  updated_at = now;
}

pub record IssuedInvitation : Type 0 where
  pub id : Uuid
  pub created_at : Date
  pub expires_at : Date
  pub raw_token : Text

-- INSERT: a second row with the same digest breaks the unique index.
unfoldable pub insert_invitation : Invitation → Control (Unit {0})
insert_invitation i db =
    if is_some (find (λ j. text_eq j.token_digest i.token_digest) db.invitations)
    then err internal
    else ok (tt, record db { invitations = db.invitations ++ i ∷ [] })

module _ (sha256 : Text → Text) where
  unfoldable pub create_invitation_body :
      OwnerMutationInput → Text → Date → Uuid → Date → Control IssuedInvitation
  create_invitation_body input raw_token now id recorded_at = do
    require_owner input.owner_user_id input.project_id
    -- an expiry that is no valid date throws when it is written
    (λ db.
        if valid_date (now + invitation_lifetime)
        then insert_invitation (new_invitation input (sha256 raw_token) now id) db
        else err internal)
    record_audit
        (record (audit invitation_created input.owner_user_id input.project_id) {
          request_id = some input.request_id;
          invitation_id = some id;
        })
        recorded_at
    pure (record {
      id = id;
      created_at = now;
      expires_at = now + invitation_lifetime;
      raw_token = raw_token;
    })

  unfoldable pub create_invitation :
      OwnerMutationInput
      → Text
      → Option Date
      → Uuid
      → Date
      → Db
      → Result ProjectMembershipErrorCode IssuedInvitation × Db
  create_invitation input raw_token none id recorded_at db = (err (code control_unavailable), db)
  create_invitation input raw_token (some now) id recorded_at db =
      otherwise control_unavailable
        (transaction (create_invitation_body input raw_token now id recorded_at) db)

  unfoldable pub capture : Text → Option Date → Db → Bool
  capture raw_token none db = false
  capture raw_token (some now) db =
      matches base64url_43 raw_token
      && is_some (find (is_open_token (sha256 raw_token) now) db.invitations)

abbrev pub claimed : Uuid → Date → Invitation → Invitation
claimed user_id now i = record i {
  redeemed_by = some user_id;
  redeemed_at = some now;
  updated_at = now;
}

abbrev pub is_claimable : Uuid → Date → Invitation → Bool
is_claimable id now i = i.id == id && is_open now i

unfoldable pub claim_invitation : Uuid → Uuid → Date → Control (Unit {0})
claim_invitation id user_id now db =
    if is_some (find (is_claimable id now) db.invitations)
    then ok (
      tt,
      record db { invitations = update (is_claimable id now) (claimed user_id now) db.invitations },
    )
    else err (code invitation_unavailable)

abbrev pub new_viewer : Invitation → Uuid → Date → Uuid → Membership
new_viewer invitation user_id now id = record {
  id = id;
  project_id = invitation.project_id;
  user_id = user_id;
  role = viewer;
  created_by = invitation.created_by;
  created_at = now;
  updated_at = now;
}

unfoldable pub insert_viewer : Membership → Control (Unit {0})
insert_viewer m db = ok (tt, record db { memberships = db.memberships ++ m ∷ [] })

pub record RedeemInput : Type 0 where
  pub user_id : Uuid
  pub raw_token : Text
  pub request_id : Text

abbrev pub belongs : Uuid → Uuid → Db → Bool
belongs project_id user_id db =
    is_some (find (is_member project_id user_id) db.memberships)
    || is_some (find (is_owned project_id user_id) db.projects)

unfoldable pub redeem_found : RedeemInput → Date → Uuid → Date → Option Invitation → Control Uuid
redeem_found input now id recorded_at none = throw invitation_unavailable
redeem_found input now id recorded_at (some invitation) = do
  (λ db. require (not (belongs invitation.project_id input.user_id db)) already_member db)
  claim_invitation invitation.id input.user_id now
  insert_viewer (new_viewer invitation input.user_id now id)
  record_audit
      (record (audit invitation_redeemed input.user_id invitation.project_id) {
        request_id = some input.request_id;
        invitation_id = some invitation.id;
      })
      recorded_at
  pure invitation.project_id

module _ (sha256 : Text → Text) where
  unfoldable pub redeem_body : RedeemInput → Date → Uuid → Date → Control Uuid
  redeem_body input now id recorded_at db =
      redeem_found input now id recorded_at
        (find (is_open_token (sha256 input.raw_token) now) db.invitations) db

  -- The membership that the insertion would clash with has been looked for, so the code of a
  -- unique violation does not arise.
  unfoldable pub redeem :
      RedeemInput → Option Date → Uuid → Date → Db → Result ProjectMembershipErrorCode Uuid × Db
  redeem input none id recorded_at db = (err (code invitation_unavailable), db)
  redeem input (some now) id recorded_at db =
      if matches base64url_43 input.raw_token
      then otherwise control_unavailable (transaction (redeem_body input now id recorded_at) db)
      else (err (code invitation_unavailable), db)

abbrev pub is_revocable : Uuid → Uuid → Date → Invitation → Bool
is_revocable id project_id now i = i.id == id && (i.project_id == project_id && is_open now i)

abbrev pub revoked : Date → Invitation → Invitation
revoked now i = record i { revoked_at = some now; updated_at = now }

unfoldable pub revoke_invitation_body : OwnerMutationInput → Uuid → Date → Date → Control (Unit {0})
revoke_invitation_body input invitation_id now recorded_at = do
  require_owner input.owner_user_id input.project_id
  (λ db.
      require (is_some (find (is_revocable invitation_id input.project_id now) db.invitations))
        invitation_not_found db)
  write (λ db. record db {
    invitations =
        update (is_revocable invitation_id input.project_id now) (revoked now) db.invitations;
  })
  record_audit
      (record (audit invitation_revoked input.owner_user_id input.project_id) {
        request_id = some input.request_id;
        invitation_id = some invitation_id;
      })
      recorded_at

unfoldable pub revoke_invitation :
    OwnerMutationInput
    → Uuid
    → Option Date
    → Date
    → Db
    → Result ProjectMembershipErrorCode (Unit {0}) × Db
revoke_invitation input invitation_id none recorded_at db = (err (code control_unavailable), db)
revoke_invitation input invitation_id (some now) recorded_at db =
    otherwise control_unavailable
      (transaction (revoke_invitation_body input invitation_id now recorded_at) db)

unfoldable pub is_viewer : Role → Bool
is_viewer owner = false
is_viewer viewer = true

abbrev pub is_removable : Uuid → Uuid → Membership → Bool
is_removable project_id user_id m = is_member project_id user_id m && is_viewer m.role

unfoldable pub remove_viewer_body : OwnerMutationInput → Uuid → Date → Control (Unit {0})
remove_viewer_body input user_id recorded_at = do
  require_owner input.owner_user_id input.project_id
  (λ db.
      require (is_some (find (is_removable input.project_id user_id) db.memberships))
        member_not_found db)
  write (λ db. record db {
    memberships = delete (is_removable input.project_id user_id) db.memberships;
  })
  record_audit
      (record (audit viewer_removed input.owner_user_id input.project_id) {
        subject_user_id = some user_id;
        request_id = some input.request_id;
      })
      recorded_at

unfoldable pub remove_viewer :
    OwnerMutationInput
    → Uuid
    → Option Date
    → Date
    → Db
    → Result ProjectMembershipErrorCode (Unit {0}) × Db
remove_viewer input user_id none recorded_at db = (err (code control_unavailable), db)
remove_viewer input user_id (some now) recorded_at db =
    otherwise control_unavailable (transaction (remove_viewer_body input user_id recorded_at) db)
