-- ===== src/Control/Membership/Once.antt =====
-- Invitations that are spent or revoked, and viewers that are removed.
use agentmesh_mcp.Prelude.{
  ◌≡◌, refl, sym, ap, ◌∙◌, true, false, Option, none, some, Text, text_eq, text_eq_iff, find,
  update, delete, find-true, find-Row, find-delete, is_some, Bool-cases, Unique, Row,
  find-update_only, arith, and-true, inl, inr,
}
use mathlib.Core.Path.{subst}
use agentmesh_mcp.Schema.{Uuid, Date, Db, Invitation, viewer_removed, invitation_revoked}
use agentmesh_mcp.Transaction.{
  ok, err, code, continue-eq-ok, transaction, transaction-eq-ok, otherwise-eq-ok, require,
  require-eq-ok,
}
use agentmesh_mcp.Audit.{RecordAuditInput, audit}
use agentmesh_mcp.Auth.Pattern.{matches, base64url_43}
use agentmesh_mcp.Control.Membership.{
  OwnerMutationInput, invitation_unavailable, invitation_not_found, member_not_found,
  control_unavailable, project_not_found, RedeemInput, is_open, is_open_token, is_claimable,
  is_revocable, is_removable, claimed, revoked, redeem_found, redeem_body, redeem, require_owner,
  revoke_invitation_body, revoke_invitation, remove_viewer_body, remove_viewer,
}
use agentmesh_mcp.Control.Membership.Laws.{
  same_digest, redeem-eq-ok, redeem_found-eq-ok, record_audit-eq-ok,
}

same_digest-same :
    (d : Text) (a b : Invitation)
    → text_eq a.token_digest d ≡ true
    → text_eq b.token_digest d ≡ true
    → same_digest a b ≡ true
same_digest-same d a b h k =
    (text_eq_iff a.token_digest b.token_digest).1
      ((text_eq_iff a.token_digest d).0 h ∙ sym ((text_eq_iff b.token_digest d).0 k))

module _ (sha256 : Text → Text) (input : RedeemInput) (id : Uuid) (at : Date) (db : Db) where
  redeem_body-spent :
      (t : Date)
      → find (is_open_token (sha256 input.raw_token) t) db.invitations ≡ none
      → redeem_body sha256 input t id at db ≡ err (code invitation_unavailable)
  unfolding redeem_body redeem_found
  redeem_body-spent t h = rw h refl

  redeem-spent :
      (now : Option Date)
      → ((t : Date) → find (is_open_token (sha256 input.raw_token) t) db.invitations ≡ none)
      → redeem sha256 input now id at db ≡ (err (code invitation_unavailable), db)
  unfolding redeem transaction
  redeem-spent none h = refl
  redeem-spent (some t) h = elim (Bool-cases (matches base64url_43 input.raw_token)) [
    | inl e ↦ rw e (rw (redeem_body-spent t (h t)) refl)
    | inr e ↦ rw e refl
  ]

claimed-closed :
    (d : Text) (t : Date) (user_id : Uuid) (now : Date) (i : Invitation)
    → is_open_token d t (claimed user_id now i) ≡ false
unfolding is_open
claimed-closed d t user_id now i = ground arith

revoked-closed :
    (d : Text) (t : Date) (now : Date) (i : Invitation) → is_open_token d t (revoked now i) ≡ false
unfolding is_open
revoked-closed d t now i = ground arith

-- An invitation is redeemed at most once: after a redemption that succeeds, a redemption with the
-- same token, by any user at any time, ends with INVITATION_UNAVAILABLE and changes nothing,
-- where the digests of the invitations are unique, as the table's index makes them.
pub redeem-once :
    (sha256 : Text → Text) (input input2 : RedeemInput) (now now2 : Option Date) (id id2 : Uuid)
    (at at2 : Date) (project_id : Uuid) (db db' : Db)
    → Unique same_digest db.invitations
    → redeem sha256 input now id at db ≡ (ok project_id, db')
    → input2.raw_token ≡ input.raw_token
    → redeem sha256 input2 now2 id2 at2 db' ≡ (err (code invitation_unavailable), db')
unfolding redeem_body
redeem-once sha256 input input2 now now2 id id2 at at2 project_id db db' unique h same =
    let (t, given, body) = redeem-eq-ok sha256 input now id at db project_id db' h in
    let d = sha256 input.raw_token in
    let (i, found, project, fresh, claims, added) =
      redeem_found-eq-ok input t id at (find (is_open_token d t) db.invitations) db project_id db'
        body in
    let (digest, opened) = and-true _ _ (find-true (is_open_token d t) db.invitations i found) in
    redeem-spent sha256 input2 id2 at2 db' now2 (λ t2. rw same (
      rw claims (
        find-update_only same_digest (λ x. text_eq x.token_digest d) (is_open_token d t2)
          (is_claimable i.id t) (claimed input.user_id t) (same_digest-same d)
          (λ y k. (and-true _ _ k).0) (λ y. claimed-closed d t2 input.user_id t y) i db.invitations
          unique (find-Row (is_open_token d t) db.invitations i found) digest
          (ground (arith, opened)))))

revoked_event : OwnerMutationInput → Uuid → RecordAuditInput
revoked_event input invitation_id =
    record (audit invitation_revoked input.owner_user_id input.project_id) {
      request_id = some input.request_id;
      invitation_id = some invitation_id;
    }

revoke_invitation_body-eq-ok :
    (input : OwnerMutationInput) (id : Uuid) (t : Date) (at : Date) (db : Db) (u : Unit {0})
    (db' : Db)
    → revoke_invitation_body input id t at db ≡ ok (u, db')
    → db'.invitations ≡ update (is_revocable id input.project_id t) (revoked t) db.invitations
unfolding revoke_invitation_body require_owner revoked_event
revoke_invitation_body-eq-ok input id t at db u db' h =
    let (u1, db1, h1, k1) =
      continue-eq-ok (require_owner input.owner_user_id input.project_id db) _ h in
    let (owned, same1) = require-eq-ok _ project_not_found db u1 db1 h1 in
    let (u2, db2, h2, k2) =
      continue-eq-ok
        (require (is_some (find (is_revocable id input.project_id t) db1.invitations))
          invitation_not_found db1)
        _ k1 in
    let (found, same2) = require-eq-ok _ invitation_not_found db1 u2 db2 h2 in
    let db3 = record db2 {
      invitations = update (is_revocable id input.project_id t) (revoked t) db2.invitations;
    } in
    (record_audit-eq-ok (revoked_event input id) at db3 u db' k2).0
    ∙ ap (λ (d : Db). update (is_revocable id input.project_id t) (revoked t) d.invitations)
        (sym (same1 ∙ same2))

-- An invitation that its project's owner has revoked while it was open is never redeemed: a
-- redemption with its token, by any user at any time, ends with INVITATION_UNAVAILABLE and changes
-- nothing, where the digests of the invitations are unique.
pub redeem-revoke_invitation :
    (sha256 : Text → Text) (owner_input : OwnerMutationInput) (t : Date) (at : Date)
    (i : Invitation) (input : RedeemInput) (now : Option Date) (id : Uuid) (at2 : Date)
    (db db' : Db)
    → Unique same_digest db.invitations
    → Row i db.invitations
    → is_open t i ≡ true
    → i.project_id ≡ owner_input.project_id
    → i.token_digest ≡ sha256 input.raw_token
    → revoke_invitation owner_input i.id (some t) at db ≡ (ok tt, db')
    → redeem sha256 input now id at2 db' ≡ (err (code invitation_unavailable), db')
unfolding revoke_invitation
redeem-revoke_invitation sha256 owner_input t at i input now id at2 db db' unique row opened project
      digest h =
    let d = sha256 input.raw_token in
    let changed = revoke_invitation_body-eq-ok owner_input i.id t at db tt db' (
      transaction-eq-ok (revoke_invitation_body owner_input i.id t at) db (
        otherwise-eq-ok control_unavailable
          (transaction (revoke_invitation_body owner_input i.id t at) db) tt db' h)) in
    redeem-spent sha256 input id at2 db' now (λ t2. rw changed (
      find-update_only same_digest (λ x. text_eq x.token_digest d) (is_open_token d t2)
        (is_revocable i.id owner_input.project_id t) (revoked t) (same_digest-same d)
        (λ y k. (and-true _ _ k).0) (λ y. revoked-closed d t2 t y) i db.invitations unique row
        ((text_eq_iff i.token_digest d).1 digest) (ground (arith, opened, project))))

removed_event : OwnerMutationInput → Uuid → RecordAuditInput
removed_event input user_id = record (audit viewer_removed input.owner_user_id input.project_id) {
  subject_user_id = some user_id;
  request_id = some input.request_id;
}

remove_viewer_body-eq-ok :
    (input : OwnerMutationInput) (user_id : Uuid) (at : Date) (db : Db) (u : Unit {0}) (db' : Db)
    → remove_viewer_body input user_id at db ≡ ok (u, db')
    → (is_some (find (is_removable input.project_id user_id) db.memberships) ≡ true)
      × (db'.memberships ≡ delete (is_removable input.project_id user_id) db.memberships)
unfolding remove_viewer_body require_owner removed_event
remove_viewer_body-eq-ok input user_id at db u db' h =
    let (u1, db1, h1, k1) =
      continue-eq-ok (require_owner input.owner_user_id input.project_id db) _ h in
    let (owned, same1) = require-eq-ok _ project_not_found db u1 db1 h1 in
    let (u2, db2, h2, k2) =
      continue-eq-ok
        (require (is_some (find (is_removable input.project_id user_id) db1.memberships))
          member_not_found db1)
        _ k1 in
    let (found, same2) = require-eq-ok _ member_not_found db1 u2 db2 h2 in
    let db3 = record db2 {
      memberships = delete (is_removable input.project_id user_id) db2.memberships;
    } in
    (
      subst
          (λ (d : Db). is_some (find (is_removable input.project_id user_id) d.memberships) ≡ true)
          (sym same1) found,
      (record_audit-eq-ok (removed_event input user_id) at db3 u db' k2).1
          ∙ ap (λ (d : Db). delete (is_removable input.project_id user_id) d.memberships)
              (sym (same1 ∙ same2)),
    )

-- The removal of a viewer that succeeds found one, and leaves no viewer with the user's id in the
-- project.
pub remove_viewer-gone :
    (input : OwnerMutationInput) (user_id : Uuid) (now : Option Date) (at : Date) (db db' : Db)
    → remove_viewer input user_id now at db ≡ (ok tt, db')
    → (is_some (find (is_removable input.project_id user_id) db.memberships) ≡ true)
      × (find (is_removable input.project_id user_id) db'.memberships ≡ none)
unfolding remove_viewer
remove_viewer-gone input user_id none at db db' h = absurd (ground arith)
remove_viewer-gone input user_id (some t) at db db' h =
    let (found, changed) = remove_viewer_body-eq-ok input user_id at db tt db' (
      transaction-eq-ok (remove_viewer_body input user_id at) db (
        otherwise-eq-ok control_unavailable (transaction (remove_viewer_body input user_id at) db)
          tt db' h)) in
    (found, rw changed (find-delete (is_removable input.project_id user_id) db.memberships))
