-- ===== src/Control/Membership/Laws.antt =====
-- What redeeming an invitation does: it adds one viewer, and it works once.
use agentmesh_mcp.Prelude.{
  ◌≡◌, refl, sym, ap, ◌∙◌, Bool, true, false, not, Option, none, some, [], ◌∷◌, ◌++◌, Text, text_eq,
  text_eq_iff, find, update, find-true, find-Row, inl, inr, Bool-cases, Row, arith, if◌then◌else◌,
  and-true, not-true,
}
use mathlib.Core.Path.{subst}
use agentmesh_mcp.Schema.{Uuid, Date, Db, Invitation, invitation_redeemed}
use agentmesh_mcp.Transaction.{
  ok, err, code, continue-eq-ok, ok_inj, transaction, transaction-eq-ok, otherwise, otherwise-eq-ok,
  require, require-eq-ok,
}
use agentmesh_mcp.Audit.{RecordAuditInput, audit, record_audit}
use agentmesh_mcp.Auth.Pattern.{matches, base64url_43}
use agentmesh_mcp.Control.Membership.{
  ProjectMembershipErrorCode, invitation_unavailable, already_member, control_unavailable,
  RedeemInput, is_open, is_open_token, is_claimable, claimed, claim_invitation, insert_viewer,
  new_viewer, belongs, redeem_found, redeem_body, redeem,
}

-- The unique index on the digest.
abbrev pub same_digest : Invitation → Invitation → Bool
same_digest a b = text_eq a.token_digest b.token_digest

abbrev pub redeemed_event : RedeemInput → Invitation → RecordAuditInput
redeemed_event input i = record (audit invitation_redeemed input.user_id i.project_id) {
  request_id = some input.request_id;
  invitation_id = some i.id;
}

pub record_audit-eq-ok :
    (input : RecordAuditInput) (at : Date) (db : Db) (u : Unit {0}) (db' : Db)
    → record_audit {C = ProjectMembershipErrorCode} input at db ≡ ok (u, db')
    → (db'.invitations ≡ db.invitations)
      × (db'.memberships ≡ db.memberships)
      × (db'.projects ≡ db.projects)
unfolding record_audit
record_audit-eq-ok input at db u db' h = ground arith

claim_invitation-eq-ok :
    (id user_id : Uuid) (now : Date) (db : Db) (u : Unit {0}) (db' : Db)
    → claim_invitation id user_id now db ≡ ok (u, db')
    → (db'.invitations ≡ update (is_claimable id now) (claimed user_id now) db.invitations)
      × (db'.memberships ≡ db.memberships)
unfolding claim_invitation
claim_invitation-eq-ok id user_id now db u db' h = ground arith

pub redeem_found-eq-ok :
    (input : RedeemInput) (now : Date) (id : Uuid) (at : Date) (o : Option Invitation) (db : Db)
    (project_id : Uuid) (db' : Db)
    → redeem_found input now id at o db ≡ ok (project_id, db')
    → (i : Invitation) × (o ≡ some i)
      × (i.project_id ≡ project_id)
      × (belongs i.project_id input.user_id db ≡ false)
      × (db'.invitations
          ≡ update (is_claimable i.id now) (claimed input.user_id now) db.invitations)
      × (db'.memberships ≡ db.memberships ++ new_viewer i input.user_id now id ∷ [])
unfolding redeem_found insert_viewer
redeem_found-eq-ok input now id at none db project_id db' h = absurd (ground arith)
redeem_found-eq-ok input now id at (some i) db project_id db' h =
    let (u1, db1, h1, k1) =
      continue-eq-ok (require (not (belongs i.project_id input.user_id db)) already_member db) _
        h in
    let (fresh, same1) =
      require-eq-ok (not (belongs i.project_id input.user_id db)) already_member db u1 db1 h1 in
    let (u2, db2, h2, k2) = continue-eq-ok (claim_invitation i.id input.user_id now db1) _ k1 in
    let (claims, keeps) = claim_invitation-eq-ok i.id input.user_id now db1 u2 db2 h2 in
    let db3 = record db2 {
      memberships = db2.memberships ++ new_viewer i input.user_id now id ∷ [];
    } in
    let (u4, db4, h4, k4) = continue-eq-ok (record_audit (redeemed_event input i) at db3) _ k2 in
    let (audited, members, projects) =
      record_audit-eq-ok (redeemed_event input i) at db3 u4 db4 h4 in
    let (project, end) = ok_inj i.project_id project_id db4 db' k4 in
    (
      i,
      refl,
      project,
      not-true (belongs i.project_id input.user_id db) fresh,
      sym (ap (λ (d : Db). d.invitations) end)
          ∙ audited
          ∙ claims
          ∙ ap
              (λ (d : Db). update (is_claimable i.id now) (claimed input.user_id now) d.invitations)
              (sym same1),
      sym (ap (λ (d : Db). d.memberships) end)
          ∙ members
          ∙ ap (λ ms. ms ++ new_viewer i input.user_id now id ∷ []) keeps
          ∙ ap (λ (d : Db). d.memberships ++ new_viewer i input.user_id now id ∷ []) (sym same1),
    )

pub redeem-eq-ok :
    (sha256 : Text → Text) (input : RedeemInput) (now : Option Date) (id : Uuid) (at : Date)
    (db : Db) (project_id : Uuid) (db' : Db)
    → redeem sha256 input now id at db ≡ (ok project_id, db')
    → (t : Date) × (now ≡ some t) × (redeem_body sha256 input t id at db ≡ ok (project_id, db'))
unfolding redeem
redeem-eq-ok sha256 input none id at db project_id db' h = absurd (ground arith)
redeem-eq-ok sha256 input (some t) id at db project_id db' h =
    elim (Bool-cases (matches base64url_43 input.raw_token)) [
      | inl e ↦ (
        t,
        refl,
        transaction-eq-ok (redeem_body sha256 input t id at) db (
            otherwise-eq-ok control_unavailable (transaction (redeem_body sha256 input t id at) db)
              project_id db'
              (subst
                (λ b.
                  (if b
                    then otherwise control_unavailable
                        (transaction (redeem_body sha256 input t id at) db)
                    else (err (code invitation_unavailable), db))
                  ≡ (ok project_id, db'))
                e h)),
      )
      | inr e ↦ absurd (ground arith)
    ]

-- A redemption that succeeds was made before the invitation's expiry by a user who was no member
-- and no owner of the project; it adds one row to the memberships, that of a viewer of the
-- project that it returns, and the invitation that it used was open.
pub redeem-adds_viewer :
    (sha256 : Text → Text) (input : RedeemInput) (now : Option Date) (id : Uuid) (at : Date)
    (db : Db) (project_id : Uuid) (db' : Db)
    → redeem sha256 input now id at db ≡ (ok project_id, db')
    → (t : Date) × (now ≡ some t)
      × (i : Invitation) × Row i db.invitations
      × (i.token_digest ≡ sha256 input.raw_token)
      × (is_open t i ≡ true)
      × (i.project_id ≡ project_id)
      × (belongs project_id input.user_id db ≡ false)
      × (db'.memberships ≡ db.memberships ++ new_viewer i input.user_id t id ∷ [])
unfolding redeem_body
redeem-adds_viewer sha256 input now id at db project_id db' h =
    let (t, same, body) = redeem-eq-ok sha256 input now id at db project_id db' h in
    let q = is_open_token (sha256 input.raw_token) t in
    let (i, found, project, fresh, claims, added) =
      redeem_found-eq-ok input t id at (find q db.invitations) db project_id db' body in
    let (digest, opened) = and-true _ _ (find-true q db.invitations i found) in
    (
      t,
      same,
      i,
      find-Row q db.invitations i found,
      (text_eq_iff i.token_digest (sha256 input.raw_token)).0 digest,
      opened,
      project,
      subst (λ p. belongs p input.user_id db ≡ false) project fresh,
      added,
    )
