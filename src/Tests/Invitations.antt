-- ===== src/Tests/Invitations.antt =====
-- Invitations to a project and its viewers.
use agentmesh_mcp.Prelude.{All, ◌≡◌, refl, false, none, some, [], ◌∷◌, Text, codes, here}
use agentmesh_mcp.Schema.{Uuid, Db, Project, active, Invitation}
use agentmesh_mcp.Transaction.{ok, err, code, transaction}
use agentmesh_mcp.Audit.{
  record_audit, audit_event, attributed_metadata, valid_attribution, is_v4, safe_uuid, safe_actor,
  safe_request_id,
}
use agentmesh_mcp.Agents.Presence.{presence_at}
use agentmesh_mcp.Control.Membership.{
  OwnerMutationInput, RedeemInput, invitation_unavailable, is_open, redeem, redeem_body,
  redeem_found, claim_invitation, insert_viewer, revoke_invitation, revoke_invitation_body,
  remove_viewer, remove_viewer_body, require_owner, is_viewer,
}
use agentmesh_mcp.Control.Membership.Once.{redeem-once, redeem-revoke_invitation}
use agentmesh_mcp.Control.Membership.Listing.{shows_viewer, member_list, member_list-remove_viewer}
use agentmesh_mcp.Tests.Data.{project, start, queries, repeat}

unfoldable web : Unit {0}
unfolding queries record_audit audit_event attributed_metadata valid_attribution is_v4 safe_uuid
    safe_actor safe_request_id presence_at is_open redeem redeem_body redeem_found claim_invitation
    insert_viewer revoke_invitation revoke_invitation_body remove_viewer remove_viewer_body
    require_owner is_viewer transaction
web = tt

abbrev olga : Uuid
olga = 302240678275694148452353

abbrev vera : Uuid
vera = 302240678275694148452354

abbrev the_project : Project
the_project = record {
  id = project;
  owner_user_id = some olga;
  name = codes "mesh";
  description = none;
  status = active;
  archived_at = none;
  create_idempotency_key = none;
  created_at = 0;
  updated_at = 0;
}

abbrev raw_token : Text
raw_token = repeat 43 b'x'

abbrev invitation : Invitation
invitation = record {
  id = 21;
  project_id = project;
  token_digest = raw_token;
  created_by = olga;
  expires_at = 9000;
  redeemed_by = none;
  redeemed_at = none;
  revoked_at = none;
  created_at = 100;
  updated_at = 100;
}

abbrev invited : Db
invited = record start { projects = the_project ∷ []; invitations = invitation ∷ [] }

abbrev by_vera : RedeemInput
by_vera = record { user_id = vera; raw_token = raw_token; request_id = codes "r1" }

abbrev redeemed_db : Db
redeemed_db = (redeem (λ t. t) by_vera (some 5000) 31 5000 invited).1

redeems : redeem (λ t. t) by_vera (some 5000) 31 5000 invited ≡ (ok project, redeemed_db)
unfolding web
redeems = refl

abbrev by_walt : RedeemInput
by_walt = record by_vera { user_id = 99 }

redeem-once_example :
    redeem (λ t. t) by_walt (some 6000) 32 6000 redeemed_db
    ≡ (err (code invitation_unavailable), redeemed_db)
redeem-once_example =
    redeem-once (λ t. t) by_vera by_walt (some 5000) (some 6000) 31 32 5000 6000 project invited
      redeemed_db (tt, tt) redeems refl

abbrev by_olga : OwnerMutationInput
by_olga = record { owner_user_id = olga; project_id = project; request_id = codes "r2" }

abbrev revoked_db : Db
revoked_db = (revoke_invitation by_olga 21 (some 5000) 5000 invited).1

revokes : revoke_invitation by_olga 21 (some 5000) 5000 invited ≡ (ok tt, revoked_db)
unfolding web
revokes = refl

redeem-revoke_invitation_example :
    redeem (λ t. t) by_vera (some 6000) 31 6000 revoked_db
    ≡ (err (code invitation_unavailable), revoked_db)
unfolding web
redeem-revoke_invitation_example =
    redeem-revoke_invitation (λ t. t) by_olga 5000 5000 invitation by_vera (some 6000) 31 6000
      invited revoked_db (tt, tt) here refl refl refl revokes

abbrev removed_db : Db
removed_db = (remove_viewer by_olga vera (some 7000) 7000 redeemed_db).1

removes : remove_viewer by_olga vera (some 7000) 7000 redeemed_db ≡ (ok tt, removed_db)
unfolding web
removes = refl

member_list-remove_viewer_example :
    All (λ m. shows_viewer vera m ≡ false) (member_list project 8000 removed_db).members
member_list-remove_viewer_example =
    member_list-remove_viewer by_olga vera (some 7000) 7000 8000 redeemed_db removed_db removes
