-- ===== src/Agents/Register.antt =====
-- `registerAgent`. The id that `randomUUID` gives is an argument.
pub mod Cases
pub mod Keyed
pub mod Again
pub mod Laws
use agentmesh_mcp.Prelude.{
  ℕ, ◌≡◌, refl, Bool, true, false, not, ◌&&◌, ◌||◌, Option, none, some, List, [], ◌∷◌, ◌++◌, Text,
  text_eq, ◌==◌, leb, ltb, if◌then◌else◌, find, update, order_by, arith, is_some,
}
use agentmesh_mcp.Schema.{
  Uuid, Date, Agent, Db, AgentMeshErrorCode, agent_auth_invalid, registration_conflict,
  agent_registered, agent_registration_failed, success, failure,
}
use agentmesh_mcp.Transaction.{
  Result, ok, err, Failure, code, internal, Tx, pure, throw, crash, write, ◌>>=◌, ◌>>◌, transaction,
}
use agentmesh_mcp.Activity.{
  OperationContext, RecordActivityInput, activity, activity_event, record_activity,
}
use agentmesh_mcp.Auth.AgentToken.{Signer, digest_registration_id, derive_agent_token}
use agentmesh_mcp.Agents.Presence.{PublicAgent, public_agent, RegisterInput, same_profile}
use agentmesh_mcp.Agents.Authentication.{is_agent, same_id}

-- The order of `toSorted` on texts, which compares code units.
unfoldable pub text_le : Text → Text → Bool
text_le [] t = true
text_le (x ∷ s) [] = false
text_le (x ∷ s) (y ∷ t) = ltb x y || ((x == y) && text_le s t)

-- The unique constraint on the project and the registration digest.
abbrev pub is_registration : Uuid → Text → Agent → Bool
is_registration project_id digest agent =
    agent.project_id == project_id && text_eq agent.registration_digest digest

unfoldable pub seen : Date → Agent → Agent
seen now agent = record agent { last_seen_at = now }

-- INSERT: a second row with one primary key throws.
unfoldable pub insert_agent : Agent → Tx AgentMeshErrorCode Agent
insert_agent agent db =
    if is_some (find (same_id agent) db.agents)
    then err internal
    else ok (agent, record db { agents = db.agents ++ agent ∷ [] })

-- UPDATE … RETURNING of one agent.
unfoldable pub refresh : Uuid → Uuid → Date → Tx AgentMeshErrorCode (Option Agent)
unfolding seen
refresh project_id id now db =
    let agents = update (is_agent project_id id) (seen now) db.agents in
    ok (find (is_agent project_id id) agents, record db { agents = agents })

-- "Registered agent disappeared during refresh"
unfoldable pub or_crash : Option Agent → Tx AgentMeshErrorCode Agent
or_crash none = crash
or_crash (some agent) = pure agent

unfoldable pub reuse : RegisterInput → List Text → Agent → Agent → Tx AgentMeshErrorCode Agent
unfolding or_crash refresh
reuse input capabilities fresh existing db =
    if not (same_profile existing input capabilities)
    then err (code registration_conflict)
    else (refresh fresh.project_id existing.id fresh.last_seen_at >>= or_crash) db

-- INSERT … ON CONFLICT DO NOTHING, and what follows a conflict.
unfoldable pub insert_or_reuse :
    RegisterInput → List Text → Agent → Option Agent → Tx AgentMeshErrorCode Agent
unfolding insert_agent reuse
insert_or_reuse input capabilities fresh none = insert_agent fresh
insert_or_reuse input capabilities fresh (some existing) = reuse input capabilities fresh existing

abbrev pub fresh_agent : Uuid → Option Uuid → Text → RegisterInput → List Text → Date → Uuid → Agent
fresh_agent project_id token_id digest input capabilities now id = record {
  id = id;
  project_id = project_id;
  registered_via_token_id = token_id;
  registration_digest = digest;
  name = input.name;
  client = input.client;
  capabilities = capabilities;
  last_seen_at = now;
  created_at = now;
}

abbrev pub registered_event : Uuid → Agent → RecordActivityInput
registered_event project_id agent = record (activity project_id agent_registered success) {
  actor_agent_id = some agent.id;
}

-- The body of the transaction.
unfoldable pub register_body :
    OperationContext → RegisterInput → List Text → Agent → Tx AgentMeshErrorCode Agent
unfolding insert_or_reuse
register_body context input capabilities fresh db =
    (do
      agent ←
          insert_or_reuse input capabilities fresh
            (find (is_registration fresh.project_id fresh.registration_digest) db.agents)
      write (record_activity context (registered_event fresh.project_id agent))
      pure agent)
      db

pub record Registered : Type 0 where
  pub agent : PublicAgent
  pub agent_token : Text

unfoldable pub issue_token :
    Signer → Uuid → Agent → Date → Option Text → Result AgentMeshErrorCode Registered
issue_token s project_id agent now none = err internal
issue_token s project_id agent now (some token) =
    ok (record { agent = public_agent agent agent.id now; agent_token = token })

-- After the transaction: the reply, or the failure event of a domain error.
unfoldable pub finish_register :
    Signer
    → Uuid
    → OperationContext
    → Result AgentMeshErrorCode Agent × Db
    → Result AgentMeshErrorCode Registered × Db
unfolding issue_token
finish_register s project_id context (ok agent, db) = (
  issue_token s project_id agent context.now
      (derive_agent_token s project_id agent.id agent.registration_digest),
  db,
)
finish_register s project_id context (err (code c), db) = (
  err (code c),
  record_activity context
      (record (activity project_id agent_registration_failed failure) { error_code = some c }) db,
)
finish_register s project_id context (err internal, db) = (err internal, db)

unfoldable pub register_agent :
    Signer
    → Uuid
    → RegisterInput
    → OperationContext
    → Option Uuid
    → Uuid
    → Db
    → Result AgentMeshErrorCode Registered × Db
unfolding finish_register register_body transaction text_le
register_agent s project_id input context token_id id db =
    let capabilities = order_by text_le input.capabilities in
    let digest = digest_registration_id s project_id input.session_instance_id in
    let fresh = fresh_agent project_id token_id digest input capabilities context.now id in
    finish_register s project_id context
      (transaction (register_body context input capabilities fresh) db)
