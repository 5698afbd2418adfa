-- ===== src/Agents/Register/Laws.antt =====
-- What registration promises its callers.
use agentmesh_mcp.Prelude.{
  ◌≤◌, ◌<◌, ◌^◌, ◌≡◌, refl, true, false, Option, some, find, arith, length, length-update, order_by,
  find-Row, find-true, Row,
}
use agentmesh_mcp.Schema.{
  Uuid, Agent, Db, registration_conflict, agent_registration_failed, failure,
}
use agentmesh_mcp.Transaction.{ok, err, code}
use agentmesh_mcp.Activity.{OperationContext, activity, record_activity}
use mathlib.Core.Path.{subst}
use agentmesh_mcp.Auth.Uuid.{uuid_text}
use agentmesh_mcp.Auth.Pattern.{matches, uuid_v4_pattern, base64url_43}
use agentmesh_mcp.Auth.AgentToken.{Signer, digest_registration_id, agent_mac}
use agentmesh_mcp.Agents.Presence.{RegisterInput, same_profile, public_agent}
use agentmesh_mcp.Agents.Authentication.{authenticate_agent, authenticate-derive_agent_token}
use agentmesh_mcp.Agents.Register.{
  is_registration, seen, text_le, reuse, insert_or_reuse, registered_event, Registered,
  register_agent,
}
use agentmesh_mcp.Agents.Register.Keyed.{IsKeyed}
use agentmesh_mcp.Agents.Register.Again.{touch, register_body-again, register_agent-eq-ok}

-- From a table with its keys intact, a session that registered successfully and registers again
-- with the same input, later and over any connection, gets the same agent id and the same token
-- again, and the table of agents does not grow.
pub register_agent_idempotent :
    (s : Signer) (p : Uuid) (input : RegisterInput) (context context' : OperationContext)
    (token_id token_id' : Option Uuid) (id id' : Uuid) (db db' : Db) (r : Registered)
    → register_agent s p input context token_id id db ≡ (ok r, db')
    → IsKeyed db.agents
    → (r' : Registered) × (db'' : Db) × (register_agent s p input context' token_id' id' db'
        ≡ (ok r', db''))
      × (r'.agent_token ≡ r.agent_token)
      × (r'.agent.id ≡ r.agent.id)
      × (length db''.agents ≡ length db'.agents)
unfolding register_agent seen public_agent
register_agent_idempotent s p input context context' token_id token_id' id id' db db' r h k =
    let (agent, registered, k', derived, shown) =
      register_agent-eq-ok s p input context token_id id db db' r h k in
    let again =
      register_body-again p (digest_registration_id s p input.session_instance_id) input
        (order_by text_le input.capabilities) context' token_id' context'.now id' agent db'
        registered k' in
    (
      record {
        agent = public_agent (seen context'.now agent) agent.id context'.now;
        agent_token = r.agent_token;
      },
      record_activity context' (registered_event p (seen context'.now agent)) (
          touch p (digest_registration_id s p input.session_instance_id) input
            (order_by text_le input.capabilities) agent.id context'.now db'),
      rw again (rw derived refl),
      refl,
      ground arith,
      length-update _ _ db'.agents,
    )

-- Where the session is registered with another profile, registration fails with
-- REGISTRATION_CONFLICT: no table changes but the log, which gains the failure.
pub register_agent_conflict :
    (s : Signer) (p : Uuid) (input : RegisterInput) (context : OperationContext)
    (token_id : Option Uuid) (id : Uuid) (db : Db) (existing : Agent)
    → find (is_registration p (digest_registration_id s p input.session_instance_id)) db.agents
      ≡ some existing
    → same_profile existing input (order_by text_le input.capabilities) ≡ false
    → register_agent s p input context token_id id db ≡ (
      err (code registration_conflict),
      record_activity context
          (record (activity p agent_registration_failed failure) {
            error_code = some registration_conflict;
          })
          db,
    )
unfolding register_agent insert_or_reuse reuse
register_agent_conflict s p input context token_id id db existing found other =
    rw found (rw other refl)

-- The token that a registration returns authenticates the registered agent, where ids are below
-- 2^128 and of version 4, the key has 32 bytes, digests have 32 bytes and MACs 43 characters.
pub authenticate-register_agent :
    (s : Signer) (p : Uuid) (input : RegisterInput) (context : OperationContext)
    (token_id : Option Uuid) (id : Uuid) (db db' : Db) (r : Registered)
    → register_agent s p input context token_id id db ≡ (ok r, db')
    → IsKeyed db.agents
    → 32 ≤ length s.signing_key
    → ((a : Agent)
        → Row a db'.agents
        → (a.id < 2 ^ 128)
          × (length a.registration_digest ≡ 32)
          × (matches uuid_v4_pattern (uuid_text a.id) ≡ true)
          × (matches base64url_43 (agent_mac s a.project_id a.id a.registration_digest) ≡ true))
    → (agent : Agent) × (authenticate_agent s p r.agent_token db'.agents ≡ ok agent)
      × (agent.id ≡ r.agent.id)
unfolding public_agent
authenticate-register_agent s p input context token_id id db db' r h k key good =
    let (agent, registered, k', derived, shown) =
      register_agent-eq-ok s p input context token_id id db db' r h k in
    let row = find-Row _ db'.agents agent registered.found in
    let (bound, d, v4, mac) = good agent row in
    let same : agent.project_id ≡ p =
      ground (arith, find-true _ db'.agents agent registered.found) in
    (
      agent,
      subst (λ q. authenticate_agent s q r.agent_token db'.agents ≡ ok agent) same
          (authenticate-derive_agent_token s r.agent_token db'.agents agent k'.ids row bound key d
            v4 mac (rw same derived)),
      ground arith,
    )
