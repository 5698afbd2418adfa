-- ===== src/Agents/Register/Again.antt =====
-- Registering a session again, with the same profile or another one.
use agentmesh_mcp.Prelude.{
  ◌≡◌, refl, inl, inr, true, Option, some, List, Text, ==_refl, find, find-true, find-Row,
  find-Unique, find-update_found, update, arith, order_by,
}
use agentmesh_mcp.Schema.{Uuid, Date, Agent, Db, AgentMeshErrorCode}
use agentmesh_mcp.Transaction.{Result, ok, err, code, internal, transaction-eq-ok}
use agentmesh_mcp.Activity.{OperationContext, record_activity}
use agentmesh_mcp.Auth.AgentToken.{Signer, digest_registration_id, derive_agent_token}
use agentmesh_mcp.Agents.Presence.{RegisterInput, public_agent}
use agentmesh_mcp.Agents.Authentication.{is_agent, same_id}
use agentmesh_mcp.Agents.Register.{
  is_registration, seen, text_le, or_crash, reuse, insert_or_reuse, registered_event, register_body,
  fresh_agent, Registered, finish_register, register_agent,
}
use agentmesh_mcp.Agents.Register.Cases.{register_body-cases}
use agentmesh_mcp.Agents.Register.Keyed.{
  IsKeyed, IsRegistered, register_body-IsKeyed, Inserted-IsRegistered, Reused-IsRegistered,
}

module _ (p : Uuid) (digest : Text) (input : RegisterInput) (capabilities : List Text) where
  -- A success leaves the session registered.
  pub register_body-IsRegistered :
      (context : OperationContext) (token_id : Option Uuid) (now : Date) (id : Uuid) (agent : Agent)
      (db db' : Db)
      → register_body context input capabilities
          (fresh_agent p token_id digest input capabilities now id)
          db
        ≡ ok (agent, db')
      → IsKeyed db.agents
      → IsRegistered input capabilities p digest db'.agents agent
  register_body-IsRegistered context token_id now id agent db db' h k =
      let fresh = fresh_agent p token_id digest input capabilities now id in
      elim (register_body-cases context input capabilities fresh agent db db' h) [
        | inl i ↦
            Inserted-IsRegistered p token_id digest input capabilities now id agent db.agents
              db'.agents i
        | inr r ↦ Reused-IsRegistered r k
      ]

  module _ {agents : List Agent} {agent : Agent}
      (r : IsRegistered input capabilities p digest agents agent) where
    is_registered_agent : is_agent p agent.id agent ≡ true
    is_registered_agent =
        ground (arith, find-true (is_registration p digest) agents agent r.found, ==_refl agent.id)

    find-registered : IsKeyed agents → find (is_agent p agent.id) agents ≡ some agent
    find-registered k =
        find-Unique same_id (is_agent p agent.id) agents agent (λ y z hy hz. ground arith) k.ids
          (find-Row (is_registration p digest) agents agent r.found) is_registered_agent

  abbrev pub touch : Uuid → Date → Db → Db
  touch id now db = record db { agents = update (is_agent p id) (seen now) db.agents }

  find-touched :
      (agent : Agent) (now : Date) (db : Db)
      → IsRegistered input capabilities p digest db.agents agent
      → IsKeyed db.agents
      → find (is_agent p agent.id) (update (is_agent p agent.id) (seen now) db.agents)
        ≡ some (seen now agent)
  unfolding seen
  find-touched agent now db r k =
      (find-update_found (is_agent p agent.id) (is_agent p agent.id) (seen now) db.agents agent
        (λ y. refl) (find-registered r k) (is_registered_agent r))

  reuse-registered :
      (fresh agent : Agent) (db : Db)
      → fresh.project_id ≡ p
      → IsRegistered input capabilities p digest db.agents agent
      → IsKeyed db.agents
      → reuse input capabilities fresh agent db
        ≡ ok (seen fresh.last_seen_at agent, touch agent.id fresh.last_seen_at db)
  unfolding reuse or_crash
  reuse-registered fresh agent db same r k =
      rw r.profile (rw same (rw (find-touched agent fresh.last_seen_at db r k)))

  -- A registered session is found again, and its row is seen now.
  pub register_body-again :
      (context : OperationContext) (token_id : Option Uuid) (now : Date) (id : Uuid) (agent : Agent)
      (db : Db)
      → IsRegistered input capabilities p digest db.agents agent
      → IsKeyed db.agents
      → register_body context input capabilities
          (fresh_agent p token_id digest input capabilities now id)
          db
        ≡ ok (
          seen now agent,
          record_activity context (registered_event p (seen now agent)) (touch agent.id now db),
        )
  unfolding register_body insert_or_reuse
  register_body-again context token_id now id agent db r k = rw r.found (
      rw (
        reuse-registered (fresh_agent p token_id digest input capabilities now id) agent db refl r
          k))

-- What a successful call was made of.
finish_register-eq-ok :
    (s : Signer) (p : Uuid) (context : OperationContext)
    (settled : Result AgentMeshErrorCode Agent × Db) (r : Registered) (db' : Db)
    → finish_register s p context settled ≡ (ok r, db')
    → (agent : Agent) × (settled ≡ (ok agent, db'))
      × (derive_agent_token s p agent.id agent.registration_digest ≡ some r.agent_token)
      × (r.agent ≡ public_agent agent agent.id context.now)
unfolding finish_register
finish_register-eq-ok s p context (ok agent, db) r db' h =
    (agent, ground arith, ground arith, ground arith)
finish_register-eq-ok s p context (err (code c), db) r db' h = absurd (ground arith)
finish_register-eq-ok s p context (err internal, db) r db' h = absurd (ground arith)

module _ (s : Signer) (p : Uuid) (input : RegisterInput) where
  -- What a successful registration returns and leaves behind.
  pub register_agent-eq-ok :
      (context : OperationContext) (token_id : Option Uuid) (id : Uuid) (db db' : Db)
      (r : Registered)
      → register_agent s p input context token_id id db ≡ (ok r, db')
      → IsKeyed db.agents
      → (agent : Agent) × IsRegistered input
          (order_by text_le input.capabilities)
          p
          (digest_registration_id s p input.session_instance_id)
          db'.agents
          agent
        × IsKeyed db'.agents
        × (derive_agent_token s p agent.id agent.registration_digest ≡ some r.agent_token)
        × (r.agent ≡ public_agent agent agent.id context.now)
  unfolding register_agent
  register_agent-eq-ok context token_id id db db' r h k =
      let capabilities = order_by text_le input.capabilities in
      let digest = digest_registration_id s p input.session_instance_id in
      let fresh = fresh_agent p token_id digest input capabilities context.now id in
      let (agent, settled, derived, shown) = finish_register-eq-ok s p context _ r db' h in
      let body = transaction-eq-ok (register_body context input capabilities fresh) db settled in
      (
        agent,
        register_body-IsRegistered p digest input capabilities context token_id context.now id agent
            db db' body k,
        register_body-IsKeyed context input capabilities fresh agent db db' body k,
        derived,
        shown,
      )
