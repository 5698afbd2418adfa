-- ===== src/Tests/Agents.antt =====
-- Registration, tokens and their verification.
use agentmesh_mcp.Prelude.{
  ◌≡◌, ◌↔◌, refl, true, none, some, [], ◌∷◌, length, Text, codes, Row, arith,
}
use agentmesh_mcp.Schema.{Uuid, Date, Agent, Db}
use agentmesh_mcp.Transaction.{ok}
use agentmesh_mcp.Auth.AgentToken.{digest_registration_id, derive_agent_token, verify_agent_token}
use agentmesh_mcp.Auth.ProjectToken.{create_project_token, verify_project_token}
use agentmesh_mcp.Auth.RoundTrip.{verify_agent_token_iff, verify-create_project_token}
use agentmesh_mcp.Agents.Presence.{online, RegisterInput, public_agent, presence_at, same_profile}
use agentmesh_mcp.Agents.Authentication.{authenticate_agent_sound}
use agentmesh_mcp.Agents.Register.{register_agent, Registered}
use agentmesh_mcp.Agents.Register.Laws.{register_agent_idempotent}
use agentmesh_mcp.Agents.Register.Keyed.{IsKeyed}
use agentmesh_mcp.Tests.Data.{
  signer, project, ann_id, token_of, ann, start, context, authentication, queries, is_ann, repeat,
  later,
}

verify_agent_token_iff_example :
    (verify_agent_token signer (token_of ann_id) project ann_id ann.registration_digest ≡ some true)
    ↔ (derive_agent_token signer project ann_id ann.registration_digest ≡ some (token_of ann_id))
unfolding authentication
verify_agent_token_iff_example =
    verify_agent_token_iff signer (token_of ann_id) project ann_id ann.registration_digest
      (omega arith) refl refl refl

verify-create_project_token_example :
    (verify_project_token
        (λ t. t)
        (create_project_token (λ t. t) ann_id (repeat 43 b'A')).token
        (codes "x")
      ≡ true)
    ↔ ((create_project_token (λ t. t) ann_id (repeat 43 b'A')).digest ≡ codes "x")
unfolding authentication
verify-create_project_token_example =
    verify-create_project_token (λ t. t) ann_id (repeat 43 b'A') (codes "x") refl refl

authenticate_agent_sound_example :
    Row ann start.agents
    × (ann.project_id ≡ project)
    × (verify_agent_token signer (token_of ann_id) project ann_id ann.registration_digest
        ≡ some true)
authenticate_agent_sound_example =
    authenticate_agent_sound signer project (token_of ann_id) start.agents ann is_ann

abbrev eve : RegisterInput
eve = record {
  session_instance_id = codes "c3b0f0a2-7a51-4d1e-9a51-000000000001";
  name = codes "eve";
  client = codes "cli";
  capabilities = codes "test" ∷ codes "build" ∷ [];
}

abbrev eve_id : Uuid
eve_id = 302240678275694148452357

unfoldable registering : Unit {0}
unfolding queries register_agent digest_registration_id same_profile public_agent presence_at
registering = tt

keyed : IsKeyed start.agents
unfolding queries
keyed = record { ids = ((refl, tt), (tt, tt)); registrations = ((refl, tt), (tt, tt)) }

abbrev registered_db : Db
registered_db = (register_agent signer project eve context none eve_id start).1

abbrev eve_token : Text
eve_token = token_of eve_id

abbrev eve_seen : Date → Registered
eve_seen t = record {
  agent = record {
    id = eve_id;
    name = codes "eve";
    client = codes "cli";
    capabilities = codes "build" ∷ codes "test" ∷ [];
    status = online;
    is_self = true;
    last_seen_at = t;
  };
  agent_token = eve_token;
}

eve_registers :
    register_agent signer project eve context none eve_id start
    ≡ (ok (eve_seen 2000), registered_db)
unfolding registering
eve_registers = refl

register_agent_idempotent_example :
    (r' : Registered) × (db'' : Db) × (register_agent signer project eve later none 9 registered_db
      ≡ (ok r', db''))
    × (r'.agent_token ≡ eve_token)
    × (r'.agent.id ≡ eve_id)
    × (length db''.agents ≡ length registered_db.agents)
register_agent_idempotent_example =
    register_agent_idempotent signer project eve context later none none eve_id 9 start
      registered_db (eve_seen 2000) eve_registers keyed

abbrev renamed : RegisterInput
renamed = record eve { name = codes "mallory" }

abbrev eve_row : Agent
eve_row = record {
  id = eve_id;
  project_id = project;
  registered_via_token_id = none;
  registration_digest = digest_registration_id signer project eve.session_instance_id;
  name = codes "eve";
  client = codes "cli";
  capabilities = codes "build" ∷ codes "test" ∷ [];
  last_seen_at = 2000;
  created_at = 2000;
}
