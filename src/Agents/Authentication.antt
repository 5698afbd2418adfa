-- ===== src/Agents/Authentication.antt =====
-- `authenticateAgent`, and the interface through which the other services use it.
use agentmesh_mcp.Prelude.{
  ◌≤◌, ◌<◌, ◌^◌, ◌≡◌, refl, Bool, true, false, ◌&&◌, Option, none, some, List, Text, ◌==◌, Row,
  find, find-Row, find-true, find-Unique, Unique, length, arith,
}
use agentmesh_mcp.Schema.{Uuid, Agent, AgentMeshErrorCode, agent_auth_invalid}
use agentmesh_mcp.Transaction.{Result, ok, err, code, internal}
use agentmesh_mcp.Auth.Uuid.{uuid_value, uuid_text}
use agentmesh_mcp.Auth.Pattern.{matches, uuid_v4_pattern, base64url_43}
use agentmesh_mcp.Auth.AgentToken.{
  Signer, parse_agent_token, derive_agent_token, agent_mac, verify_agent_token,
}
use agentmesh_mcp.Auth.RoundTrip.{verify_agent_token_iff, parse-derive_agent_token}

-- eq(agents.projectId, projectId) and eq(agents.id, id)
abbrev pub is_agent : Uuid → Uuid → Agent → Bool
is_agent project_id id agent = agent.project_id == project_id && agent.id == id

accept : Agent → Option Bool → Result AgentMeshErrorCode Agent
accept agent none = err internal
accept agent (some false) = err (code agent_auth_invalid)
accept agent (some true) = ok agent

verify_found : Signer → Uuid → Text → Option Agent → Result AgentMeshErrorCode Agent
verify_found s project_id token none = err (code agent_auth_invalid)
verify_found s project_id token (some agent) =
    accept agent (verify_agent_token s token project_id agent.id agent.registration_digest)

find_parsed : Signer → Uuid → Text → List Agent → Option Text → Result AgentMeshErrorCode Agent
find_parsed s project_id token agents none = err (code agent_auth_invalid)
find_parsed s project_id token agents (some id) =
    verify_found s project_id token (find (is_agent project_id (uuid_value id)) agents)

unfoldable pub authenticate_agent :
    Signer → Uuid → Text → List Agent → Result AgentMeshErrorCode Agent
unfolding find_parsed verify_found accept
authenticate_agent s project_id token agents =
    find_parsed s project_id token agents (parse_agent_token token)

-- `Pick<AgentService, "authenticateAgent">`: what the other services are given, and rely on.
pub record Authenticator : Type 0 where
  pub authenticate : Uuid → Text → List Agent → Result AgentMeshErrorCode Agent
  pub authenticate_sound :
      (project_id : Uuid) (token : Text) (agents : List Agent) (a : Agent)
      → authenticate project_id token agents ≡ ok a
      → Row a agents × (a.project_id ≡ project_id)

accept-eq-ok :
    (agent a : Agent) (o : Option Bool) → accept agent o ≡ ok a → (agent ≡ a) × (o ≡ some true)
unfolding accept
accept-eq-ok agent a o h = ground arith

find_parsed-eq-ok :
    (s : Signer) (p : Uuid) (token : Text) (agents : List Agent) (a : Agent) (o : Option Text)
    → find_parsed s p token agents o ≡ ok a
    → Row a agents
      × (a.project_id ≡ p)
      × (verify_agent_token s token p a.id a.registration_digest ≡ some true)
unfolding find_parsed verify_found
find_parsed-eq-ok s p token agents a none h = cc
find_parsed-eq-ok s p token agents a (some id) h =
    found (find (is_agent p (uuid_value id)) agents) refl h
  where
    found :
        (o : Option Agent)
        → find (is_agent p (uuid_value id)) agents ≡ o
        → verify_found s p token o ≡ ok a
        → Row a agents
          × (a.project_id ≡ p)
          × (verify_agent_token s token p a.id a.registration_digest ≡ some true)
    found none e k = cc
    found (some b) e k =
        let (same, verified) = accept-eq-ok b a _ k in
        let passes = find-true (is_agent p (uuid_value id)) agents b e in
        rw (← same) (find-Row (is_agent p (uuid_value id)) agents b e, ground (arith), verified)

-- An agent that was authenticated is registered in the project, and the token carries the MAC of
-- its own registration.
pub authenticate_agent_sound :
    (s : Signer) (p : Uuid) (token : Text) (agents : List Agent) (a : Agent)
    → authenticate_agent s p token agents ≡ ok a
    → Row a agents
      × (a.project_id ≡ p)
      × (verify_agent_token s token p a.id a.registration_digest ≡ some true)
unfolding authenticate_agent
authenticate_agent_sound s p token agents a h =
    find_parsed-eq-ok s p token agents a (parse_agent_token token) h

abbrev pub agent_authenticator : Signer → Authenticator
agent_authenticator s = record {
  authenticate = authenticate_agent s;
  authenticate_sound = λ p token agents a h.
      let (row, same, _) = authenticate_agent_sound s p token agents a h in (row, same);
}

-- Two agents with one primary key.
abbrev pub same_id : Agent → Agent → Bool
same_id a b = a.id == b.id

-- Where ids are unique, a registered agent with a version 4 id, a digest of 32 bytes and a MAC of
-- 43 base64url characters is authenticated by the token derived for it.
pub authenticate-derive_agent_token :
    (s : Signer) (token : Text) (agents : List Agent) (a : Agent)
    → Unique same_id agents
    → Row a agents
    → a.id < 2 ^ 128
    → 32 ≤ length s.signing_key
    → length a.registration_digest ≡ 32
    → matches uuid_v4_pattern (uuid_text a.id) ≡ true
    → matches base64url_43 (agent_mac s a.project_id a.id a.registration_digest) ≡ true
    → derive_agent_token s a.project_id a.id a.registration_digest ≡ some token
    → authenticate_agent s a.project_id token agents ≡ ok a
unfolding authenticate_agent
authenticate-derive_agent_token s token agents a u r bound key d h k e =
    let (id, parsed, value) =
      parse-derive_agent_token s token a.project_id a.id a.registration_digest bound h k e in
    let verified =
      (verify_agent_token_iff s token a.project_id a.id a.registration_digest key d h k).1 e in
    let found : find (is_agent a.project_id (uuid_value id)) agents ≡ some a =
      find-Unique same_id (is_agent a.project_id (uuid_value id)) agents a
        (λ y z hy hz. ground arith) u r (ground arith) in
    rw parsed (rw found (rw verified refl))
