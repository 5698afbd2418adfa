-- ===== src/Agents/Presence.antt =====
-- `presenceAt`, `publicAgent` and `sameProfile`. `now - lastSeenAt` is negative for an agent seen
-- in the future; ℕ stops at 0, and both pass the same tests.
use agentmesh_mcp.Prelude.{
  ◌-◌, ◌*◌, Bool, ◌&&◌, List, Text, text_eq, texts_eq, leb, ◌==◌, if◌then◌else◌,
}
use agentmesh_mcp.Schema.{Uuid, Date, Agent}

pub data Presence : Type 0 where
  online idle offline : Presence

unfoldable pub presence_at : Date → Date → Presence
presence_at last_seen_at now =
    let elapsed = now - last_seen_at in
    if leb elapsed (5 * 60 * 1000)
    then online
    else if leb elapsed (30 * 60 * 1000)
    then idle
    else offline

pub record PublicAgent : Type 0 where
  pub id : Uuid
  pub name : Text
  pub client : Text
  pub capabilities : List Text
  pub status : Presence
  pub is_self : Bool
  pub last_seen_at : Date

unfoldable pub public_agent : Agent → Uuid → Date → PublicAgent
public_agent agent caller_id now = record {
  id = agent.id;
  name = agent.name;
  client = agent.client;
  capabilities = agent.capabilities;
  status = presence_at agent.last_seen_at now;
  is_self = agent.id == caller_id;
  last_seen_at = agent.last_seen_at;
}

pub record RegisterInput : Type 0 where
  pub session_instance_id : Text
  pub name : Text
  pub client : Text
  pub capabilities : List Text

unfoldable pub same_profile : Agent → RegisterInput → List Text → Bool
same_profile agent input capabilities =
    text_eq agent.name input.name
    && text_eq agent.client input.client
    && texts_eq agent.capabilities capabilities
