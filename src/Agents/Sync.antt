-- ===== src/Agents/Sync.antt =====
-- `syncAgent` and `listAgents`: the inbox. The ids of `acknowledge` are read as numbers, as the
-- database reads them.
pub mod Inbox
pub mod Laws
use agentmesh_mcp.Prelude.{
  ℕ, zero, suc, ◌+◌, ◌≡◌, refl, Bool, true, false, not, ◌&&◌, ◌||◌, Option, none, some, List, [],
  ◌∷◌, ◌++◌, map, Text, ◌==◌, leb, ltb, if◌then◌else◌, find, select, update, order_by, length, take,
  is_none,
}
use agentmesh_mcp.Schema.{
  Uuid, Date, Agent, Message, Db, AgentMeshErrorCode, agent_auth_invalid, agent_synced,
  message_acknowledged, success, failure, no_metadata,
}
use agentmesh_mcp.Transaction.{
  Result, ok, err, Failure, code, internal, Tx, pure, throw, write, ◌>>=◌, ◌>>◌, transaction,
}
use agentmesh_mcp.Activity.{
  OperationContext, RecordActivityInput, activity, record_activity, record_activities,
}
use agentmesh_mcp.Agents.Presence.{PublicAgent, public_agent}
use agentmesh_mcp.Agents.Authentication.{Authenticator}
use agentmesh_mcp.Agents.Register.{refresh}

pub record PollInput : Type 0 where
  pub agent_token : Text
  pub acknowledge : List Uuid
  pub limit : ℕ

pub record InboxMessage : Type 0 where
  pub id : Uuid
  pub sequence : ℕ
  pub from_agent_id : Uuid
  pub text : Text
  pub created_at : Date

pub record Synced : Type 0 where
  pub agent : PublicAgent
  pub acknowledged : ℕ
  pub messages : List InboxMessage
  pub has_more : Bool

unfoldable pub in_array : Uuid → List Uuid → Bool
in_array id [] = false
in_array id (x ∷ xs) = id == x || in_array id xs

abbrev pub is_recipient : Uuid → Uuid → Message → Bool
is_recipient project_id agent_id m = m.project_id == project_id && m.recipient_agent_id == agent_id

-- The WHERE of the acknowledgement; no id is in an empty array.
abbrev pub is_due : Uuid → Uuid → List Uuid → Message → Bool
is_due project_id agent_id ids m =
    is_recipient project_id agent_id m && (in_array m.id ids && is_none m.acknowledged_at)

-- The WHERE of the inbox.
abbrev pub is_unread : Uuid → Uuid → Message → Bool
is_unread project_id agent_id m = is_recipient project_id agent_id m && is_none m.acknowledged_at

unfoldable pub acknowledge : Date → Message → Message
acknowledge now m = record m { acknowledged_at = some now }

abbrev pub by_sequence : Message → Message → Bool
by_sequence m n = leb m.sequence n.sequence

unfoldable pub inbox_message : Message → InboxMessage
inbox_message m = record {
  id = m.id;
  sequence = m.sequence;
  from_agent_id = m.sender_agent_id;
  text = m.text;
  created_at = m.created_at;
}

-- UPDATE … SET acknowledged_at … RETURNING
unfoldable pub acknowledge_due :
    Uuid → Uuid → List Uuid → Date → Tx AgentMeshErrorCode (List Message)
unfolding acknowledge
acknowledge_due project_id agent_id ids now db = ok (
  select (is_due project_id agent_id ids) db.messages,
  record db { messages = update (is_due project_id agent_id ids) (acknowledge now) db.messages },
)

-- The inbox in the order of its sequence numbers.
unfoldable pub unread : Uuid → Uuid → Db → List Message
unread project_id agent_id db =
    order_by by_sequence (select (is_unread project_id agent_id) db.messages)

unfoldable pub or_unauthenticated : Option Agent → Tx AgentMeshErrorCode Agent
or_unauthenticated none = throw agent_auth_invalid
or_unauthenticated (some agent) = pure agent

acknowledged_event : Uuid → Uuid → Message → RecordActivityInput
acknowledged_event project_id agent_id m =
    record (activity project_id message_acknowledged success) {
      actor_agent_id = some agent_id;
      message_id = some m.id;
    }

-- The summary event, if anything was delivered or acknowledged.
synced_events : Uuid → Uuid → ℕ → List Message → List Message → List RecordActivityInput
synced_events project_id agent_id limit delivered acknowledged =
    if ltb 0 (length delivered) || ltb 0 (length acknowledged)
    then record (activity project_id agent_synced success) {
      actor_agent_id = some agent_id;
      metadata = record no_metadata {
        delivered_count = some (length delivered);
        acknowledged_count = some (length acknowledged);
        poll_limit = some limit;
      };
    }
      ∷ []
    else []

unfoldable pub poll_events :
    Uuid → Uuid → ℕ → List Message → List Message → List RecordActivityInput
unfolding synced_events acknowledged_event
poll_events project_id agent_id limit delivered acknowledged =
    synced_events project_id agent_id limit delivered acknowledged
    ++ map (acknowledged_event project_id agent_id) acknowledged

-- From the SELECT of the inbox on.
unfoldable pub deliver :
    OperationContext → Uuid → Uuid → PollInput → List Message → Agent → Tx AgentMeshErrorCode Synced
deliver context project_id agent_id input acknowledged refreshed db =
    let rows = take (input.limit + 1) (unread project_id agent_id db) in
    let delivered = take input.limit rows in
    ok (
      record {
        agent = public_agent refreshed agent_id context.now;
        acknowledged = length acknowledged;
        messages = map inbox_message delivered;
        has_more = ltb input.limit (length rows);
      },
      record_activities context (poll_events project_id agent_id input.limit delivered acknowledged)
          db,
    )

unfoldable pub sync_body : OperationContext → Uuid → Uuid → PollInput → Tx AgentMeshErrorCode Synced
sync_body context project_id agent_id input = do
  acknowledged ← acknowledge_due project_id agent_id input.acknowledge context.now
  found ← refresh project_id agent_id context.now
  refreshed ← or_unauthenticated found
  deliver context project_id agent_id input acknowledged refreshed

-- The failure event names the caller once it is known.
unfoldable pub finish_sync :
    Uuid
    → OperationContext
    → Option Uuid
    → Result AgentMeshErrorCode Synced × Db
    → Result AgentMeshErrorCode Synced × Db
finish_sync project_id context caller (ok synced, db) = (ok synced, db)
finish_sync project_id context caller (err (code c), db) = (
  err (code c),
  record_activity context
      (record (activity project_id agent_synced failure) {
        actor_agent_id = caller;
        error_code = some c;
      })
      db,
)
finish_sync project_id context caller (err internal, db) = (err internal, db)

unfoldable pub sync_as :
    Uuid
    → PollInput
    → OperationContext
    → Result AgentMeshErrorCode Agent
    → Db
    → Result AgentMeshErrorCode Synced × Db
unfolding finish_sync transaction
sync_as project_id input context (ok caller) db =
    finish_sync project_id context (some caller.id)
      (transaction (sync_body context project_id caller.id input) db)
sync_as project_id input context (err e) db = finish_sync project_id context none (err e, db)

unfoldable pub sync_agent :
    Authenticator → Uuid → PollInput → OperationContext → Db → Result AgentMeshErrorCode Synced × Db
unfolding sync_as
sync_agent auth project_id input context db =
    sync_as project_id input context (auth.authenticate project_id input.agent_token db.agents) db

-- ORDER BY created_at, id
abbrev by_creation : Agent → Agent → Bool
by_creation a b = ltb a.created_at b.created_at || (a.created_at == b.created_at && leb a.id b.id)

list_as :
    Uuid
    → Date
    → List Agent
    → Result AgentMeshErrorCode Agent
    → Result AgentMeshErrorCode (List PublicAgent)
list_as project_id now agents (err e) = err e
list_as project_id now agents (ok caller) = ok (
    map (λ a. public_agent a caller.id now)
      (order_by by_creation (select (λ a. a.project_id == project_id) agents)))

unfoldable pub list_agents :
    Authenticator → Uuid → Text → Date → Db → Result AgentMeshErrorCode (List PublicAgent)
unfolding list_as
list_agents auth project_id agent_token now db =
    list_as project_id now db.agents (auth.authenticate project_id agent_token db.agents)
