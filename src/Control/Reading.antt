-- ===== src/Control/Reading.antt =====
-- src/control/read-service.ts: what a user or an operator reads of a project. `listEvents` is left
-- out: the rows of the activity log have no sequence number here.
pub mod Messages
pub mod Laws
use agentmesh_mcp.Prelude.{
  ℕ, ◌+◌, ◌*◌, Bool, true, false, not, ◌&&◌, ◌||◌, Option, none, some, List, [], ◌∷◌, ◌++◌, map,
  Text, ◌==◌, ltb, leb, length, take, is_none, is_some, is_value, find, select, order_by, count,
  if◌then◌else◌,
}
use agentmesh_mcp.Schema.{
  Uuid, Date, Db, Agent, Message, ActivityEvent, ActivityOutcome, failure, Project, ProjectStatus,
  ProjectToken,
}
use agentmesh_mcp.Audit.{is_v4}
use agentmesh_mcp.Agents.Presence.{Presence, presence_at}
use agentmesh_mcp.Projects.{has_project_id}
use agentmesh_mcp.Paging.{CreatedCursor, created_page, rows_after, last}
use agentmesh_mcp.Control.Projects.{may_read}
use agentmesh_mcp.Control.Connections.{ConnectionStatus, status_of}

pub data ProjectReadScope : Type 0 where
  user : Uuid → ProjectReadScope
  operator : ProjectReadScope

-- `{ found: false }`, `{ found: true, data }`, and the exception on an invalid clock.
pub data Answer (A : Type 0) : Type 0 where
  not_found : Answer A
  found : A → Answer A
  unavailable : Answer A

abbrev pub online_window : ℕ
online_window = 5 * 60 * 1000

abbrev pub idle_window : ℕ
idle_window = 30 * 60 * 1000

unfoldable pub valid_scope : ProjectReadScope → Bool
valid_scope operator = true
valid_scope (user id) = is_v4 id

unfoldable pub scope_predicate : ProjectReadScope → Db → Uuid → Project → Bool
scope_predicate operator db project_id p = has_project_id project_id p
scope_predicate (user id) db project_id p = has_project_id project_id p && may_read id db p

abbrev pub scoped_project : ProjectReadScope → Uuid → Db → Option Project
scoped_project scope project_id db = find (scope_predicate scope db project_id) db.projects

unfoldable pub project_exists : ProjectReadScope → Uuid → Db → Bool
project_exists scope project_id db =
    (valid_scope scope && is_v4 project_id) && is_some (scoped_project scope project_id db)

-- The rows of a table that an inner join with the scoped project leaves.
unfoldable pub scoped : {A : Type 0} → ProjectReadScope → Uuid → Db → List A → List A
scoped scope project_id db rows = if is_some (scoped_project scope project_id db) then rows else []

abbrev pub agents_of : ProjectReadScope → Uuid → Db → List Agent
agents_of scope project_id db =
    scoped scope project_id db (select (λ (a : Agent). a.project_id == project_id) db.agents)

unfoldable pub project_agent_exists : ProjectReadScope → Uuid → Uuid → Db → Bool
project_agent_exists scope project_id agent_id db =
    is_some (find (λ (a : Agent). a.id == agent_id) (agents_of scope project_id db))

pub record AgentCounts : Type 0 where
  pub online : ℕ
  pub idle : ℕ
  pub offline : ℕ
  pub total : ℕ

pub record Overview : Type 0 where
  pub project : Project
  pub can_edit : Bool
  pub agents : AgentCounts
  pub messages : ℕ
  pub unacknowledged : ℕ
  pub failures_last_24h : ℕ

-- last_seen_at >= now - window
abbrev pub seen_within : ℕ → Date → Agent → Bool
seen_within window now a = leb now (a.last_seen_at + window)

unfoldable pub agent_counts : Date → List Agent → AgentCounts
agent_counts now agents = record {
  online = count (seen_within online_window now) agents;
  idle = count (λ a. not (seen_within online_window now a) && seen_within idle_window now a) agents;
  offline = count (λ a. not (seen_within idle_window now a)) agents;
  total = length agents;
}

unfoldable pub may_edit : ProjectReadScope → Project → Bool
may_edit operator p = false
may_edit (user id) p = is_value p.owner_user_id id

abbrev pub is_failure : ActivityOutcome → Bool
is_failure failure = true
is_failure _ = false

abbrev pub recent_failure : Uuid → Date → ActivityEvent → Bool
recent_failure project_id now e =
    e.project_id == project_id
    && (is_failure e.outcome && leb now (e.created_at + 24 * 60 * 60 * 1000))

abbrev pub messages_of : ProjectReadScope → Uuid → Db → List Message
messages_of scope project_id db =
    scoped scope project_id db (select (λ (m : Message). m.project_id == project_id) db.messages)

unfoldable pub overview_at : ProjectReadScope → Uuid → Date → Db → Project → Overview
overview_at scope project_id now db p = record {
  project = p;
  can_edit = may_edit scope p;
  agents = agent_counts now (agents_of scope project_id db);
  messages = length (messages_of scope project_id db);
  unacknowledged =
      count (λ (m : Message). is_none m.acknowledged_at) (messages_of scope project_id db);
  failures_last_24h =
      length
        (scoped scope project_id db (select (recent_failure project_id now) db.activity_events));
}

unfoldable pub overview_found :
    ProjectReadScope → Uuid → Option Date → Db → Option Project → Answer Overview
overview_found scope project_id clock db none = not_found
overview_found scope project_id none db (some p) = unavailable
overview_found scope project_id (some now) db (some p) =
    found (overview_at scope project_id now db p)

unfoldable pub get_overview : ProjectReadScope → Uuid → Option Date → Db → Answer Overview
get_overview scope project_id clock db =
    if valid_scope scope && is_v4 project_id
    then overview_found scope project_id clock db (scoped_project scope project_id db)
    else not_found

pub record AgentConnection : Type 0 where
  pub id : Uuid
  pub label : Text
  pub status : ConnectionStatus
  pub expires_at : Option Date
  pub revoked_at : Option Date

pub record ReadAgent : Type 0 where
  pub id : Uuid
  pub name : Text
  pub client : Text
  pub capabilities : List Text
  pub created_at : Date
  pub status : Presence
  pub last_seen_at : Date
  pub connection : Option AgentConnection

unfoldable pub connection_of : Date → Option ProjectToken → Option AgentConnection
connection_of now none = none
connection_of now (some t) = some (record {
  id = t.id;
  label = t.label;
  status = status_of t now;
  expires_at = t.expires_at;
  revoked_at = t.revoked_at;
})

-- The left join with the token of the agent.
unfoldable pub token_of : Agent → Option Uuid → Db → Option ProjectToken
token_of a none db = none
token_of a (some id) db =
    find (λ (t : ProjectToken). t.id == id && t.project_id == a.project_id) db.project_tokens

unfoldable pub read_agent : Db → Date → Agent → ReadAgent
read_agent db now a = record {
  id = a.id;
  name = a.name;
  client = a.client;
  capabilities = a.capabilities;
  created_at = a.created_at;
  status = presence_at a.last_seen_at now;
  last_seen_at = a.last_seen_at;
  connection = connection_of now (token_of a a.registered_via_token_id db);
}

abbrev pub agent_key : Agent → CreatedCursor
agent_key a = record { created_at = a.created_at; id = a.id }

unfoldable pub agents_page :
    Db → ℕ → Option Date → List Agent → Answer (List ReadAgent × Option CreatedCursor)
agents_page db limit none rows = unavailable
agents_page db limit (some now) rows =
    let page = created_page agent_key rows limit in found (map (read_agent db now) page.0, page.1)

abbrev pub is_empty : {A : Type 0} → List A → Bool
is_empty [] = true
is_empty (x ∷ xs) = false

unfoldable pub list_agents :
    ProjectReadScope
    → Uuid
    → ℕ
    → Option CreatedCursor
    → Option Date
    → Db
    → Answer (List ReadAgent × Option CreatedCursor)
list_agents scope project_id limit cursor clock db =
    let rows = rows_after agent_key cursor limit (agents_of scope project_id db) in
    if (valid_scope scope && is_v4 project_id)
      && not (is_empty rows && not (project_exists scope project_id db))
    then agents_page db limit clock rows
    else not_found
