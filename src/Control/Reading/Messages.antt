-- ===== src/Control/Reading/Messages.antt =====
-- src/control/read-service.ts: the messages of a project. An operator gets no text of a message.
use agentmesh_mcp.Prelude.{
  ℕ, ◌+◌, Bool, true, false, not, ◌&&◌, ◌||◌, Option, none, some, List, [], ◌∷◌, ◌++◌, Text, ◌==◌,
  ltb, leb, length, take, points, joined, is_none, is_some, find, select, order_by, if◌then◌else◌,
}
use agentmesh_mcp.Schema.{Uuid, Date, Db, Agent, Message}
use agentmesh_mcp.Audit.{is_v4}
use agentmesh_mcp.Paging.{last}
use agentmesh_mcp.Control.Reading.{
  ProjectReadScope, user, operator, Answer, not_found, found, valid_scope, project_exists,
  project_agent_exists, messages_of, is_empty,
}

pub record MessageListQuery : Type 0 where
  pub agent_id : Option Uuid
  pub acknowledged : Option Bool
  pub limit : ℕ
  pub cursor : Option ℕ
  pub after : Option ℕ

-- At most 160 code points, with an ellipsis for the others.
unfoldable pub preview_message : Text → Text
preview_message text =
    if leb (length (points text)) 160 then text else joined (take 160 (points text)) ++ 8230 ∷ []

pub record ReadMessage : Type 0 where
  pub sequence : ℕ
  pub id : Uuid
  pub sender_id : Uuid
  pub sender_name : Text
  pub recipient_id : Uuid
  pub recipient_name : Text
  pub text : Option Text
  pub created_at : Date
  pub acknowledged_at : Option Date

-- The text, or its preview, that the selection of a user has and that of an operator lacks.
unfoldable pub text_for : ProjectReadScope → Text → Option Text
text_for operator text = none
text_for (user id) text = some text

abbrev pub agent_in : Uuid → Uuid → Agent → Bool
agent_in project_id id a = a.id == id && a.project_id == project_id

unfoldable pub with_agents :
    ProjectReadScope → (Text → Text) → Message → Option Agent → Option Agent → List ReadMessage
with_agents scope shorten m (some sender) (some recipient) =
    record {
      sequence = m.sequence;
      id = m.id;
      sender_id = sender.id;
      sender_name = sender.name;
      recipient_id = recipient.id;
      recipient_name = recipient.name;
      text = text_for scope (shorten m.text);
      created_at = m.created_at;
      acknowledged_at = m.acknowledged_at;
    }
    ∷ []
with_agents scope shorten m _ _ = []

-- The inner joins with the sender and the recipient, in the project of the message.
unfoldable pub read_messages :
    ProjectReadScope → (Text → Text) → Db → List Message → List ReadMessage
read_messages scope shorten db [] = []
read_messages scope shorten db (m ∷ ms) =
    with_agents scope shorten m (find (agent_in m.project_id m.sender_agent_id) db.agents)
      (find (agent_in m.project_id m.recipient_agent_id) db.agents)
    ++ read_messages scope shorten db ms

unfoldable pub matches_agent : Option Uuid → Message → Bool
matches_agent none m = true
matches_agent (some id) m = m.sender_agent_id == id || m.recipient_agent_id == id

unfoldable pub matches_acknowledged : Option Bool → Message → Bool
matches_acknowledged none m = true
matches_acknowledged (some true) m = is_some m.acknowledged_at
matches_acknowledged (some false) m = is_none m.acknowledged_at

-- The cursor is `query.cursor ?? query.after`, and `after` turns the comparison.
unfoldable pub matches_cursor : Option ℕ → Option ℕ → Message → Bool
matches_cursor none none m = true
matches_cursor (some c) none m = ltb m.sequence c
matches_cursor (some c) (some a) m = ltb c m.sequence
matches_cursor none (some a) m = ltb a m.sequence

unfoldable pub message_filters : MessageListQuery → Message → Bool
message_filters query m =
    matches_agent query.agent_id m
    && (matches_acknowledged query.acknowledged m && matches_cursor query.cursor query.after m)

unfoldable pub message_order : Option ℕ → ReadMessage → ReadMessage → Bool
message_order none a b = leb b.sequence a.sequence
message_order (some c) a b = leb a.sequence b.sequence

abbrev pub message_rows : ProjectReadScope → Uuid → MessageListQuery → Db → List ReadMessage
message_rows scope project_id query db = take (query.limit + 1) (
    order_by (message_order query.after) (
      read_messages scope preview_message db
        (select (message_filters query) (messages_of scope project_id db))))

pub record MessagePage : Type 0 where
  pub items : List ReadMessage
  pub next_cursor : Option ℕ
  pub has_more : Bool

unfoldable pub sequence_of : Option ReadMessage → Option ℕ
sequence_of none = none
sequence_of (some m) = some m.sequence

unfoldable pub sequence_history_page : List ReadMessage → ℕ → MessagePage
sequence_history_page items limit = record {
  items = take limit items;
  next_cursor = if ltb limit (length items) then sequence_of (last (take limit items)) else none;
  has_more = false;
}

unfoldable pub live_sequence_page : List ReadMessage → ℕ → MessagePage
live_sequence_page items limit = record {
  items = take limit items;
  next_cursor = none;
  has_more = ltb limit (length items);
}

unfoldable pub message_page : MessageListQuery → List ReadMessage → MessagePage
message_page query rows =
    if is_none query.after
    then sequence_history_page rows query.limit
    else live_sequence_page rows query.limit

unfoldable pub knows_agent : ProjectReadScope → Uuid → Option Uuid → Db → Bool
knows_agent scope project_id none db = true
knows_agent scope project_id (some id) db = project_agent_exists scope project_id id db

unfoldable pub list_messages : ProjectReadScope → Uuid → MessageListQuery → Db → Answer MessagePage
list_messages scope project_id query db =
    let rows = message_rows scope project_id query db in
    if (valid_scope scope && is_v4 project_id)
      && (knows_agent scope project_id query.agent_id db
          && not (is_empty rows && not (project_exists scope project_id db)))
    then found (message_page query rows)
    else not_found

unfoldable pub first_message : List ReadMessage → Answer ReadMessage
first_message [] = not_found
first_message (m ∷ ms) = found m

unfoldable pub get_message : ProjectReadScope → Uuid → Uuid → Db → Answer ReadMessage
get_message scope project_id message_id db =
    if (valid_scope scope && is_v4 project_id) && is_v4 message_id
    then first_message (
        read_messages scope (λ text. text) db
          (select (λ m. m.id == message_id) (messages_of scope project_id db)))
    else not_found
