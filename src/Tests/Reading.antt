-- ===== src/Tests/Reading.antt =====
-- What an operator and a stranger read of a project.
use agentmesh_mcp.Prelude.{
  Text, points, byte_length, ◌≡◌, refl, false, none, some, [], ◌∷◌, codes, All,
}
use agentmesh_mcp.Schema.{Uuid, Db, Message}
use agentmesh_mcp.Control.Reading.{
  user, operator, not_found, found, valid_scope, scope_predicate, scoped_project, project_exists,
  scoped, project_agent_exists, get_overview, list_agents,
}
use agentmesh_mcp.Control.Reading.Messages.{
  MessageListQuery, ReadMessage, MessagePage, preview_message, text_for, with_agents, read_messages,
  matches_agent, matches_acknowledged, matches_cursor, message_filters, message_order, sequence_of,
  sequence_history_page, live_sequence_page, message_page, knows_agent, list_messages,
  first_message, get_message,
}
use agentmesh_mcp.Control.Reading.Laws.{reads-unscoped, operator-no_text}
use agentmesh_mcp.Tests.Data.{ann, bob, ann_id, bob_id}
use agentmesh_mcp.Tests.Control.{control, mine, attic_db}

unfoldable reading : Unit {0}
unfolding control valid_scope scope_predicate project_exists scoped project_agent_exists
    preview_message text_for with_agents read_messages matches_agent matches_acknowledged
    matches_cursor message_filters message_order sequence_of sequence_history_page
    live_sequence_page message_page knows_agent list_messages first_message get_message
reading = tt

abbrev message_id : Uuid
message_id = 302240678275694148452377

abbrev letter : Message
letter = record {
  sequence = 1;
  id = message_id;
  project_id = mine;
  sender_agent_id = ann_id;
  recipient_agent_id = bob_id;
  text = codes "hello";
  idempotency_key = 77;
  created_at = 2000;
  acknowledged_at = none;
}

abbrev letters : Db
letters = record attic_db {
  agents = record ann { project_id = mine } ∷ record bob { project_id = mine } ∷ [];
  messages = letter ∷ [];
}

abbrev all_messages : MessageListQuery
all_messages = record {
  agent_id = none;
  acknowledged = none;
  limit = 10;
  cursor = none;
  after = none;
}

unreadable : scoped_project (user bob_id) mine letters ≡ none
unfolding reading
unreadable = refl

reads-unscoped_example :
    (get_overview (user bob_id) mine (some 3000) letters ≡ not_found)
    × (list_agents (user bob_id) mine 10 none (some 3000) letters ≡ not_found)
    × (list_messages (user bob_id) mine all_messages letters ≡ not_found)
    × (get_message (user bob_id) mine message_id letters ≡ not_found)
reads-unscoped_example =
    reads-unscoped (user bob_id) mine 10 none all_messages message_id (some 3000) letters unreadable

abbrev shown_letter : ReadMessage
shown_letter = record {
  sequence = 1;
  id = message_id;
  sender_id = ann_id;
  sender_name = codes "ann";
  recipient_id = bob_id;
  recipient_name = codes "bob";
  text = none;
  created_at = 2000;
  acknowledged_at = none;
}

abbrev shown_page : MessagePage
shown_page = record { items = shown_letter ∷ []; next_cursor = none; has_more = false }

lists : list_messages operator mine all_messages letters ≡ found shown_page
unfolding reading
lists = refl

gets : get_message operator mine message_id letters ≡ found shown_letter
unfolding reading
gets = refl

operator-no_text_example :
    All (λ (x : ReadMessage). x.text ≡ none) shown_page.items × (shown_letter.text ≡ none)
operator-no_text_example =
    operator-no_text mine message_id all_messages letters shown_page shown_letter lists gets

-- A letter and a character of two units.
abbrev smile : Text
smile = b'a' ∷ 0xD83D ∷ 0xDE00 ∷ []

smile-points : points smile ≡ (b'a' ∷ []) ∷ (0xD83D ∷ 0xDE00 ∷ []) ∷ []
unfolding points
smile-points = refl

smile-byte_length : byte_length smile ≡ 5
unfolding byte_length
smile-byte_length = refl
