-- ===== src/Tests/Messages.antt =====
-- A message between two agents, read and acknowledged.
use agentmesh_mcp.Prelude.{
  ℕ, ◌≡◌, ◌≢◌, refl, inr, true, false, none, some, List, [], ◌∷◌, map, length, ◌≤◌, codes, All, Row,
  here, IsSorted, select, arith,
}
use agentmesh_mcp.Schema.{
  AgentMeshErrorCode, Uuid, Agent, Db, empty_db, Message, idempotency_conflict,
}
use agentmesh_mcp.Transaction.{Result, ok, err, code, internal}
use agentmesh_mcp.Activity.{record_activity}
use agentmesh_mcp.Auth.Uuid.{uuid_text}
use agentmesh_mcp.Agents.Presence.{online, public_agent, presence_at}
use agentmesh_mcp.Agents.Register.{refresh}
use agentmesh_mcp.Agents.Sync.{
  PollInput, Synced, InboxMessage, sync_agent, sync_body, acknowledge, deliver, or_unauthenticated,
  poll_events, unread, acknowledge_due, in_array, inbox_message, is_unread, is_recipient,
  by_sequence,
}
use agentmesh_mcp.Agents.Sync.Laws.{
  sync_agent-delivers, sync_agent_complete, sync_agent_acknowledges_once, sync_agent_isolated,
}
use agentmesh_mcp.Messages.{
  SendInput, Sent, send_message, send_body, store_message, insert_message, public_message,
  send_failed, sent_event,
}
use agentmesh_mcp.Messages.Laws.{
  Parties, send_message_idempotent, send_message_conflict, send_message_self_respelled,
}
use agentmesh_mcp.Messages.Mailbox.{IsMailbox, send_message-IsMailbox}
use agentmesh_mcp.Tests.Data.{
  auth, project, ann_id, bob_id, token_of, ann, bob, start, context, queries, later,
}

abbrev letter : SendInput
letter = record {
  agent_token = token_of ann_id;
  to_agent_id = uuid_text bob_id;
  text = codes "hello";
  idempotency_key = 77;
}

unfoldable mailing : Unit {0}
unfolding queries send_message send_body store_message insert_message public_message sync_agent
    sync_body acknowledge refresh deliver or_unauthenticated poll_events unread acknowledge_due
    public_agent presence_at in_array inbox_message
mailing = tt

abbrev mailed : Result AgentMeshErrorCode Sent × Db
mailed = send_message auth project letter context 5 start

abbrev sent_letter : Sent
sent_letter = record {
  message = record {
    id = 5;
    sequence = 1;
    from_agent_id = ann_id;
    to_agent_id = bob_id;
    text = codes "hello";
    created_at = 2000;
  };
  deduplicated = false;
}

letter_sent : send_message auth project letter context 5 start ≡ (ok sent_letter, mailed.1)
unfolding mailing
letter_sent = refl

send_message_idempotent_example :
    (db'' : Db) × (sender : Agent) × (target : Agent) × (m : Message) × Parties auth project letter
      start.agents sender target
    × (sent_letter.message ≡ public_message m)
    × (send_message auth project letter later 6 mailed.1
        ≡ (ok (record { message = sent_letter.message; deduplicated = true }), db''))
    × (db''.messages ≡ mailed.1.messages)
    × (db'' ≡ record_activity later (sent_event project sender.id target.id letter m true) mailed.1)
send_message_idempotent_example =
    send_message_idempotent auth project letter context later 5 6 start mailed.1 sent_letter
      letter_sent

send_message-IsMailbox_example : IsMailbox mailed.1.messages mailed.1.next_sequence
send_message-IsMailbox_example =
    send_message-IsMailbox auth project letter context 5 start mailed.1 sent_letter letter_sent
      (record { keys = tt; ids = tt; ordered = tt; numbered = tt; apart = tt })

abbrev other_letter : SendInput
other_letter = record letter { text = codes "bye" }

abbrev stored_letter : Message
stored_letter = record {
  sequence = 1;
  id = 5;
  project_id = project;
  sender_agent_id = ann_id;
  recipient_agent_id = bob_id;
  text = codes "hello";
  idempotency_key = 77;
  created_at = 2000;
  acknowledged_at = none;
}

letter_known : Parties auth project other_letter mailed.1.agents ann bob
unfolding mailing
letter_known = record { authenticated = refl; other_text = refl; found = refl }

different : ann_id ≢ bob_id
different = λ h. omega arith

another_text : codes "hello" ≢ codes "bye"
another_text = λ h. cc

send_message_conflict_example : send_message auth project other_letter later 6 mailed.1 ≡ (
  err (code idempotency_conflict),
  record_activity later
      (send_failed project other_letter (some ann_id, some bob_id) idempotency_conflict)
      mailed.1,
)
unfolding mailing
send_message_conflict_example =
    send_message_conflict auth project other_letter later 6 mailed.1 ann bob stored_letter
      letter_known different refl (inr another_text)

abbrev own_letter : SendInput
own_letter = record letter { to_agent_id = uuid_text ann_id }

-- An id with a letter, in upper case.
abbrev cy_id : Uuid
cy_id = 302240678275694148452362

abbrev cy : Agent
cy = record ann { id = cy_id; name = codes "cy" }

abbrev cy_db : Db
cy_db = record empty_db { agents = cy ∷ [] }

abbrev respelled : SendInput
respelled = record letter {
  agent_token = token_of cy_id;
  to_agent_id = codes "00000000-0000-4000-8000-00000000000A";
}

cy_known : Parties auth project respelled cy_db.agents cy cy
unfolding mailing
cy_known = record { authenticated = refl; other_text = refl; found = refl }

send_message_self_respelled_example :
    send_message auth project respelled context 5 cy_db ≡ (err internal, cy_db)
send_message_self_respelled_example =
    send_message_self_respelled auth project respelled context 5 cy_db cy cy cy_known refl

abbrev poll : PollInput
poll = record { agent_token = token_of bob_id; acknowledge = 5 ∷ []; limit = 1 }

abbrev first_poll : PollInput
first_poll = record poll { acknowledge = [] }

abbrev delivered_letter : InboxMessage
delivered_letter = record {
  id = 5;
  sequence = 1;
  from_agent_id = ann_id;
  text = codes "hello";
  created_at = 2000;
}

abbrev synced : ℕ → List InboxMessage → Synced
synced n messages = record {
  agent = record {
    id = bob_id;
    name = codes "bob";
    client = codes "cli";
    capabilities = [];
    status = online;
    is_self = true;
    last_seen_at = 5000;
  };
  acknowledged = n;
  messages = messages;
  has_more = false;
}

abbrev read_db : Db
read_db = (sync_agent auth project first_poll later mailed.1).1

abbrev acknowledged_db : Db
acknowledged_db = (sync_agent auth project poll later mailed.1).1

abbrev again_db : Db
again_db = (sync_agent auth project poll later acknowledged_db).1

reads :
    sync_agent auth project first_poll later mailed.1
    ≡ (ok (synced 0 (delivered_letter ∷ [])), read_db)
unfolding mailing
reads = refl

acknowledges : sync_agent auth project poll later mailed.1 ≡ (ok (synced 1 []), acknowledged_db)
unfolding mailing
acknowledges = refl

acknowledges_again :
    sync_agent auth project poll later acknowledged_db ≡ (ok (synced 0 []), again_db)
unfolding mailing
acknowledges_again = refl

is_bob : auth.authenticate project (token_of bob_id) mailed.1.agents ≡ ok bob
unfolding mailing
is_bob = refl

abbrev seen_bob : Agent
seen_bob = record bob { last_seen_at = 5000 }

sync_agent-delivers_example :
    (caller : Agent) × (delivered : List Message) × (auth.authenticate project
        (token_of bob_id)
        mailed.1.agents
      ≡ ok caller)
    × (delivered_letter ∷ [] ≡ map inbox_message delivered)
    × (length delivered ≤ 1)
    × IsSorted by_sequence delivered
    × All (λ m. (is_unread project caller.id m ≡ true) × Row m read_db.messages) delivered
sync_agent-delivers_example =
    sync_agent-delivers auth project first_poll later mailed.1 read_db
      (synced 0 (delivered_letter ∷ [])) reads

sync_agent_complete_example : Row (inbox_message stored_letter) (delivered_letter ∷ [])
unfolding mailing
sync_agent_complete_example =
    sync_agent_complete auth project first_poll later mailed.1 read_db
      (synced 0 (delivered_letter ∷ [])) bob stored_letter reads is_bob refl here refl

is_bob_again : auth.authenticate project (token_of bob_id) acknowledged_db.agents ≡ ok seen_bob
unfolding mailing
is_bob_again = refl

sync_agent_acknowledges_once_example : (synced 0 []).acknowledged ≡ 0
sync_agent_acknowledges_once_example =
    sync_agent_acknowledges_once auth project poll poll later later mailed.1 acknowledged_db
      again_db (synced 1 []) (synced 0 []) bob seen_bob acknowledges is_bob acknowledges_again
      is_bob_again refl refl

sync_agent_isolated_example :
    select (is_recipient project ann_id) acknowledged_db.messages
    ≡ select (is_recipient project ann_id) mailed.1.messages
sync_agent_isolated_example =
    sync_agent_isolated auth project poll later mailed.1 acknowledged_db (synced 1 []) bob project
      ann_id acknowledges is_bob refl

mailbox : IsMailbox mailed.1.messages 2
unfolding mailing
mailbox =
    send_message-IsMailbox auth project letter context 5 start mailed.1 sent_letter letter_sent
      (record { keys = tt; ids = tt; ordered = tt; numbered = tt; apart = tt })
