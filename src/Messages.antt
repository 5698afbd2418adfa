-- ===== src/Messages.antt =====
-- src/messages/service.ts: durable direct messages. `to_agent_id` is the caller's own spelling of
-- an id, which the code compares as a text and the database as a number; `idempotency_key` goes to
-- the database only. `randomUUID` is an argument.
pub mod Cases
pub mod Laws
pub mod Mailbox
use agentmesh_mcp.Prelude.{
  ℕ, ◌+◌, ◌≡◌, refl, Bool, true, false, not, ◌&&◌, ◌||◌, Option, none, some, List, [], ◌∷◌, ◌++◌,
  Text, text_eq, byte_length, ◌==◌, if◌then◌else◌, find, is_some,
}
use agentmesh_mcp.Schema.{
  Uuid, Date, Agent, Message, Db, AgentMeshErrorCode, target_agent_invalid, idempotency_conflict,
  message_sent, message_send_failed, success, failure, no_metadata,
}
use agentmesh_mcp.Transaction.{
  Result, ok, err, Failure, code, internal, Tx, pure, throw, crash, write, require, ◌>>=◌, ◌>>◌,
  transaction,
}
use agentmesh_mcp.Activity.{OperationContext, RecordActivityInput, activity, record_activity}
use agentmesh_mcp.Auth.Uuid.{uuid_text, uuid_value}
use agentmesh_mcp.Agents.Authentication.{Authenticator, is_agent}

pub record SendInput : Type 0 where
  pub agent_token : Text
  pub to_agent_id : Text
  pub text : Text
  pub idempotency_key : Uuid

pub record PublicMessage : Type 0 where
  pub id : Uuid
  pub sequence : ℕ
  pub from_agent_id : Uuid
  pub to_agent_id : Uuid
  pub text : Text
  pub created_at : Date

unfoldable pub public_message : Message → PublicMessage
public_message m = record {
  id = m.id;
  sequence = m.sequence;
  from_agent_id = m.sender_agent_id;
  to_agent_id = m.recipient_agent_id;
  text = m.text;
  created_at = m.created_at;
}

pub record Sent : Type 0 where
  pub message : PublicMessage
  pub deduplicated : Bool

-- The unique constraint on the project, the sender and the key.
abbrev pub is_keyed : Uuid → Uuid → Uuid → Message → Bool
is_keyed project_id sender_id key m =
    m.project_id == project_id && (m.sender_agent_id == sender_id && m.idempotency_key == key)

-- The check "messages_sender_recipient_different", and the unique id: an insertion that breaks one
-- throws.
unfoldable pub insert_row : Message → Tx AgentMeshErrorCode (Option Message)
insert_row m db =
    if is_some (find (λ n. n.id == m.id) db.messages)
    then err internal
    else ok (
      some m,
      record db { messages = db.messages ++ m ∷ []; next_sequence = db.next_sequence + 1 },
    )

-- INSERT … ON CONFLICT DO NOTHING RETURNING: `none` for a conflict on the key.
unfoldable pub insert_message : Message → Tx AgentMeshErrorCode (Option Message)
unfolding insert_row
insert_message m db =
    if m.sender_agent_id == m.recipient_agent_id
    then err internal
    else if is_some (find (is_keyed m.project_id m.sender_agent_id m.idempotency_key) db.messages)
    then ok (none, db)
    else insert_row m db

abbrev pub new_message : Uuid → Uuid → Uuid → SendInput → Date → Uuid → ℕ → Message
new_message project_id sender_id target_id input now id sequence = record {
  sequence = sequence;
  id = id;
  project_id = project_id;
  sender_agent_id = sender_id;
  recipient_agent_id = target_id;
  text = input.text;
  idempotency_key = input.idempotency_key;
  created_at = now;
  acknowledged_at = none;
}

-- The row that already has the key, if it is the same message.
unfoldable pub same_or_conflict : Uuid → SendInput → Option Message → Tx AgentMeshErrorCode Message
same_or_conflict target_id input none = crash
same_or_conflict target_id input (some existing) =
    if not (existing.recipient_agent_id == target_id) || not (text_eq existing.text input.text)
    then throw idempotency_conflict
    else pure existing

unfoldable pub persist :
    Uuid → Uuid → Uuid → SendInput → Option Message → Tx AgentMeshErrorCode (Message × Bool)
unfolding same_or_conflict
persist project_id sender_id target_id input (some inserted) db = ok ((inserted, false), db)
persist project_id sender_id target_id input none db =
    (do
      existing ←
          same_or_conflict target_id input
            (find (is_keyed project_id sender_id input.idempotency_key) db.messages)
      pure (existing, true))
      db

unfoldable pub sent_event : Uuid → Uuid → Uuid → SendInput → Message → Bool → RecordActivityInput
sent_event project_id sender_id target_id input m deduplicated =
    record (activity project_id message_sent success) {
      actor_agent_id = some sender_id;
      target_agent_id = some target_id;
      message_id = some m.id;
      metadata = record no_metadata {
        message_bytes = some (byte_length input.text);
        deduplicated = some deduplicated;
      };
    }

unfoldable pub announce :
    Uuid → Uuid → Uuid → SendInput → OperationContext → Message × Bool → Tx AgentMeshErrorCode Sent
unfolding sent_event
announce project_id sender_id target_id input context (m, deduplicated) db = ok (
  record { message = public_message m; deduplicated = deduplicated },
  record_activity context (sent_event project_id sender_id target_id input m deduplicated) db,
)

-- From the insertion on, for the sender and the target that were found.
unfoldable pub store_message :
    Uuid → Uuid → Uuid → SendInput → OperationContext → Uuid → Tx AgentMeshErrorCode Sent
unfolding persist announce
store_message project_id sender_id target_id input context id db =
    (do
      inserted ←
          insert_message
            (new_message project_id sender_id target_id input context.now id db.next_sequence)
      persisted ← persist project_id sender_id target_id input inserted
      announce project_id sender_id target_id input context persisted)
      db

unfoldable pub to_target :
    Uuid → Uuid → SendInput → OperationContext → Uuid → Option Agent → Tx AgentMeshErrorCode Sent
to_target project_id sender_id input context id none = throw target_agent_invalid
to_target project_id sender_id input context id (some target) =
    store_message project_id sender_id target.id input context id

unfoldable pub from_sender :
    Uuid
    → SendInput
    → OperationContext
    → Uuid
    → Result AgentMeshErrorCode Agent
    → Tx AgentMeshErrorCode Sent
unfolding to_target
from_sender project_id input context id (err e) db = err e
from_sender project_id input context id (ok sender) db =
    if text_eq (uuid_text sender.id) input.to_agent_id
    then err (code target_agent_invalid)
    else to_target project_id sender.id input context id
        (find (is_agent project_id (uuid_value input.to_agent_id)) db.agents) db

unfoldable pub send_body :
    Authenticator → Uuid → SendInput → OperationContext → Uuid → Tx AgentMeshErrorCode Sent
unfolding from_sender
send_body auth project_id input context id db =
    from_sender project_id input context id
      (auth.authenticate project_id input.agent_token db.agents) db

-- `senderId` and `targetId` as they stand when an exception is caught.
unfoldable pub reached_target : Uuid → Text → Agent → List Agent → Option Uuid
reached_target project_id to_agent_id sender agents =
    if text_eq (uuid_text sender.id) to_agent_id
    then none
    else elim (find (is_agent project_id (uuid_value to_agent_id)) agents) [
      | none ↦ none
      | some target ↦ some target.id
    ]

unfoldable pub reached :
    Uuid → Text → Result AgentMeshErrorCode Agent → List Agent → Option Uuid × Option Uuid
unfolding reached_target
reached project_id to_agent_id (err e) agents = (none, none)
reached project_id to_agent_id (ok sender) agents =
    (some sender.id, reached_target project_id to_agent_id sender agents)

unfoldable pub send_failed :
    Uuid → SendInput → Option Uuid × Option Uuid → AgentMeshErrorCode → RecordActivityInput
send_failed project_id input (sender_id, target_id) c =
    record (activity project_id message_send_failed failure) {
      actor_agent_id = sender_id;
      target_agent_id = target_id;
      error_code = some c;
      metadata = record no_metadata { message_bytes = some (byte_length input.text) };
    }

unfoldable pub finish_send :
    Uuid
    → SendInput
    → OperationContext
    → Option Uuid × Option Uuid
    → Result AgentMeshErrorCode Sent × Db
    → Result AgentMeshErrorCode Sent × Db
finish_send project_id input context ids (ok sent, db) = (ok sent, db)
finish_send project_id input context ids (err (code c), db) =
    (err (code c), record_activity context (send_failed project_id input ids c) db)
finish_send project_id input context ids (err internal, db) = (err internal, db)

unfoldable pub send_message :
    Authenticator
    → Uuid
    → SendInput
    → OperationContext
    → Uuid
    → Db
    → Result AgentMeshErrorCode Sent × Db
unfolding finish_send reached transaction
send_message auth project_id input context id db =
    finish_send project_id input context
      (reached project_id input.to_agent_id
        (auth.authenticate project_id input.agent_token db.agents) db.agents)
      (transaction (send_body auth project_id input context id) db)
