-- ===== src/Messages/Laws.antt =====
-- What `sendMessage` promises to senders and recipients.
use agentmesh_mcp.Prelude.{
  ◌≡◌, refl, sym, ◌∙◌, ◌≢◌, ◌⊎◌, inl, inr, Bool, true, false, Option, none, some, List, text_eq,
  ==_refl, text_eq_refl, find, find-append, arith, Bool-cases, Option-cases,
}
use mathlib.Core.Path.{subst}
use agentmesh_mcp.Schema.{
  Uuid, Agent, Message, Db, AgentMeshErrorCode, target_agent_invalid, idempotency_conflict,
}
use agentmesh_mcp.Transaction.{Result, ok, err, code, internal, transaction-eq-ok}
use agentmesh_mcp.Activity.{OperationContext, record_activity}
use agentmesh_mcp.Auth.Uuid.{uuid_text, uuid_value}
use agentmesh_mcp.Agents.Authentication.{Authenticator, is_agent}
use agentmesh_mcp.Messages.{
  SendInput, public_message, Sent, is_keyed, store_message, sent_event, from_sender, send_body,
  send_failed, finish_send, send_message,
}
use agentmesh_mcp.Messages.Cases.{
  Stored, fresh, repeated, store_message-Stored, store-repeated, store-conflict, store_self,
}

-- The parties of a call that got as far as the insertion.
pub record Parties (auth : Authenticator) (p : Uuid) (input : SendInput) (agents : List Agent)
    (sender target : Agent) : Type 0 where
  pub authenticated : auth.authenticate p input.agent_token agents ≡ ok sender
  pub other_text : text_eq (uuid_text sender.id) input.to_agent_id ≡ false
  pub found : find (is_agent p (uuid_value input.to_agent_id)) agents ≡ some target

module _ (auth : Authenticator) (p : Uuid) (input : SendInput) (context : OperationContext)
    (id : Uuid) where
  pub send_body-Parties :
      (db : Db) (sender target : Agent)
      → Parties auth p input db.agents sender target
      → send_body auth p input context id db
        ≡ store_message p sender.id target.id input context id db
  unfolding send_body
  send_body-Parties db sender target w = rw w.authenticated (rw w.other_text (rw w.found refl))

  from_sender-eq-ok :
      (who : Result AgentMeshErrorCode Agent) (db db' : Db) (sent : Sent)
      → auth.authenticate p input.agent_token db.agents ≡ who
      → from_sender p input context id who db ≡ ok (sent, db')
      → (sender : Agent) × (target : Agent) × Parties auth p input db.agents sender target
        × (store_message p sender.id target.id input context id db ≡ ok (sent, db'))
  unfolding from_sender
  from_sender-eq-ok (err e) db db' sent known h = absurd (ground arith)
  from_sender-eq-ok (ok sender) db db' sent known h =
      elim (Bool-cases (text_eq (uuid_text sender.id) input.to_agent_id)) [
        | inl e ↦ absurd (ground arith)
        | inr e ↦ elim (Option-cases (find (is_agent p (uuid_value input.to_agent_id)) db.agents)) [
          | inl missing ↦ absurd (ground arith)
          | inr (target, found) ↦ (
            sender,
            target,
            record { authenticated = known; other_text = e; found = found },
            ground arith,
          )
        ]
      ]

  finish_send-eq-ok :
      (ids : Option Uuid × Option Uuid) (settled : Result AgentMeshErrorCode Sent × Db) (db' : Db)
      (sent : Sent)
      → finish_send p input context ids settled ≡ (ok sent, db')
      → settled ≡ (ok sent, db')
  unfolding finish_send
  finish_send-eq-ok ids (ok s, db) db' sent h = h
  finish_send-eq-ok ids (err (code c), db) db' sent h = absurd (ground arith)
  finish_send-eq-ok ids (err internal, db) db' sent h = absurd (ground arith)

  -- Who sent to whom, and the row that stands for the message.
  pub send_message-Stored :
      (db db' : Db) (sent : Sent)
      → send_message auth p input context id db ≡ (ok sent, db')
      → (sender : Agent) × (target : Agent) × (m : Message) × Parties auth p input db.agents sender
          target
        × (sent.message ≡ public_message m)
        × (sender.id ≢ target.id)
        × (db'.agents ≡ db.agents)
        × Stored p sender.id target.id input db db' m sent.deduplicated
  unfolding send_message send_body
  send_message-Stored db db' sent h =
      let settled = finish_send-eq-ok _ _ db' sent h in
      let body = transaction-eq-ok (send_body auth p input context id) db settled in
      let (sender, target, w, stored) = from_sender-eq-ok _ db db' sent refl body in
      let (m, shown, apart, agents, row) =
        store_message-Stored p sender.id target.id input context id db db' sent stored in
      (sender, target, m, w, shown, apart, agents, row)

-- After a success the key finds the message.
pub Stored-find :
    {p sender target : Uuid} {input : SendInput} {db db' : Db} {m : Message} {b : Bool}
    → Stored p sender target input db db' m b
    → (find (is_keyed p sender input.idempotency_key) db'.messages ≡ some m)
      × (m.recipient_agent_id ≡ target)
      × (m.text ≡ input.text)
Stored-find {p} {sender} {input} {m} (fresh unused free sequence mp ms mr mt mk ma added next) = (
  rw added (
      rw find-append (
        rw unused (
          unfold find in
          ground (arith, ==_refl p, ==_refl sender, ==_refl input.idempotency_key)))),
  mr,
  mt,
)
Stored-find {db} {m} (repeated found r t kept next) = (rw kept found, r, t)

-- Sending the same message again with the same key, later, returns the stored message marked as
-- deduplicated and stores no second message: the database changes in the activity log alone, which
-- gains one message.sent event, from the same sender to the same recipient, that is marked so too.
pub send_message_idempotent :
    (auth : Authenticator) (p : Uuid) (input : SendInput) (context context' : OperationContext)
    (id id' : Uuid) (db db' : Db) (sent : Sent)
    → send_message auth p input context id db ≡ (ok sent, db')
    → (db'' : Db) × (sender : Agent) × (target : Agent) × (m : Message) × Parties auth p input
        db.agents sender target
      × (sent.message ≡ public_message m)
      × (send_message auth p input context' id' db'
          ≡ (ok (record { message = sent.message; deduplicated = true }), db''))
      × (db''.messages ≡ db'.messages)
      × (db'' ≡ record_activity context' (sent_event p sender.id target.id input m true) db')
unfolding send_message
send_message_idempotent auth p input context context' id id' db db' sent h =
    let (sender, target, m, w, shown, apart, agents, row) =
      send_message-Stored auth p input context id db db' sent h in
    let (found, recipient, text) = Stored-find row in
    let w' : Parties auth p input db'.agents sender target =
      subst (λ l. Parties auth p input l sender target) (sym agents) w in
    let stored =
      send_body-Parties auth p input context' id' db' sender target w'
      ∙ store-repeated p sender.id target.id input context' id' db' m apart found recipient text in
    (
      record_activity context' (sent_event p sender.id target.id input m true) db',
      sender,
      target,
      m,
      w,
      shown,
      rw shown (rw stored refl),
      refl,
      refl,
    )

-- Where the key already stands for a message to another agent or with another text, sending fails
-- with IDEMPOTENCY_CONFLICT and no table changes but the log, which gains the failure.
pub send_message_conflict :
    (auth : Authenticator) (p : Uuid) (input : SendInput) (context : OperationContext) (id : Uuid)
    (db : Db) (sender target : Agent) (m : Message)
    → Parties auth p input db.agents sender target
    → sender.id ≢ target.id
    → find (is_keyed p sender.id input.idempotency_key) db.messages ≡ some m
    → (m.recipient_agent_id ≢ target.id) ⊎ (m.text ≢ input.text)
    → send_message auth p input context id db ≡ (
      err (code idempotency_conflict),
      record_activity context
          (send_failed p input (some sender.id, some target.id) idempotency_conflict)
          db,
    )
unfolding send_message
send_message_conflict auth p input context id db sender target m w apart found differs =
    let body =
      send_body-Parties auth p input context id db sender target w
      ∙ store-conflict p sender.id target.id input context id db m apart found differs in
    rw body (rw w.authenticated (rw w.other_text (rw w.found refl)))

-- A message to the sender's own id in the canonical spelling is refused with
-- TARGET_AGENT_INVALID, and no table changes but the log, which gains the failure.
pub send_message_self :
    (auth : Authenticator) (p : Uuid) (input : SendInput) (context : OperationContext) (id : Uuid)
    (db : Db) (sender : Agent)
    → auth.authenticate p input.agent_token db.agents ≡ ok sender
    → input.to_agent_id ≡ uuid_text sender.id
    → send_message auth p input context id db ≡ (
      err (code target_agent_invalid),
      record_activity context (send_failed p input (some sender.id, none) target_agent_invalid) db,
    )
unfolding send_message send_body
send_message_self auth p input context id db sender known same =
    rw known (rw same (rw (text_eq_refl (uuid_text sender.id)) refl))

-- A message to the sender's own id in another spelling of it, as in upper case, is not refused
-- with TARGET_AGENT_INVALID: the insertion throws, `sendMessage` itself ends with that exception,
-- which is no error code of the service, and it leaves the database as it was, so that it records
-- no failure of the message.
pub send_message_self_respelled :
    (auth : Authenticator) (p : Uuid) (input : SendInput) (context : OperationContext) (id : Uuid)
    (db : Db) (sender target : Agent)
    → Parties auth p input db.agents sender target
    → target.id ≡ sender.id
    → send_message auth p input context id db ≡ (err internal, db)
unfolding send_message
send_message_self_respelled auth p input context id db sender target w same =
    let body =
      send_body-Parties auth p input context id db sender target w
      ∙ store_self p sender.id target.id input context id db (sym same) in
    rw body refl
