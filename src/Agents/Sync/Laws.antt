-- ===== src/Agents/Sync/Laws.antt =====
-- The inbox as its owner sees it.
use agentmesh_mcp.Prelude.{
  ◌≤◌, ◌≡◌, refl, sym, ◌∙◌, true, false, ◌&&◌, List, [], ◌∷◌, map, ◌==◌, select, update, length,
  take, arith, All, All-select, All-order_by, All-take, IsSorted, order_by-IsSorted, take-IsSorted,
  take-all, select-update_other, Row, Row-order_by, Row-select, Row-map, length-take_le,
}
use agentmesh_mcp.Schema.{Uuid, Date, Agent, Message, Db}
use agentmesh_mcp.Transaction.{ok}
use agentmesh_mcp.Activity.{OperationContext}
use agentmesh_mcp.Agents.Authentication.{Authenticator}
use agentmesh_mcp.Agents.Sync.{
  PollInput, Synced, is_recipient, is_due, is_unread, acknowledge, by_sequence, inbox_message,
  unread, sync_agent,
}
use agentmesh_mcp.Agents.Sync.Inbox.{sync_agent-IsSynced, sync_agent-IsSynced_by}

unread-IsSorted : (p id : Uuid) (db : Db) → IsSorted by_sequence (unread p id db)
unfolding unread
unread-IsSorted p id db =
    order_by-IsSorted by_sequence (λ x y z h k. ground arith) (λ x y h. ground arith)
      (select (is_unread p id) db.messages)

-- No message that is to be acknowledged is left in the inbox.
no_due :
    (p id : Uuid) (ids : List Uuid) (now : Date) (ms : List Message)
    → select (is_due p id ids) (update (is_due p id ids) (acknowledge now) ms) ≡ []
unfolding select update acknowledge
no_due p id ids now [] = refl
no_due p id ids now (m ∷ ms) = ground (arith, no_due p id ids now ms)

unread-rows :
    (p id : Uuid) (db : Db)
    → All (λ m. (is_unread p id m ≡ true) × Row m db.messages) (unread p id db)
unfolding unread
unread-rows p id db =
    All-order_by _ by_sequence _ (All-select _ (is_unread p id) db.messages (λ m r h. (h, r)))

Row-unread :
    (p id : Uuid) (db : Db) (m : Message)
    → Row m db.messages
    → is_unread p id m ≡ true
    → Row m (unread p id db)
unfolding unread
Row-unread p id db m r h =
    Row-order_by by_sequence m (select (is_unread p id) db.messages)
      (Row-select (is_unread p id) m db.messages r h)

-- A successful poll delivers at most `limit` messages, in the order of their sequence numbers, and
-- each is a message of the caller's inbox in the project that is not acknowledged.
pub sync_agent-delivers :
    (auth : Authenticator) (p : Uuid) (input : PollInput) (context : OperationContext) (db db' : Db)
    (r : Synced)
    → sync_agent auth p input context db ≡ (ok r, db')
    → (caller : Agent) × (delivered : List Message) × (auth.authenticate p input.agent_token
          db.agents
        ≡ ok caller)
      × (r.messages ≡ map inbox_message delivered)
      × (length delivered ≤ input.limit)
      × IsSorted by_sequence delivered
      × All (λ m. (is_unread p caller.id m ≡ true) × Row m db'.messages) delivered
sync_agent-delivers auth p input context db db' r h =
    let (caller, known, synced) = sync_agent-IsSynced auth p input context db db' r h in
    (
      caller,
      take input.limit (unread p caller.id db'),
      known,
      synced.delivered,
      length-take_le input.limit (unread p caller.id db'),
      take-IsSorted by_sequence (λ x y z a b. ground arith) (λ x y a. ground arith) input.limit
          (unread p caller.id db') (unread-IsSorted p caller.id db'),
      All-take _ input.limit (unread p caller.id db') (unread-rows p caller.id db'),
    )

-- A poll that reports no more messages has delivered every message of the caller's inbox that is
-- not acknowledged.
pub sync_agent_complete :
    (auth : Authenticator) (p : Uuid) (input : PollInput) (context : OperationContext) (db db' : Db)
    (r : Synced) (caller : Agent) (m : Message)
    → sync_agent auth p input context db ≡ (ok r, db')
    → auth.authenticate p input.agent_token db.agents ≡ ok caller
    → r.has_more ≡ false
    → Row m db'.messages
    → is_unread p caller.id m ≡ true
    → Row (inbox_message m) r.messages
sync_agent_complete auth p input context db db' r caller m h known last row hm =
    let synced = sync_agent-IsSynced_by auth p input context db db' r caller h known in
    let all = take-all input.limit (unread p caller.id db') (sym synced.more ∙ last) in
    rw synced.delivered (rw all (Row-map inbox_message (Row-unread p caller.id db' m row hm)))

-- A poll acknowledges each message once: the same acknowledgements sent again by the same agent
-- count nothing.
pub sync_agent_acknowledges_once :
    (auth : Authenticator) (p : Uuid) (input input' : PollInput)
    (context context' : OperationContext) (db db' db'' : Db) (r r' : Synced)
    (caller caller' : Agent)
    → sync_agent auth p input context db ≡ (ok r, db')
    → auth.authenticate p input.agent_token db.agents ≡ ok caller
    → sync_agent auth p input' context' db' ≡ (ok r', db'')
    → auth.authenticate p input'.agent_token db'.agents ≡ ok caller'
    → caller'.id ≡ caller.id
    → input'.acknowledge ≡ input.acknowledge
    → r'.acknowledged ≡ 0
sync_agent_acknowledges_once auth p input input' context context' db db' db'' r r' caller caller' h
      known h' known' who same =
    let first = sync_agent-IsSynced_by auth p input context db db' r caller h known in
    let second = sync_agent-IsSynced_by auth p input' context' db' db'' r' caller' h' known' in
    rw second.counted (rw (who, same) (rw first.acknowledged (rw no_due refl)))

-- A poll of one agent changes nothing in the inbox of another agent or of another project.
pub sync_agent_isolated :
    (auth : Authenticator) (p : Uuid) (input : PollInput) (context : OperationContext) (db db' : Db)
    (r : Synced) (caller : Agent) (q other : Uuid)
    → sync_agent auth p input context db ≡ (ok r, db')
    → auth.authenticate p input.agent_token db.agents ≡ ok caller
    → ((p == q) && (caller.id == other)) ≡ false
    → select (is_recipient q other) db'.messages ≡ select (is_recipient q other) db.messages
sync_agent_isolated auth p input context db db' r caller q other h known apart =
    let synced = sync_agent-IsSynced_by auth p input context db db' r caller h known in
    rw synced.acknowledged (
      select-update_other (is_recipient q other) (is_due p caller.id input.acknowledge)
        (acknowledge context.now) db.messages (λ m. unfold acknowledge in refl)
        (λ m e. ground arith))
