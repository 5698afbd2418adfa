-- ===== src/Agents/Sync/Inbox.antt =====
-- What a successful poll delivers, acknowledges and leaves alone.
use agentmesh_mcp.Prelude.{
  ◌+◌, ◌≡◌, refl, sym, ap, ◌∙◌, Option, none, some, List, [], ◌∷◌, map, ltb, select, update, length,
  take, arith, take-take_suc, length-take_suc,
}
use mathlib.Core.Path.{subst}
use agentmesh_mcp.Schema.{Uuid, Date, Agent, Message, Db, AgentMeshErrorCode}
use agentmesh_mcp.Transaction.{
  Result, ok, err, code, internal, continue-eq-ok, ok_inj, transaction-eq-ok,
}
use agentmesh_mcp.Activity.{OperationContext, record_activities, RecordActivityInput}
use agentmesh_mcp.Agents.Authentication.{Authenticator}
use agentmesh_mcp.Agents.Register.{refresh}
use agentmesh_mcp.Agents.Sync.{
  PollInput, Synced, is_due, acknowledge, inbox_message, acknowledge_due, unread,
  or_unauthenticated, poll_events, deliver, sync_body, finish_sync, sync_as, sync_agent,
}

-- The effect of the transaction, from the messages before it to those after it.
pub record IsSynced (p caller : Uuid) (input : PollInput) (now : Date) (before after : Db)
    (r : Synced) : Type 0 where
  pub acknowledged :
      after.messages ≡ update (is_due p caller input.acknowledge) (acknowledge now) before.messages
  pub counted : r.acknowledged ≡ length (select (is_due p caller input.acknowledge) before.messages)
  pub delivered : r.messages ≡ map inbox_message (take input.limit (unread p caller after))
  pub more : r.has_more ≡ ltb input.limit (length (unread p caller after))

record_activities-messages :
    (context : OperationContext) (inputs : List RecordActivityInput) (db : Db)
    → (record_activities context inputs db).messages ≡ db.messages
record_activities-messages context [] db = refl
record_activities-messages context (i ∷ is) db = record_activities-messages context is _

deliver-eq-ok :
    (context : OperationContext) (p caller : Uuid) (input : PollInput) (acked : List Message)
    (agent : Agent) (db db' : Db) (r : Synced)
    → deliver context p caller input acked agent db ≡ ok (r, db')
    → (db'.messages ≡ db.messages)
      × (r.acknowledged ≡ length acked)
      × (r.messages ≡ map inbox_message (take input.limit (unread p caller db)))
      × (r.has_more ≡ ltb input.limit (length (unread p caller db)))
unfolding deliver
deliver-eq-ok context p caller input acked agent db db' r h =
    let (shown, after) = ok_inj _ _ _ _ h in
    (
      rw (← after) (
          record_activities-messages context
            (poll_events p caller input.limit
              (take input.limit (take (input.limit + 1) (unread p caller db))) acked)
            db),
      rw (← shown) refl,
      rw (← shown) (ap (map inbox_message) (take-take_suc input.limit (unread p caller db))),
      rw (← shown) (length-take_suc input.limit (unread p caller db)),
    )

acknowledge_due-eq-ok :
    (p id : Uuid) (ids : List Uuid) (now : Date) (db db' : Db) (acked : List Message)
    → acknowledge_due p id ids now db ≡ ok (acked, db')
    → (acked ≡ select (is_due p id ids) db.messages)
      × (db'.messages ≡ update (is_due p id ids) (acknowledge now) db.messages)
unfolding acknowledge_due
acknowledge_due-eq-ok p id ids now db db' acked h = (ground arith, ground arith)

refresh-messages :
    (p id : Uuid) (now : Date) (db db' : Db) (o : Option Agent)
    → refresh p id now db ≡ ok (o, db')
    → db'.messages ≡ db.messages
unfolding refresh
refresh-messages p id now db db' o h = ground arith

or_unauthenticated-keeps :
    (o : Option Agent) (a : Agent) (db db' : Db) → or_unauthenticated o db ≡ ok (a, db') → db ≡ db'
unfolding or_unauthenticated
or_unauthenticated-keeps o a db db' h = ground arith

unread-messages :
    (p id : Uuid) (db db' : Db) → db.messages ≡ db'.messages → unread p id db ≡ unread p id db'
unfolding unread
unread-messages p id db db' h = rw h

pub sync_body-IsSynced :
    (context : OperationContext) (p caller : Uuid) (input : PollInput) (db db' : Db) (r : Synced)
    → sync_body context p caller input db ≡ ok (r, db')
    → IsSynced p caller input context.now db db' r
unfolding sync_body
sync_body-IsSynced context p caller input db db' r h =
    let (acked, db1, h1, k1) =
      continue-eq-ok (acknowledge_due p caller input.acknowledge context.now db) _ h in
    let (o, db2, h2, k2) = continue-eq-ok (refresh p caller context.now db1) _ k1 in
    let (a, db3, h3, k3) = continue-eq-ok (or_unauthenticated o db2) _ k2 in
    let (kept, counted, delivered, more) =
      deliver-eq-ok context p caller input acked a db3 db' r k3 in
    let same3 : db3.messages ≡ db2.messages =
      ap (λ (d : Db). d.messages) (sym (or_unauthenticated-keeps o a db2 db3 h3)) in
    let same2 = refresh-messages p caller context.now db1 db2 o h2 in
    let inbox : unread p caller db3 ≡ unread p caller db' =
      unread-messages p caller db3 db' (sym kept) in
    let (listed, updated) =
      acknowledge_due-eq-ok p caller input.acknowledge context.now db db1 acked h1 in
    record {
      acknowledged = kept ∙ same3 ∙ same2 ∙ updated;
      counted = counted ∙ ap length listed;
      delivered = rw (← inbox) delivered;
      more = rw (← inbox) more;
    }

finish_sync-eq-ok :
    (p : Uuid) (context : OperationContext) (caller : Option Uuid)
    (settled : Result AgentMeshErrorCode Synced × Db) (r : Synced) (db' : Db)
    → finish_sync p context caller settled ≡ (ok r, db')
    → settled ≡ (ok r, db')
unfolding finish_sync
finish_sync-eq-ok p context caller (ok s, db) r db' h = h
finish_sync-eq-ok p context caller (err (code c), db) r db' h = absurd (ground arith)
finish_sync-eq-ok p context caller (err internal, db) r db' h = absurd (ground arith)

sync_as-IsSynced :
    (p : Uuid) (input : PollInput) (context : OperationContext)
    (who : Result AgentMeshErrorCode Agent) (db db' : Db) (r : Synced)
    → sync_as p input context who db ≡ (ok r, db')
    → (caller : Agent) × (who ≡ ok caller) × IsSynced p caller.id input context.now db db' r
unfolding sync_as
sync_as-IsSynced p input context (ok caller) db db' r h = (
  caller,
  refl,
  sync_body-IsSynced context p caller.id input db db' r (
      transaction-eq-ok (sync_body context p caller.id input) db
        (finish_sync-eq-ok p context (some caller.id) _ r db' h)),
)
sync_as-IsSynced p input context (err e) db db' r h =
    absurd (ground (arith, finish_sync-eq-ok p context none (err e, db) r db' h))

-- A successful poll, as seen by the agent that the token authenticates.
pub sync_agent-IsSynced :
    (auth : Authenticator) (p : Uuid) (input : PollInput) (context : OperationContext) (db db' : Db)
    (r : Synced)
    → sync_agent auth p input context db ≡ (ok r, db')
    → (caller : Agent) × (auth.authenticate p input.agent_token db.agents ≡ ok caller)
      × IsSynced p caller.id input context.now db db' r
unfolding sync_agent
sync_agent-IsSynced auth p input context db db' r h =
    sync_as-IsSynced p input context (auth.authenticate p input.agent_token db.agents) db db' r h

pub sync_agent-IsSynced_by :
    (auth : Authenticator) (p : Uuid) (input : PollInput) (context : OperationContext) (db db' : Db)
    (r : Synced) (caller : Agent)
    → sync_agent auth p input context db ≡ (ok r, db')
    → auth.authenticate p input.agent_token db.agents ≡ ok caller
    → IsSynced p caller.id input context.now db db' r
sync_agent-IsSynced_by auth p input context db db' r caller h known =
    let (caller', known', synced) = sync_agent-IsSynced auth p input context db db' r h in
    let same : caller' ≡ caller = cc in
    subst (λ (a : Agent). IsSynced p a.id input context.now db db' r) same synced
