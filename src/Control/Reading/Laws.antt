-- ===== src/Control/Reading/Laws.antt =====
-- Who reads what of a project.
use agentmesh_mcp.Prelude.{
  ℕ, ◌+◌, ◌≡◌, refl, Bool, true, false, not, ◌&&◌, Option, none, some, List, [], ◌∷◌, Text, ◌==◌,
  take-nil, is_none, find, select, order_by, count, All, All-take, All-order_by, All-append,
  Bool-cases, inl, inr, arith,
}
use mathlib.Core.Path.{subst}
use agentmesh_mcp.Schema.{Uuid, Date, Db, Agent, Message}
use agentmesh_mcp.Audit.{is_v4}
use agentmesh_mcp.Agents.Presence.{Presence, online, idle, offline, presence_at}
use agentmesh_mcp.Paging.{CreatedCursor, rows_after}
use agentmesh_mcp.Control.Reading.{
  ProjectReadScope, operator, not_found, found, scoped_project, project_exists, scoped,
  agent_counts, overview_found, get_overview, is_empty, list_agents, valid_scope, messages_of,
}
use agentmesh_mcp.Control.Reading.Messages.{
  MessageListQuery, ReadMessage, MessagePage, preview_message, agent_in, text_for, with_agents,
  read_messages, message_filters, message_order, message_rows, sequence_history_page,
  live_sequence_page, message_page, knows_agent, list_messages, first_message, get_message,
}

overview-unscoped :
    (scope : ProjectReadScope) (project_id : Uuid) (clock : Option Date) (db : Db)
    → scoped_project scope project_id db ≡ none
    → get_overview scope project_id clock db ≡ not_found
unfolding get_overview overview_found
overview-unscoped scope project_id clock db h = ground (arith, h)

scoped-none :
    {A : Type 0} (scope : ProjectReadScope) (project_id : Uuid) (db : Db) (rows : List A)
    → scoped_project scope project_id db ≡ none
    → scoped scope project_id db rows ≡ []
unfolding scoped
scoped-none scope project_id db rows h = rw h refl

project_exists-none :
    (scope : ProjectReadScope) (project_id : Uuid) (db : Db)
    → scoped_project scope project_id db ≡ none
    → project_exists scope project_id db ≡ false
unfolding project_exists
project_exists-none scope project_id db h = ground (arith, h)

agents-unscoped :
    (scope : ProjectReadScope) (project_id : Uuid) (limit : ℕ) (cursor : Option CreatedCursor)
    (clock : Option Date) (db : Db)
    → scoped_project scope project_id db ≡ none
    → list_agents scope project_id limit cursor clock db ≡ not_found
unfolding list_agents rows_after order_by select
agents-unscoped scope project_id limit cursor clock db h =
    rw
      (scoped-none scope project_id db
        (select (λ (a : Agent). a.project_id == project_id) db.agents) h)
      (rw (project_exists-none scope project_id db h)
        (rw (take-nil {A = Agent} (limit + 1)) (ground arith)))

messages-unscoped :
    (scope : ProjectReadScope) (project_id : Uuid) (query : MessageListQuery) (db : Db)
    → scoped_project scope project_id db ≡ none
    → list_messages scope project_id query db ≡ not_found
unfolding list_messages read_messages order_by select
messages-unscoped scope project_id query db h =
    rw
      (scoped-none scope project_id db
        (select (λ (m : Message). m.project_id == project_id) db.messages) h)
      (rw (project_exists-none scope project_id db h)
        (rw (take-nil {A = ReadMessage} (query.limit + 1)) (ground arith)))

message-unscoped :
    (scope : ProjectReadScope) (project_id message_id : Uuid) (db : Db)
    → scoped_project scope project_id db ≡ none
    → get_message scope project_id message_id db ≡ not_found
unfolding get_message read_messages first_message select
message-unscoped scope project_id message_id db h =
    rw
      (scoped-none scope project_id db
        (select (λ (m : Message). m.project_id == project_id) db.messages) h)
      (ground arith)

-- Every read of a project that the caller's scope does not reach is answered as not found, with
-- the same answer as for a project that does not exist: the overview, the agents, the messages and
-- a single message.
pub reads-unscoped :
    (scope : ProjectReadScope) (project_id : Uuid) (limit : ℕ) (cursor : Option CreatedCursor)
    (query : MessageListQuery) (message_id : Uuid) (clock : Option Date) (db : Db)
    → scoped_project scope project_id db ≡ none
    → (get_overview scope project_id clock db ≡ not_found)
      × (list_agents scope project_id limit cursor clock db ≡ not_found)
      × (list_messages scope project_id query db ≡ not_found)
      × (get_message scope project_id message_id db ≡ not_found)
reads-unscoped scope project_id limit cursor query message_id clock db h = (
  overview-unscoped scope project_id clock db h,
  agents-unscoped scope project_id limit cursor clock db h,
  messages-unscoped scope project_id query db h,
  message-unscoped scope project_id message_id db h,
)

abbrev pub same_presence : Presence → Presence → Bool
same_presence online online = true
same_presence idle idle = true
same_presence offline offline = true
same_presence _ _ = false

abbrev pub in_presence : Presence → Date → Agent → Bool
in_presence p now a = same_presence p (presence_at a.last_seen_at now)

-- The counts of the overview, which the query makes from the times, are the counts of the statuses
-- that the list of agents shows, and they add up to the number of agents.
pub agent_counts-presence :
    (now : Date) (agents : List Agent)
    → ((agent_counts now agents).online ≡ count (in_presence online now) agents)
      × ((agent_counts now agents).idle ≡ count (in_presence idle now) agents)
      × ((agent_counts now agents).offline ≡ count (in_presence offline now) agents)
      × ((agent_counts now agents).online
            + (agent_counts now agents).idle
            + (agent_counts now agents).offline
          ≡ (agent_counts now agents).total)
unfolding agent_counts count presence_at
agent_counts-presence now [] = (refl, refl, refl, ground arith)
agent_counts-presence now (a ∷ agents) =
    let (on, idling, off, whole) = agent_counts-presence now agents in
    (ground (arith, on), ground (arith, idling), ground (arith, off), ground (arith, whole))

with_agents-operator :
    (shorten : Text → Text) (m : Message) (s r : Option Agent)
    → All (λ (x : ReadMessage). x.text ≡ none) (with_agents operator shorten m s r)
unfolding with_agents text_for
with_agents-operator shorten m none r = tt
with_agents-operator shorten m (some s) none = tt
with_agents-operator shorten m (some s) (some r) = (refl, tt)

read_messages-operator :
    (shorten : Text → Text) (db : Db) (ms : List Message)
    → All (λ (m : ReadMessage). m.text ≡ none) (read_messages operator shorten db ms)
unfolding read_messages with_agents text_for
read_messages-operator shorten db [] = tt
read_messages-operator shorten db (m ∷ ms) =
    All-append (λ (r : ReadMessage). r.text ≡ none) _ (read_messages operator shorten db ms)
      (with_agents-operator shorten m (find (agent_in m.project_id m.sender_agent_id) db.agents)
        (find (agent_in m.project_id m.recipient_agent_id) db.agents))
      (read_messages-operator shorten db ms)

-- The items of a page are some of its rows.
All-message_page :
    (P : ReadMessage → Type 0) (query : MessageListQuery) (rows : List ReadMessage)
    → All P rows
    → All P (message_page query rows).items
unfolding message_page sequence_history_page live_sequence_page
All-message_page P query rows h = elim (Bool-cases (is_none query.after)) [
  | inl e ↦ rw e (All-take P query.limit rows h)
  | inr e ↦ rw e (All-take P query.limit rows h)
]

message_rows-operator :
    (project_id : Uuid) (query : MessageListQuery) (db : Db)
    → All (λ (m : ReadMessage). m.text ≡ none) (message_rows operator project_id query db)
message_rows-operator project_id query db =
    All-take (λ (m : ReadMessage). m.text ≡ none) (query.limit + 1) _
      (All-order_by (λ (m : ReadMessage). m.text ≡ none) (message_order query.after) _
        (read_messages-operator preview_message db
          (select (message_filters query) (messages_of operator project_id db))))

listed-operator :
    (project_id : Uuid) (query : MessageListQuery) (db : Db) (page : MessagePage)
    → list_messages operator project_id query db ≡ found page
    → message_page query (message_rows operator project_id query db) ≡ page
unfolding list_messages
listed-operator project_id query db page h =
    let rows = message_rows operator project_id query db in
    let test =
      (valid_scope operator && is_v4 project_id)
      && (knows_agent operator project_id query.agent_id db
          && not (is_empty rows && not (project_exists operator project_id db))) in
    elim (Bool-cases test) [ inl e ↦ ground (arith, e, h) | inr e ↦ absurd (ground (arith, e, h)) ]

first-operator :
    (rows : List ReadMessage) (m : ReadMessage)
    → All (λ (x : ReadMessage). x.text ≡ none) rows
    → first_message rows ≡ found m
    → m.text ≡ none
unfolding first_message
first-operator [] m k h = absurd (ground arith)
first-operator (x ∷ rows) m (k, ks) h = ground (arith, k, h)

got-operator :
    (project_id message_id : Uuid) (db : Db) (m : ReadMessage)
    → get_message operator project_id message_id db ≡ found m
    → m.text ≡ none
unfolding get_message
got-operator project_id message_id db m h =
    let rows =
      read_messages operator (λ text. text) db
        (select (λ (x : Message). x.id == message_id) (messages_of operator project_id db)) in
    elim (Bool-cases ((valid_scope operator && is_v4 project_id) && is_v4 message_id)) [
      | inl e ↦
          first-operator rows m
            (read_messages-operator (λ text. text) db
              (select (λ (x : Message). x.id == message_id) (messages_of operator project_id db)))
            (ground (arith, e, h))
      | inr e ↦ absurd (ground (arith, e, h))
    ]

-- An operator never reads what agents write to each other: no message of a page that is found, and
-- no single message that is found, carries a text or a part of it.
pub operator-no_text :
    (project_id message_id : Uuid) (query : MessageListQuery) (db : Db) (page : MessagePage)
    (m : ReadMessage)
    → list_messages operator project_id query db ≡ found page
    → get_message operator project_id message_id db ≡ found m
    → All (λ (x : ReadMessage). x.text ≡ none) page.items × (m.text ≡ none)
operator-no_text project_id message_id query db page m h k = (
  subst (λ (p : MessagePage). All (λ (x : ReadMessage). x.text ≡ none) p.items)
      (listed-operator project_id query db page h)
      (All-message_page (λ (x : ReadMessage). x.text ≡ none) query
        (message_rows operator project_id query db) (message_rows-operator project_id query db)),
  got-operator project_id message_id db m k,
)
