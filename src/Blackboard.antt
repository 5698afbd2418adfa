-- ===== src/Blackboard.antt =====
-- src/blackboard/service.ts: versioned facts of a project. The id that the database gives a new
-- row is an argument.
pub mod Laws
pub mod Asked
pub mod Reads
use agentmesh_mcp.Prelude.{
  ℕ, ◌+◌, ◌*◌, ◌≡◌, refl, Bool, true, false, not, ◌&&◌, ◌||◌, Option, none, some, List, [], ◌∷◌,
  ◌++◌, map, Text, text_eq, ◌==◌, leb, ltb, if◌then◌else◌, find, select, update, delete, order_by,
}
use agentmesh_mcp.Schema.{
  Uuid, Date, Agent, BlackboardEntry, AuthorType, Db, AgentMeshErrorCode, version_conflict,
  blackboard_fact_set, blackboard_fact_deleted, success, no_metadata,
}
use agentmesh_mcp.Transaction.{
  Result, ok, err, Failure, code, internal, Tx, pure, throw, ◌>>=◌, transaction,
}
use agentmesh_mcp.Activity.{OperationContext, RecordActivityInput, activity, record_activity}
use agentmesh_mcp.Agents.Authentication.{Authenticator}
use agentmesh_mcp.Agents.Register.{text_le}

pub record SetFactInput : Type 0 where
  pub agent_token : Text
  pub namespace : Text
  pub key : Text
  pub value : Text
  pub tags : List Text
  pub ttl_seconds : Option ℕ
  pub expected_version : Option ℕ

pub record GetFactsInput : Type 0 where
  pub agent_token : Text
  pub namespace : Option Text
  pub keys : Option (List Text)
  pub tags : Option (List Text)

-- The unique constraint on the project, the namespace and the key.
abbrev pub is_fact : Uuid → Text → Text → BlackboardEntry → Bool
is_fact project_id namespace key e =
    e.project_id == project_id && (text_eq e.namespace namespace && text_eq e.key key)

unfoldable pub expiry : Date → Option ℕ → Option Date
expiry now none = none
expiry now (some ttl_seconds) = some (now + ttl_seconds * 1000)

abbrev pub new_entry : Uuid → Uuid → SetFactInput → Date → Uuid → BlackboardEntry
new_entry project_id agent_id input now id = record {
  id = id;
  project_id = project_id;
  namespace = input.namespace;
  key = input.key;
  value = input.value;
  tags = input.tags;
  version = 1;
  ttl_seconds = input.ttl_seconds;
  expires_at = expiry now input.ttl_seconds;
  created_by_type = AuthorType.agent;
  created_by_id = agent_id;
  last_updated_by_type = AuthorType.agent;
  last_updated_by_id = agent_id;
  created_at = now;
  updated_at = now;
}

-- The SET clause, the same in both branches.
unfoldable pub overwrite : Uuid → SetFactInput → Date → BlackboardEntry → BlackboardEntry
overwrite agent_id input now e = record e {
  value = input.value;
  tags = input.tags;
  version = e.version + 1;
  ttl_seconds = input.ttl_seconds;
  expires_at = expiry now input.ttl_seconds;
  last_updated_by_type = AuthorType.agent;
  last_updated_by_id = agent_id;
  updated_at = now;
}

abbrev pub max_version : ℕ
max_version = 2147483647

-- UPDATE … WHERE p RETURNING: the rows that passed the test, as they are after it; the first of
-- them is what `[persisted]` names.
-- A version past the range of the `integer` column throws.
unfoldable pub update_found :
    Uuid
    → SetFactInput
    → Date
    → (BlackboardEntry → Bool)
    → Option BlackboardEntry
    → Tx AgentMeshErrorCode (Option BlackboardEntry)
update_found agent_id input now p none db = ok (none, db)
update_found agent_id input now p (some e) db =
    if ltb e.version max_version
    then ok (
      some (overwrite agent_id input now e),
      record db {
        blackboard_entries = update p (overwrite agent_id input now) db.blackboard_entries;
      },
    )
    else err internal

unfoldable pub update_entry :
    Uuid
    → SetFactInput
    → Date
    → (BlackboardEntry → Bool)
    → Tx AgentMeshErrorCode (Option BlackboardEntry)
update_entry agent_id input now p db =
    update_found agent_id input now p (find p db.blackboard_entries) db

-- INSERT … ON CONFLICT DO UPDATE
unfoldable pub upsert_entry :
    Uuid
    → Uuid
    → SetFactInput
    → Date
    → Uuid
    → Option BlackboardEntry
    → Tx AgentMeshErrorCode (Option BlackboardEntry)
upsert_entry project_id agent_id input now id none db =
    let e = new_entry project_id agent_id input now id in
    ok (some e, record db { blackboard_entries = db.blackboard_entries ++ e ∷ [] })
upsert_entry project_id agent_id input now id (some existing) db =
    update_entry agent_id input now (is_fact project_id input.namespace input.key) db

abbrev pub is_version : ℕ → BlackboardEntry → Bool
is_version v e = e.version == v

unfoldable pub write_entry :
    Uuid
    → Uuid
    → SetFactInput
    → Date
    → Uuid
    → Option ℕ
    → Tx AgentMeshErrorCode (Option BlackboardEntry)
write_entry project_id agent_id input now id none db =
    upsert_entry project_id agent_id input now id
      (find (is_fact project_id input.namespace input.key) db.blackboard_entries) db
write_entry project_id agent_id input now id (some expected) db =
    update_entry agent_id input now
      (λ e. is_fact project_id input.namespace input.key e && is_version expected e) db

unfoldable pub or_conflict : Option BlackboardEntry → Tx AgentMeshErrorCode BlackboardEntry
or_conflict none = throw version_conflict
or_conflict (some e) = pure e

abbrev pub fact_set_event : Uuid → Uuid → BlackboardEntry → RecordActivityInput
fact_set_event project_id agent_id e = record (activity project_id blackboard_fact_set success) {
  actor_agent_id = some agent_id;
  metadata = record no_metadata {
    blackboard_namespace = some e.namespace;
    blackboard_key = some e.key;
    blackboard_version = some e.version;
  };
}

unfoldable pub persist_fact :
    Uuid → SetFactInput → OperationContext → Uuid → Agent → Tx AgentMeshErrorCode BlackboardEntry
persist_fact project_id input context id agent = do
  written ← write_entry project_id agent.id input context.now id input.expected_version
  persisted ← or_conflict written
  (λ db. ok (persisted, record_activity context (fact_set_event project_id agent.id persisted) db))

unfoldable pub set_fact_as :
    Uuid
    → SetFactInput
    → OperationContext
    → Uuid
    → Result AgentMeshErrorCode Agent
    → Tx AgentMeshErrorCode BlackboardEntry
set_fact_as project_id input context id (err e) db = err e
set_fact_as project_id input context id (ok agent) db =
    persist_fact project_id input context id agent db

-- `publicFact` renames the columns and prints the dates; the row stands for it.
unfoldable pub set_fact :
    Authenticator
    → Uuid
    → SetFactInput
    → OperationContext
    → Uuid
    → Db
    → Result AgentMeshErrorCode BlackboardEntry × Db
unfolding set_fact_as transaction
set_fact auth project_id input context id db =
    transaction
      (set_fact_as project_id input context id
        (auth.authenticate project_id input.agent_token db.agents))
      db

-- or(isNull(expiresAt), gte(expiresAt, now))
unfoldable pub is_live : Date → BlackboardEntry → Bool
is_live now e = elim e.expires_at [ none ↦ true | some t ↦ leb now t ]

unfoldable pub contains_text : List Text → Text → Bool
contains_text [] t = false
contains_text (s ∷ ss) t = text_eq s t || contains_text ss t

-- `arrayContains`: every tag that is asked for
unfoldable pub contains_all : List Text → List Text → Bool
contains_all tags [] = true
contains_all tags (t ∷ ts) = contains_text tags t && contains_all tags ts

unfoldable pub in_namespace : Option Text → BlackboardEntry → Bool
in_namespace none e = true
in_namespace (some n) e = text_eq e.namespace n

unfoldable pub has_key : Option (List Text) → BlackboardEntry → Bool
has_key none e = true
has_key (some ks) e = contains_text ks e.key

unfoldable pub has_tags : Option (List Text) → BlackboardEntry → Bool
has_tags none e = true
has_tags (some ts) e = contains_all e.tags ts

abbrev pub is_asked : Uuid → GetFactsInput → Date → BlackboardEntry → Bool
is_asked project_id input now e =
    e.project_id == project_id
    && (is_live now e
        && (in_namespace input.namespace e && (has_key input.keys e && has_tags input.tags e)))

-- ORDER BY namespace, key; the order of code units stands for the collation of the database.
abbrev pub by_name : BlackboardEntry → BlackboardEntry → Bool
by_name a b =
    if text_eq a.namespace b.namespace then text_le a.key b.key else text_le a.namespace b.namespace

unfoldable pub get_facts_as :
    Uuid
    → GetFactsInput
    → Date
    → Db
    → Result AgentMeshErrorCode Agent
    → Result AgentMeshErrorCode (List BlackboardEntry)
get_facts_as project_id input now db (err e) = err e
get_facts_as project_id input now db (ok agent) =
    ok (order_by by_name (select (is_asked project_id input now) db.blackboard_entries))

unfoldable pub get_facts :
    Authenticator
    → Uuid
    → GetFactsInput
    → Date
    → Db
    → Result AgentMeshErrorCode (List BlackboardEntry)
unfolding get_facts_as
get_facts auth project_id input now db =
    get_facts_as project_id input now db (auth.authenticate project_id input.agent_token db.agents)

pub data Actor : Type 0 where
  agent user : Uuid → Actor

unfoldable pub acting_agent : Actor → Option Uuid
acting_agent (agent id) = some id
acting_agent (user id) = none

unfoldable pub delete_found :
    Uuid → Text → Text → Actor → OperationContext → Option BlackboardEntry → Db → Bool × Db
delete_found project_id namespace key actor context none db = (false, db)
delete_found project_id namespace key actor context (some deleted) db = (
  true,
  record_activity context
      (record (activity project_id blackboard_fact_deleted success) {
        actor_agent_id = acting_agent actor;
        metadata = record no_metadata {
          blackboard_namespace = some namespace;
          blackboard_key = some key;
          blackboard_version = some deleted.version;
        };
      })
      (record db {
        blackboard_entries = delete (is_fact project_id namespace key) db.blackboard_entries;
      }),
)

unfoldable pub delete_fact : Uuid → Text → Text → Actor → OperationContext → Db → Bool × Db
unfolding delete_found
delete_fact project_id namespace key actor context db =
    delete_found project_id namespace key actor context
      (find (is_fact project_id namespace key) db.blackboard_entries) db
