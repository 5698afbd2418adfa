-- ===== src/Blackboard/Reads.antt =====
-- What `getFacts` returns, and what `deleteFact` leaves.
use agentmesh_mcp.Prelude.{
  ◌≡◌, ◌↔◌, refl, false, Option, none, some, List, Text, find, find-delete, select, order_by, Row,
  All-Row, All-order_by, All-select, Row-order_by, Row-select,
}
use agentmesh_mcp.Schema.{Uuid, Date, Agent, BlackboardEntry, Db, AgentMeshErrorCode}
use agentmesh_mcp.Transaction.{Result, ok, err}
use agentmesh_mcp.Activity.{OperationContext}
use agentmesh_mcp.Agents.Authentication.{Authenticator}
use agentmesh_mcp.Blackboard.{
  GetFactsInput, is_asked, by_name, is_fact, get_facts_as, get_facts, Actor, delete_found,
  delete_fact,
}
use agentmesh_mcp.Blackboard.Asked.{IsAsked, is_asked_iff}

get_facts_as-eq-ok :
    (p : Uuid) (input : GetFactsInput) (now : Date) (db : Db)
    (who : Result AgentMeshErrorCode Agent) (facts : List BlackboardEntry)
    → get_facts_as p input now db who ≡ ok facts
    → order_by by_name (select (is_asked p input now) db.blackboard_entries) ≡ facts
unfolding get_facts_as
get_facts_as-eq-ok p input now db (err e) facts h = cc
get_facts_as-eq-ok p input now db (ok agent) facts h = cc

-- A read that succeeds returns exactly the stored facts of the project that have no expiry or one
-- that is not before that time, stand in the namespace that is asked for, and have one of the keys
-- and all of the tags, where these are given.
pub get_facts_iff :
    (auth : Authenticator) (p : Uuid) (input : GetFactsInput) (now : Date) (db : Db)
    (facts : List BlackboardEntry) (e : BlackboardEntry)
    → get_facts auth p input now db ≡ ok facts
    → Row e facts ↔ (IsAsked p input now e × Row e db.blackboard_entries)
unfolding get_facts
get_facts_iff auth p input now db facts e h =
    let same =
      get_facts_as-eq-ok p input now db (auth.authenticate p input.agent_token db.agents) facts h in
    let rows =
      All-order_by (λ x. IsAsked p input now x × Row x db.blackboard_entries) by_name
        (select (is_asked p input now) db.blackboard_entries)
        (All-select (λ x. IsAsked p input now x × Row x db.blackboard_entries)
          (is_asked p input now) db.blackboard_entries
          (λ x r k. ((is_asked_iff p input now x).0 k, r))) in
    (
      λ r. All-Row (λ x. IsAsked p input now x × Row x db.blackboard_entries) rows (rw same r),
      λ (k, r). rw⁻¹ same (
          Row-order_by by_name e (select (is_asked p input now) db.blackboard_entries) (
            Row-select (is_asked p input now) e db.blackboard_entries r
              ((is_asked_iff p input now e).1 k))),
    )

delete_found-find :
    (p : Uuid) (namespace key : Text) (actor : Actor) (context : OperationContext)
    (o : Option BlackboardEntry) (db : Db)
    → find (is_fact p namespace key) db.blackboard_entries ≡ o
    → find
        (is_fact p namespace key)
        (delete_found p namespace key actor context o db).1.blackboard_entries
      ≡ none
unfolding delete_found
delete_found-find p namespace key actor context none db h = h
delete_found-find p namespace key actor context (some e) db h =
    find-delete (is_fact p namespace key) db.blackboard_entries

delete_fact-none :
    (p : Uuid) (namespace key : Text) (actor : Actor) (context : OperationContext) (db : Db)
    → find (is_fact p namespace key) db.blackboard_entries ≡ none
    → delete_fact p namespace key actor context db ≡ (false, db)
unfolding delete_fact delete_found
delete_fact-none p namespace key actor context db h = rw h refl

-- After a deletion no fact has the namespace and the key in the project, whoever deleted it, and a
-- second deletion finds none and changes nothing.
pub delete_fact_once :
    (p : Uuid) (namespace key : Text) (actor actor2 : Actor) (context context2 : OperationContext)
    (db : Db)
    → (find
          (is_fact p namespace key)
          (delete_fact p namespace key actor context db).1.blackboard_entries
        ≡ none)
      × (delete_fact p namespace key actor2 context2
            (delete_fact p namespace key actor context db).1
          ≡ (false, (delete_fact p namespace key actor context db).1))
delete_fact_once p namespace key actor actor2 context context2 db =
    let gone : find (is_fact p namespace key)
          (delete_fact p namespace key actor context db).1.blackboard_entries
        ≡ none =
      unfold delete_fact in
      delete_found-find p namespace key actor context
        (find (is_fact p namespace key) db.blackboard_entries) db refl in
    (
      gone,
      delete_fact-none p namespace key actor2 context2
          (delete_fact p namespace key actor context db).1 gone,
    )
