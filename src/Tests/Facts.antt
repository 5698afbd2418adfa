-- ===== src/Tests/Facts.antt =====
-- A fact that two agents write.
use agentmesh_mcp.Prelude.{ℕ, ◌≡◌, refl, Option, none, some, [], ◌∷◌, ◌↔◌, Row, codes}
use agentmesh_mcp.Schema.{AuthorType, Db, BlackboardEntry, version_conflict}
use agentmesh_mcp.Transaction.{ok, err, code}
use agentmesh_mcp.Blackboard.{
  SetFactInput, set_fact, overwrite, persist_fact, write_entry, upsert_entry, or_conflict,
  update_entry, update_found, expiry,
}
use agentmesh_mcp.Blackboard.Laws.{set_fact-no_lost_update}
use agentmesh_mcp.Tests.Data.{
  auth, project, ann_id, bob_id, token_of, bob, start, context, queries, later,
}
use agentmesh_mcp.Blackboard.{
  GetFactsInput, Actor, get_facts, get_facts_as, is_live, in_namespace, has_key, has_tags,
  contains_text, contains_all, delete_fact,
}
use agentmesh_mcp.Blackboard.Asked.{IsAsked}
use agentmesh_mcp.Blackboard.Reads.{get_facts_iff}

unfoldable writing : Unit {0}
unfolding queries set_fact overwrite persist_fact write_entry upsert_entry or_conflict update_entry
    update_found expiry get_facts get_facts_as is_live in_namespace has_key has_tags contains_text
    contains_all
writing = tt

abbrev fact : Option ℕ → SetFactInput
fact v = record {
  agent_token = token_of ann_id;
  namespace = codes "build";
  key = codes "status";
  value = codes "green";
  tags = codes "ci" ∷ codes "main" ∷ [];
  ttl_seconds = none;
  expected_version = v;
}

abbrev set_db : Option ℕ → Db → Db
set_db v db = (set_fact auth project (fact v) context 11 db).1

abbrev entry : ℕ → BlackboardEntry
entry v = record {
  id = 11;
  project_id = project;
  namespace = codes "build";
  key = codes "status";
  value = codes "green";
  tags = codes "ci" ∷ codes "main" ∷ [];
  version = v;
  ttl_seconds = none;
  expires_at = none;
  created_by_type = AuthorType.agent;
  created_by_id = ann_id;
  last_updated_by_type = AuthorType.agent;
  last_updated_by_id = ann_id;
  created_at = 2000;
  updated_at = 2000;
}

fact_updated :
    set_fact auth project (fact (some 1)) context 11 (set_db none start)
    ≡ (ok (entry 2), set_db (some 1) (set_db none start))
unfolding writing
fact_updated = refl

abbrev late_fact : SetFactInput
late_fact = record (fact (some 1)) { agent_token = token_of bob_id; value = codes "red" }

writer_is_bob :
    auth.authenticate project (token_of bob_id) (set_db (some 1) (set_db none start)).agents
    ≡ ok bob
unfolding writing
writer_is_bob = refl

set_fact-no_lost_update_example :
    ((entry 2).version ≡ 2)
    × (set_fact auth project late_fact later 12 (set_db (some 1) (set_db none start))
        ≡ (err (code version_conflict), set_db (some 1) (set_db none start)))
set_fact-no_lost_update_example =
    set_fact-no_lost_update auth project (fact (some 1)) late_fact context later 11 12 (entry 2)
      (set_db none start) (set_db (some 1) (set_db none start)) bob 1 fact_updated refl refl refl
      refl writer_is_bob

abbrev question : GetFactsInput
question = record {
  agent_token = token_of bob_id;
  namespace = some (codes "build");
  keys = some (codes "owner" ∷ codes "status" ∷ []);
  tags = some (codes "main" ∷ []);
}

answered : get_facts auth project question 3000 (set_db none start) ≡ ok (entry 1 ∷ [])
unfolding writing
answered = refl

get_facts_iff_example : Row (entry 1) (entry 1 ∷ []) ↔ (
    IsAsked project question 3000 (entry 1) × Row (entry 1) (set_db none start).blackboard_entries)
get_facts_iff_example =
    get_facts_iff auth project question 3000 (set_db none start) (entry 1 ∷ []) (entry 1) answered

abbrev cleared_db : Db
cleared_db =
    (delete_fact project (codes "build") (codes "status") (Actor.agent ann_id) later
      (set_db none start)).1
