-- ===== src/Blackboard/Laws.antt =====
-- Versions of facts: no lost update, and one row for a key.
use agentmesh_mcp.Prelude.{
  ℕ, ◌+◌, ◌<◌, ◌≡◌, refl, sym, ap, ◌∙◌, Bool, true, false, ◌&&◌, Option, none, some, List, [], ◌∷◌,
  ◌++◌, Text, find, find-true, find-update_gone, update, arith,
}
use mathlib.Core.Path.{subst}
use agentmesh_mcp.Schema.{
  Uuid, Date, Agent, BlackboardEntry, Db, AgentMeshErrorCode, version_conflict,
}
use agentmesh_mcp.Transaction.{
  Result, ok, err, code, continue-eq-ok, ok_inj, transaction, transaction-eq-ok,
}
use agentmesh_mcp.Activity.{OperationContext}
use agentmesh_mcp.Agents.Authentication.{Authenticator}
use agentmesh_mcp.Blackboard.{
  SetFactInput, is_fact, is_version, new_entry, overwrite, max_version, update_found, update_entry,
  upsert_entry, write_entry, or_conflict, persist_fact, set_fact_as, set_fact,
}

abbrev pub same_fact : BlackboardEntry → BlackboardEntry → Bool
same_fact a b = is_fact a.project_id a.namespace a.key b

-- How a write that succeeds changes the rows.
pub data Written (p agent : Uuid) (input : SetFactInput) (now : Date) (id : Uuid)
    (before after : List BlackboardEntry) (e : BlackboardEntry) : Type 0 where
  created :
      input.expected_version ≡ none
      → find (is_fact p input.namespace input.key) before ≡ none
      → e ≡ new_entry p agent input now id
      → after ≡ before ++ e ∷ []
      → Written p agent input now id before after e
  replaced :
      (old : BlackboardEntry)
      → input.expected_version ≡ none
      → find (is_fact p input.namespace input.key) before ≡ some old
      → old.version < max_version
      → e ≡ overwrite agent input now old
      → after ≡ update (is_fact p input.namespace input.key) (overwrite agent input now) before
      → Written p agent input now id before after e
  expected :
      (old : BlackboardEntry) (v : ℕ)
      → input.expected_version ≡ some v
      → find (λ x. is_fact p input.namespace input.key x && is_version v x) before ≡ some old
      → e ≡ overwrite agent input now old
      → after
        ≡ update
            (λ x. is_fact p input.namespace input.key x && is_version v x)
            (overwrite agent input now)
            before
      → Written p agent input now id before after e

update_found-eq-ok :
    (agent : Uuid) (input : SetFactInput) (now : Date) (q : BlackboardEntry → Bool)
    (o : Option BlackboardEntry) (e : BlackboardEntry) (db db' : Db)
    → update_found agent input now q o db ≡ ok (some e, db')
    → (old : BlackboardEntry) × (o ≡ some old)
      × (old.version < max_version)
      × (e ≡ overwrite agent input now old)
      × (db'.blackboard_entries ≡ update q (overwrite agent input now) db.blackboard_entries)
unfolding update_found
update_found-eq-ok agent input now q none e db db' h = absurd (ground arith)
update_found-eq-ok agent input now q (some old) e db db' h =
    (old, refl, ground arith, ground arith, ground arith)

module _ (p agent : Uuid) (input : SetFactInput) (now : Date) (id : Uuid) (e : BlackboardEntry)
    (db db' : Db) where
  upsert_entry-Written :
      (o : Option BlackboardEntry)
      → find (is_fact p input.namespace input.key) db.blackboard_entries ≡ o
      → input.expected_version ≡ none
      → upsert_entry p agent input now id o db ≡ ok (some e, db')
      → Written p agent input now id db.blackboard_entries db'.blackboard_entries e
  unfolding upsert_entry update_entry
  upsert_entry-Written none missing none_expected h =
      created none_expected missing (ground arith) (ground arith)
  upsert_entry-Written (some old) found none_expected h =
      let (old', found', below, shown, after) =
        update_found-eq-ok agent input now (is_fact p input.namespace input.key)
          (find (is_fact p input.namespace input.key) db.blackboard_entries) e db db' h in
      replaced old' none_expected found' below shown after

  write_entry-Written :
      (o : Option ℕ)
      → input.expected_version ≡ o
      → write_entry p agent input now id o db ≡ ok (some e, db')
      → Written p agent input now id db.blackboard_entries db'.blackboard_entries e
  unfolding write_entry update_entry
  write_entry-Written none same h = upsert_entry-Written _ refl same h
  write_entry-Written (some v) same h =
      let (old, found, below, shown, after) =
        update_found-eq-ok agent input now
          (λ x. is_fact p input.namespace input.key x && is_version v x)
          (find (λ x. is_fact p input.namespace input.key x && is_version v x)
            db.blackboard_entries)
          e db db' h in
      expected old v same found shown after

or_conflict-eq-ok :
    (o : Option BlackboardEntry) (e : BlackboardEntry) (db db' : Db)
    → or_conflict o db ≡ ok (e, db')
    → (o ≡ some e) × (db' ≡ db)
unfolding or_conflict
or_conflict-eq-ok none e db db' h = absurd (ground arith)
or_conflict-eq-ok (some x) e db db' h = ground arith

write_entry-agents :
    (p agent : Uuid) (input : SetFactInput) (now : Date) (id : Uuid) (v : Option ℕ)
    (o : Option BlackboardEntry) (db db' : Db)
    → write_entry p agent input now id v db ≡ ok (o, db')
    → db'.agents ≡ db.agents
unfolding write_entry upsert_entry update_entry update_found
write_entry-agents p agent input now id none o db db' h = ground arith
write_entry-agents p agent input now id (some v) o db db' h = ground arith

set_fact_as-Written :
    (p : Uuid) (input : SetFactInput) (context : OperationContext) (id : Uuid)
    (who : Result AgentMeshErrorCode Agent) (e : BlackboardEntry) (db db' : Db)
    → set_fact_as p input context id who db ≡ ok (e, db')
    → (agent : Agent) × (who ≡ ok agent)
      × (db'.agents ≡ db.agents)
      × Written p agent.id input context.now id db.blackboard_entries db'.blackboard_entries e
unfolding set_fact_as persist_fact
set_fact_as-Written p input context id (err x) e db db' h = absurd (ground arith)
set_fact_as-Written p input context id (ok agent) e db db' h =
    let (o, db1, h1, k1) =
      continue-eq-ok (write_entry p agent.id input context.now id input.expected_version db) _ h in
    let (x, db2, h2, k2) = continue-eq-ok (or_conflict o db1) _ k1 in
    let (found, same) = or_conflict-eq-ok o x db1 db2 h2 in
    let x-eq : x ≡ e = ground arith in
    let after : db'.blackboard_entries ≡ db1.blackboard_entries =
      sym (ap (λ (d : Db). d.blackboard_entries) (ok_inj _ _ _ _ k2).1)
      ∙ ap (λ (d : Db). d.blackboard_entries) same in
    let agents : db'.agents ≡ db1.agents =
      sym (ap (λ (d : Db). d.agents) (ok_inj _ _ _ _ k2).1) ∙ ap (λ (d : Db). d.agents) same in
    (
      agent,
      refl,
      agents
          ∙ write_entry-agents p agent.id input context.now id input.expected_version o db db1 h1,
      rw after (
          write_entry-Written p agent.id input context.now id e db db1 input.expected_version refl
            (h1 ∙ ap (λ y. ok (y, db1)) (found ∙ ap some x-eq))),
    )

pub set_fact-Written :
    (auth : Authenticator) (p : Uuid) (input : SetFactInput) (context : OperationContext)
    (id : Uuid) (e : BlackboardEntry) (db db' : Db)
    → set_fact auth p input context id db ≡ (ok e, db')
    → (agent : Agent) × (auth.authenticate p input.agent_token db.agents ≡ ok agent)
      × (db'.agents ≡ db.agents)
      × Written p agent.id input context.now id db.blackboard_entries db'.blackboard_entries e
unfolding set_fact
set_fact-Written auth p input context id e db db' h =
    set_fact_as-Written p input context id (auth.authenticate p input.agent_token db.agents) e db
      db'
      (transaction-eq-ok
        (set_fact_as p input context id (auth.authenticate p input.agent_token db.agents)) db h)

overwrite-is_version :
    (p agent : Uuid) (input : SetFactInput) (now : Date) (v : ℕ) (x : BlackboardEntry)
    → is_fact p input.namespace input.key x && is_version v x ≡ true
    → is_fact p input.namespace input.key (overwrite agent input now x)
        && is_version v (overwrite agent input now x)
      ≡ false
unfolding overwrite
overwrite-is_version p agent input now v x h = ground arith

find-version :
    (p : Uuid) (namespace key : Text) (v : ℕ) (x : BlackboardEntry)
    → is_fact p namespace key x && is_version v x ≡ true
    → x.version ≡ v
find-version p namespace key v x h = ground arith

Written-gone :
    {p agent : Uuid} {input : SetFactInput} {now : Date} {id : Uuid}
    {before after : List BlackboardEntry} {e : BlackboardEntry} (v : ℕ)
    → Written p agent input now id before after e
    → input.expected_version ≡ some v
    → (find (λ x. is_fact p input.namespace input.key x && is_version v x) after ≡ none)
      × (e.version ≡ v + 1)
unfolding overwrite
Written-gone v (created none_expected missing shown added) w = absurd (ground arith)
Written-gone v (replaced old none_expected found below shown changed) w = absurd (ground arith)
Written-gone {p} {agent} {input} {now} {before} v
      (expected old v' some_expected found shown changed) w =
    let same : v' ≡ v = ground arith in
    let was : old.version ≡ v' = find-version p input.namespace input.key v' old (
      find-true (λ x. is_fact p input.namespace input.key x && is_version v' x) before old found) in
    (
      rw changed (
          rw same (
            find-update_gone (λ x. is_fact p input.namespace input.key x && is_version v x)
              (overwrite agent input now) before
              (λ x h. overwrite-is_version p agent input now v x h))),
      ap (λ (x : BlackboardEntry). x.version) shown ∙ ap (λ n. n + 1) (was ∙ same),
    )

module _ (p agent : Uuid) (input : SetFactInput) (now : Date) (id : Uuid) (db : Db) where
  write_entry-stale :
      (v : ℕ)
      → find (λ x. is_fact p input.namespace input.key x && is_version v x) db.blackboard_entries
        ≡ none
      → write_entry p agent input now id (some v) db ≡ ok (none, db)
  unfolding write_entry update_entry update_found
  write_entry-stale v h = rw h refl

set_fact-stale :
    (auth : Authenticator) (p : Uuid) (input : SetFactInput) (context : OperationContext)
    (id : Uuid) (db : Db) (agent : Agent) (v : ℕ)
    → auth.authenticate p input.agent_token db.agents ≡ ok agent
    → input.expected_version ≡ some v
    → find (λ x. is_fact p input.namespace input.key x && is_version v x) db.blackboard_entries
      ≡ none
    → set_fact auth p input context id db ≡ (err (code version_conflict), db)
unfolding set_fact set_fact_as persist_fact or_conflict transaction
set_fact-stale auth p input context id db agent v who same gone =
    let stale : write_entry p agent.id input context.now id input.expected_version db
        ≡ ok (none, db) =
      subst (λ o. write_entry p agent.id input context.now id o db ≡ ok (none, db)) (sym same)
        (write_entry-stale p agent.id input context.now id db v gone) in
    rw who (rw stale refl)

-- A write that expects version v and succeeds leaves version v + 1. Then no write of the same
-- namespace and key that also expects v succeeds, whichever agent of the project makes it: it
-- ends with VERSION_CONFLICT and changes nothing.
pub set_fact-no_lost_update :
    (auth : Authenticator) (p : Uuid) (input input2 : SetFactInput)
    (context context2 : OperationContext) (id id2 : Uuid) (e : BlackboardEntry) (db db' : Db)
    (agent2 : Agent) (v : ℕ)
    → set_fact auth p input context id db ≡ (ok e, db')
    → input.expected_version ≡ some v
    → input2.namespace ≡ input.namespace
    → input2.key ≡ input.key
    → input2.expected_version ≡ some v
    → auth.authenticate p input2.agent_token db'.agents ≡ ok agent2
    → (e.version ≡ v + 1)
      × (set_fact auth p input2 context2 id2 db' ≡ (err (code version_conflict), db'))
set_fact-no_lost_update auth p input input2 context context2 id id2 e db db' agent2 v h same n k
      same2 who =
    let (agent, who1, agents, written) = set_fact-Written auth p input context id e db db' h in
    let (gone, next) = Written-gone v written same in
    (next, set_fact-stale auth p input2 context2 id2 db' agent2 v who same2 (rw n (rw k gone)))
