-- ===== src/Pulse/Laws.antt =====
-- Blockers: who resolves them, when, and how often.
use agentmesh_mcp.Prelude.{
  ◌≡◌, refl, sym, ap, ◌∙◌, true, false, Option, none, some, List, [], ◌∷◌, ◌++◌, is_some, ◌≢◌, find,
  find-true, find-update_found, update, arith, All, All-append, All-update, Bool-cases, inl, inr,
}
use agentmesh_mcp.Schema.{Uuid, Date, Db, Agent, ProgressReport, AgentMeshErrorCode}
use agentmesh_mcp.Transaction.{
  Result, ok, err, code, continue-eq-ok, ok_inj, transaction, transaction-eq-ok, require,
  require-eq-ok,
}
use agentmesh_mcp.Activity.{OperationContext}
use agentmesh_mcp.Audit.{RecordAuditInput, record_audit}
use agentmesh_mcp.Agents.Presence.{offline, presence_at}
use agentmesh_mcp.Agents.Authentication.{Authenticator}
use agentmesh_mcp.Control.Membership.{is_owned}
use agentmesh_mcp.Pulse.{
  ReportProgressInput, is_blocked, blocker_reason_of, new_report, store_report, record_progress_as,
  record_progress, ResolveBlockerInput, PulseResolutionErrorCode, project_not_found,
  blocker_state_conflict, is_report, is_agent, with_agent, is_resolvable, is_unresolved, resolved,
  resolved_event, update_blocker, resolve_found, resolve_blocker_body, resolve_blocker,
}

with_agent-some :
    (agents : List Agent) (o : Option ProgressReport) (r : ProgressReport) (a : Agent)
    → with_agent agents o ≡ some (r, a)
    → (o ≡ some r) × (find (is_agent r.project_id r.agent_id) agents ≡ some a)
unfolding with_agent
with_agent-some agents none r a h = absurd (ground arith)
with_agent-some agents (some r') r a h = ground arith

with_agent-found :
    (agents : List Agent) (r : ProgressReport) (a : Agent)
    → find (is_agent r.project_id r.agent_id) agents ≡ some a
    → with_agent agents (some r) ≡ some (r, a)
unfolding with_agent
with_agent-found agents r a h = ground arith

update_blocker-eq-ok :
    (input : ResolveBlockerInput) (now : Date) (db : Db) (u : Unit {0}) (db' : Db)
    → update_blocker input now db ≡ ok (u, db')
    → (db'.progress_reports
        ≡ update
            (is_unresolved input.project_id input.report_id)
            (resolved input now)
            db.progress_reports)
      × (db'.projects ≡ db.projects)
      × (db'.agents ≡ db.agents)
unfolding update_blocker
update_blocker-eq-ok input now db u db' h = ground arith

record_audit-keeps :
    (input : RecordAuditInput) (at : Date) (db : Db) (u : Unit {0}) (db' : Db)
    → record_audit {C = PulseResolutionErrorCode} input at db ≡ ok (u, db')
    → (db'.progress_reports ≡ db.progress_reports)
      × (db'.projects ≡ db.projects)
      × (db'.agents ≡ db.agents)
unfolding record_audit
record_audit-keeps input at db u db' h = ground arith

resolve_found-eq-ok :
    (input : ResolveBlockerInput) (now at : Date) (o : Option (ProgressReport × Agent)) (db : Db)
    (x : ProgressReport) (db' : Db)
    → resolve_found input now at o db ≡ ok (x, db')
    → (r : ProgressReport) × (a : Agent) × (o ≡ some (r, a))
      × (is_resolvable now r a ≡ true)
      × (x ≡ resolved input now r)
      × (db'.progress_reports
          ≡ update
              (is_unresolved input.project_id input.report_id)
              (resolved input now)
              db.progress_reports)
      × (db'.projects ≡ db.projects)
      × (db'.agents ≡ db.agents)
unfolding resolve_found
resolve_found-eq-ok input now at none db x db' h = absurd (ground arith)
resolve_found-eq-ok input now at (some (r, a)) db x db' h =
    let (u1, db1, h1, k1) =
      continue-eq-ok (require (is_resolvable now r a) blocker_state_conflict db) _ h in
    let (open_, same1) =
      require-eq-ok (is_resolvable now r a) blocker_state_conflict db u1 db1 h1 in
    let (u2, db2, h2, k2) = continue-eq-ok (update_blocker input now db1) _ k1 in
    let (reports, projects, agents) = update_blocker-eq-ok input now db1 u2 db2 h2 in
    let (u3, db3, h3, k3) = continue-eq-ok (record_audit (resolved_event input) at db2) _ k2 in
    let (reports3, projects3, agents3) =
      record_audit-keeps (resolved_event input) at db2 u3 db3 h3 in
    let (shown, end) = ok_inj (resolved input now r) x db3 db' k3 in
    (
      r,
      a,
      refl,
      open_,
      sym shown,
      sym (ap (λ (d : Db). d.progress_reports) end)
          ∙ reports3
          ∙ reports
          ∙ ap
              (λ (d : Db).
                update (is_unresolved input.project_id input.report_id) (resolved input now)
                  d.progress_reports)
              (sym same1),
      sym (ap (λ (d : Db). d.projects) end)
          ∙ projects3
          ∙ projects
          ∙ ap (λ (d : Db). d.projects) (sym same1),
      sym (ap (λ (d : Db). d.agents) end)
          ∙ agents3
          ∙ agents
          ∙ ap (λ (d : Db). d.agents) (sym same1),
    )

-- The state that a successful resolution found and left.
pub record Resolution (input : ResolveBlockerInput) (now : Date) (x : ProgressReport) (db db' : Db)
    : Type 0 where
  pub report : ProgressReport
  pub reporter : Agent
  pub owned : is_some (find (is_owned input.project_id input.owner_user_id) db.projects) ≡ true
  pub found : find (is_report input.project_id input.report_id) db.progress_reports ≡ some report
  pub by : find (is_agent report.project_id report.agent_id) db.agents ≡ some reporter
  pub resolvable : is_resolvable now report reporter ≡ true
  pub shown : x ≡ resolved input now report
  pub reports :
      db'.progress_reports
      ≡ update
          (is_unresolved input.project_id input.report_id)
          (resolved input now)
          db.progress_reports
  pub projects : db'.projects ≡ db.projects
  pub agents : db'.agents ≡ db.agents

pub resolve_blocker-Resolution :
    (input : ResolveBlockerInput) (now at : Date) (x : ProgressReport) (db db' : Db)
    → resolve_blocker input now at db ≡ (ok x, db')
    → Resolution input now x db db'
unfolding resolve_blocker resolve_blocker_body
resolve_blocker-Resolution input now at x db db' h =
    let body = transaction-eq-ok (resolve_blocker_body input now at) db h in
    let (u1, db1, h1, k1) =
      continue-eq-ok
        (require (is_some (find (is_owned input.project_id input.owner_user_id) db.projects))
          project_not_found db)
        _ body in
    let (owned, same1) = require-eq-ok _ project_not_found db u1 db1 h1 in
    let (r, a, joined, open_, shown, reports, projects, agents) =
      resolve_found-eq-ok input now at
        (with_agent db1.agents
          (find (is_report input.project_id input.report_id) db1.progress_reports))
        db1 x db' k1 in
    let (found, by) =
      with_agent-some db1.agents
        (find (is_report input.project_id input.report_id) db1.progress_reports) r a joined in
    record {
      report = r;
      reporter = a;
      owned = owned;
      found =
          ap (λ (d : Db). find (is_report input.project_id input.report_id) d.progress_reports)
            same1
          ∙ found;
      by = ap (λ (d : Db). find (is_agent r.project_id r.agent_id) d.agents) same1 ∙ by;
      resolvable = open_;
      shown = shown;
      reports =
          reports
          ∙ ap
              (λ (d : Db).
                update (is_unresolved input.project_id input.report_id) (resolved input now)
                  d.progress_reports)
              (sym same1);
      projects = projects ∙ ap (λ (d : Db). d.projects) (sym same1);
      agents = agents ∙ ap (λ (d : Db). d.agents) (sym same1);
    }

is_resolvable-offline :
    (now : Date) (r : ProgressReport) (a : Agent)
    → is_resolvable now r a ≡ true
    → (is_blocked r.state ≡ true)
      × (r.resolved_at ≡ none)
      × (presence_at a.last_seen_at now ≡ offline)
unfolding is_resolvable presence_at
is_resolvable-offline now r a h = (ground arith, ground arith, ground arith)

-- A blocker is resolved by the owner of its project only, while the report is blocked and not yet
-- resolved and its agent is shown as offline.
pub resolve_blocker-offline :
    (input : ResolveBlockerInput) (now at : Date) (x : ProgressReport) (db db' : Db)
    → resolve_blocker input now at db ≡ (ok x, db')
    → (r : ProgressReport) × (a : Agent) × (is_some
          (find (is_owned input.project_id input.owner_user_id) db.projects)
        ≡ true)
      × (find (is_report input.project_id input.report_id) db.progress_reports ≡ some r)
      × (find (is_agent r.project_id r.agent_id) db.agents ≡ some a)
      × (is_blocked r.state ≡ true)
      × (r.resolved_at ≡ none)
      × (presence_at a.last_seen_at now ≡ offline)
resolve_blocker-offline input now at x db db' h =
    let done = resolve_blocker-Resolution input now at x db db' h in
    let (is_b, unresolved, away) =
      is_resolvable-offline now done.report done.reporter done.resolvable in
    (done.report, done.reporter, done.owned, done.found, done.by, is_b, unresolved, away)

resolved-unresolvable :
    (input : ResolveBlockerInput) (now now2 : Date) (r : ProgressReport) (a : Agent)
    → is_resolvable now2 (resolved input now r) a ≡ false
unfolding is_resolvable
resolved-unresolvable input now now2 r a = ground arith

resolve_blocker-refuses :
    (input : ResolveBlockerInput) (now at : Date) (r : ProgressReport) (a : Agent) (db : Db)
    → is_some (find (is_owned input.project_id input.owner_user_id) db.projects) ≡ true
    → with_agent db.agents (find (is_report input.project_id input.report_id) db.progress_reports)
      ≡ some (r, a)
    → is_resolvable now r a ≡ false
    → resolve_blocker input now at db ≡ (err (code blocker_state_conflict), db)
unfolding resolve_blocker resolve_blocker_body resolve_found transaction
resolve_blocker-refuses input now at r a db owned joined closed =
    rw owned (rw joined (rw closed refl))

-- A blocker is resolved once: after a resolution that succeeds, every further one of the same
-- report by the same owner, at any time and with any note, ends with BLOCKER_STATE_CONFLICT and
-- changes nothing.
pub resolve_blocker-once :
    (input input2 : ResolveBlockerInput) (now at now2 at2 : Date) (x : ProgressReport) (db db' : Db)
    → resolve_blocker input now at db ≡ (ok x, db')
    → input2.project_id ≡ input.project_id
    → input2.report_id ≡ input.report_id
    → input2.owner_user_id ≡ input.owner_user_id
    → resolve_blocker input2 now2 at2 db' ≡ (err (code blocker_state_conflict), db')
resolve_blocker-once input input2 now at now2 at2 x db db' h p r o =
    let done = resolve_blocker-Resolution input now at x db db' h in
    let (is_b, unresolved, away) =
      is_resolvable-offline now done.report done.reporter done.resolvable in
    let tested =
      find-true (is_report input.project_id input.report_id) db.progress_reports done.report
        done.found in
    let after : find (is_report input.project_id input.report_id) db'.progress_reports
        ≡ some (resolved input now done.report) =
      rw done.reports (
        find-update_found (is_report input.project_id input.report_id)
          (is_unresolved input.project_id input.report_id) (resolved input now) db.progress_reports
          done.report (λ y. refl) done.found (rw tested (rw is_b (rw unresolved refl)))) in
    resolve_blocker-refuses input2 now2 at2 (resolved input now done.report) done.reporter db'
      (rw p (rw o (rw done.projects done.owned)))
      (rw p (
        rw r (
          rw after (
            with_agent-found db'.agents (resolved input now done.report) done.reporter
              (rw done.agents done.by)))))
      (resolved-unresolvable input now now2 done.report done.reporter)

-- What the table's constraints ask of a report: a reason exactly when it is blocked, and a
-- resolution only then, with the user who made it.
pub record IsReport (r : ProgressReport) : Type 0 where
  pub reason : is_some r.blocker_reason ≡ is_blocked r.state
  pub resolution : r.resolved_at ≢ none → is_blocked r.state ≡ true
  pub resolver : is_some r.resolved_by_user_id ≡ is_some r.resolved_at

new_report-IsReport :
    (project_id : Uuid) (input : ReportProgressInput) (now : Date) (id : Uuid) (agent : Agent)
    → IsReport (new_report project_id input now id agent)
unfolding blocker_reason_of
new_report-IsReport project_id input now id agent = record {
  reason = elim (Bool-cases (is_blocked input.state)) [ inl e ↦ rw e refl | inr e ↦ rw e refl ];
  resolution = λ h. absurd (h refl);
  resolver = refl;
}

record_progress_as-eq-ok :
    (p : Uuid) (input : ReportProgressInput) (context : OperationContext) (id : Uuid)
    (who : Result AgentMeshErrorCode Agent) (r : ProgressReport) (db db' : Db)
    → record_progress_as p input context id who db ≡ ok (r, db')
    → (agent : Agent) × (who ≡ ok agent)
      × (r ≡ new_report p input context.now id agent)
      × (db'.progress_reports ≡ db.progress_reports ++ new_report p input context.now id agent ∷ [])
unfolding record_progress_as store_report
record_progress_as-eq-ok p input context id (err e) r db db' h = absurd (ground arith)
record_progress_as-eq-ok p input context id (ok agent) r db db' h = (agent, refl, cc, ground arith)

-- A report that is stored is by an agent whose token the project accepts, is the one returned, and
-- joins the others at the end; with it, every report keeps the constraints of the table.
pub record_progress-IsReport :
    (auth : Authenticator) (p : Uuid) (input : ReportProgressInput) (context : OperationContext)
    (id : Uuid) (r : ProgressReport) (db db' : Db)
    → All IsReport db.progress_reports
    → record_progress auth p input context id db ≡ (ok r, db')
    → (agent : Agent) × (auth.authenticate p input.agent_token db.agents ≡ ok agent)
      × (r.agent_id ≡ agent.id)
      × (db'.progress_reports ≡ db.progress_reports ++ r ∷ [])
      × All IsReport db'.progress_reports
unfolding record_progress
record_progress-IsReport auth p input context id r db db' good h =
    let who = auth.authenticate p input.agent_token db.agents in
    let (agent, same, shown, stored) =
      record_progress_as-eq-ok p input context id who r db db'
        (transaction-eq-ok (record_progress_as p input context id who) db h) in
    (
      agent,
      same,
      ap (λ (x : ProgressReport). x.agent_id) shown,
      rw shown stored,
      rw stored (
          All-append IsReport db.progress_reports (new_report p input context.now id agent ∷ [])
            good (new_report-IsReport p input context.now id agent, tt)),
    )

resolved-IsReport :
    (input : ResolveBlockerInput) (now : Date) (r : ProgressReport)
    → is_unresolved input.project_id input.report_id r ≡ true
    → IsReport r
    → IsReport (resolved input now r)
resolved-IsReport input now r h good = record {
  reason = good.reason;
  resolution = λ k. ground (arith, h);
  resolver = refl;
}

-- A resolution keeps the constraints on every report.
pub resolve_blocker-IsReport :
    (input : ResolveBlockerInput) (now at : Date) (x : ProgressReport) (db db' : Db)
    → All IsReport db.progress_reports
    → resolve_blocker input now at db ≡ (ok x, db')
    → All IsReport db'.progress_reports
resolve_blocker-IsReport input now at x db db' good h =
    let done = resolve_blocker-Resolution input now at x db db' h in
    rw done.reports (
      All-update IsReport (is_unresolved input.project_id input.report_id) (resolved input now)
        db.progress_reports (resolved-IsReport input now) good)
