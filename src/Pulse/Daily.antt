-- ===== src/Pulse/Daily.antt =====
-- src/pulse/service.ts, `getDailyPulse`: the reports of a day, grouped by developer and connection.
-- The day is given by its first millisecond; a time of day is its hours and minutes.
pub mod Laws
pub mod Files
pub mod Touched
use agentmesh_mcp.Prelude.{
  ℕ, ◌+◌, ◌*◌, ◌/◌, ◌%◌, Bool, true, false, not, ◌&&◌, ◌||◌, Option, none, some, List, [], ◌∷◌,
  ◌++◌, map, Text, codes, text_eq, ◌==◌, ltb, leb, length, is_none, is_some, is_value, find, select,
  order_by, if◌then◌else◌,
}
use agentmesh_mcp.Schema.{
  Uuid, Date, Db, Agent, User, ProjectToken, ProgressReport, ProgressState, blocked,
  TestStatusReport,
}
use agentmesh_mcp.Agents.Presence.{Presence, presence_at}
use agentmesh_mcp.Paging.{last}

pub record PulseProgress : Type 0 where
  pub id : Uuid
  pub summary : Text
  pub state : ProgressState
  pub blocker_reason : Option Text
  pub test_status : Option TestStatusReport
  pub files_touched : List Text
  pub reported_at : Date
  pub resolved_at : Option Date
  pub resolution_note : Option Text

pub record PulseHistory : Type 0 where
  pub id : Uuid
  pub hours : ℕ
  pub minutes : ℕ
  pub summary : Text
  pub state : ProgressState
  pub blocker_reason : Option Text
  pub resolved_at : Option Date
  pub resolution_note : Option Text

pub record PulseAgentSummary : Type 0 where
  pub agent_id : Uuid
  pub name : Text
  pub client : Text
  pub status : Presence
  pub last_seen_at : Date
  pub current_goal : Option Text
  pub latest_progress : Option PulseProgress
  pub history : List PulseHistory

pub record PulseConnectionSummary : Type 0 where
  pub connection_id : Option Uuid
  pub label : Text
  pub agents : List PulseAgentSummary

pub record PulseDeveloperSummary : Type 0 where
  pub user_id : Option Uuid
  pub display_name : Text
  pub avatar_url : Option Text
  pub connections : List PulseConnectionSummary

pub record DailyPulse : Type 0 where
  pub active_agents_count : ℕ
  pub total_sessions_count : ℕ
  pub active_blockers_count : ℕ
  pub unique_files_touched_count : ℕ
  pub unique_files_touched : List Text
  pub developers : List PulseDeveloperSummary

-- From 00:00:00.000 to 23:59:59.999.
abbrev pub in_day : Date → Date → Bool
in_day start t = leb start t && leb t (start + 86399999)

abbrev pub by_creation : ProgressReport → ProgressReport → Bool
by_creation a b = leb a.created_at b.created_at

unfoldable pub reports_on : Uuid → Date → Db → List ProgressReport
reports_on project_id start db = order_by by_creation (
    select (λ (r : ProgressReport). r.project_id == project_id && in_day start r.created_at)
      db.progress_reports)

-- An agent with the left joins to its token and to the user who made the token.
pub record JoinedAgent : Type 0 where
  pub agent : Agent
  pub token : Option ProjectToken
  pub user : Option User

unfoldable pub token_of_agent : Agent → Option Uuid → Db → Option ProjectToken
token_of_agent agent none db = none
token_of_agent agent (some id) db =
    find (λ (t : ProjectToken). t.id == id && t.project_id == agent.project_id) db.project_tokens

unfoldable pub creator_of : Option ProjectToken → Db → Option User
creator_of none db = none
creator_of (some t) db = find (λ (u : User). is_value t.created_by_user_id u.id) db.users

abbrev pub joined_agent : Db → Agent → JoinedAgent
joined_agent db agent =
    let token = token_of_agent agent agent.registered_via_token_id db in
    record { agent = agent; token = token; user = creator_of token db }

unfoldable pub project_agents : Uuid → Db → List JoinedAgent
project_agents project_id db =
    map (joined_agent db) (select (λ (a : Agent). a.project_id == project_id) db.agents)

-- `agentReportsMap.get(agent.id) ?? []`
abbrev pub reports_of : List ProgressReport → JoinedAgent → List ProgressReport
reports_of reports row = select (λ (r : ProgressReport). r.agent_id == row.agent.id) reports

unfoldable pub is_active_today : List ProgressReport → Date → JoinedAgent → Bool
is_active_today reports start row =
    is_some (last (reports_of reports row)) || in_day start row.agent.last_seen_at

unfoldable pub active_today : Uuid → Date → Db → List JoinedAgent
active_today project_id start db =
    select (is_active_today (reports_on project_id start db) start) (project_agents project_id db)

abbrev pub is_blocked_state : ProgressState → Bool
is_blocked_state blocked = true
is_blocked_state _ = false

unfoldable pub is_active_blocker : Option ProgressReport → Bool
is_active_blocker none = false
is_active_blocker (some r) = is_blocked_state r.state && is_none r.resolved_at

unfoldable pub latest_progress : Option ProgressReport → Option PulseProgress
latest_progress none = none
latest_progress (some r) = some (record {
  id = r.id;
  summary = r.summary;
  state = r.state;
  blocker_reason = r.blocker_reason;
  test_status = r.test_status;
  files_touched = r.files_touched;
  reported_at = r.created_at;
  resolved_at = r.resolved_at;
  resolution_note = r.resolution_note;
})

unfoldable pub history_entry : ProgressReport → PulseHistory
history_entry r = record {
  id = r.id;
  hours = r.created_at / 3600000 % 24;
  minutes = r.created_at / 60000 % 60;
  summary = r.summary;
  state = r.state;
  blocker_reason = r.blocker_reason;
  resolved_at = r.resolved_at;
  resolution_note = r.resolution_note;
}

unfoldable pub goal_of : Option ProgressReport → Option Text
goal_of none = none
goal_of (some r) = r.current_goal

unfoldable pub agent_summary : List ProgressReport → Date → JoinedAgent → PulseAgentSummary
agent_summary reports now row = record {
  agent_id = row.agent.id;
  name = row.agent.name;
  client = row.agent.client;
  status = presence_at row.agent.last_seen_at now;
  last_seen_at = row.agent.last_seen_at;
  current_goal = goal_of (last (reports_of reports row));
  latest_progress = latest_progress (last (reports_of reports row));
  history = map history_entry (reports_of reports row);
}

-- `user?.id`, which is the key of the developer's map, where "unassigned" stands for none.
abbrev pub user_key : JoinedAgent → Option Uuid
user_key row = elim row.user [ none ↦ none | some u ↦ some u.id ]

abbrev pub token_key : JoinedAgent → Option Uuid
token_key row = elim row.token [ none ↦ none | some t ↦ some t.id ]

unfoldable pub same_key : Option Uuid → Option Uuid → Bool
same_key none none = true
same_key (some a) (some b) = a == b
same_key _ _ = false

unfoldable pub token_name : Option ProjectToken → Text
token_name none = codes "CLI Agent"
token_name (some t) =
    if ltb 0 (length t.label) then codes "Device: " ++ t.label else codes "CLI Agent"

unfoldable pub developer_name : JoinedAgent → Text
developer_name row = elim row.user [ none ↦ token_name row.token | some u ↦ u.display_name ]

abbrev pub new_connection : JoinedAgent → PulseAgentSummary → PulseConnectionSummary
new_connection row summary = record {
  connection_id = token_key row;
  label = elim row.token [ none ↦ codes "Direct CLI" | some t ↦ t.label ];
  agents = summary ∷ [];
}

abbrev pub new_developer : JoinedAgent → PulseAgentSummary → PulseDeveloperSummary
new_developer row summary = record {
  user_id = user_key row;
  display_name = developer_name row;
  avatar_url = elim row.user [ none ↦ none | some u ↦ u.avatar_url ];
  connections = new_connection row summary ∷ [];
}

-- The first connection with the token's id gets the agent, or a new one at the end.
unfoldable pub add_to_connections :
    JoinedAgent → PulseAgentSummary → List PulseConnectionSummary → List PulseConnectionSummary
add_to_connections row summary [] = new_connection row summary ∷ []
add_to_connections row summary (c ∷ cs) =
    let rest = add_to_connections row summary cs in
    if same_key c.connection_id (token_key row)
    then record c { agents = c.agents ++ summary ∷ [] } ∷ cs
    else c ∷ rest

-- The developer in the map, in the order of insertion, or a new one at the end.
unfoldable pub add_to_developers :
    JoinedAgent → PulseAgentSummary → List PulseDeveloperSummary → List PulseDeveloperSummary
add_to_developers row summary [] = new_developer row summary ∷ []
add_to_developers row summary (d ∷ ds) =
    let rest = add_to_developers row summary ds in
    if same_key d.user_id (user_key row)
    then record d { connections = add_to_connections row summary d.connections } ∷ ds
    else d ∷ rest

-- The loop over the active agents.
unfoldable pub group_agents :
    List ProgressReport
    → Date
    → List JoinedAgent
    → List PulseDeveloperSummary
    → List PulseDeveloperSummary
group_agents reports now [] developers = developers
group_agents reports now (row ∷ rows) developers =
    group_agents reports now rows (add_to_developers row (agent_summary reports now row) developers)

unfoldable pub total_sessions : List PulseDeveloperSummary → ℕ
total_sessions [] = 0
total_sessions (d ∷ ds) = length d.connections + total_sessions ds

-- `Set.add`: a file that is there already is not added again.
unfoldable pub has_file : Text → List Text → Bool
has_file f [] = false
has_file f (g ∷ gs) = text_eq g f || has_file f gs

unfoldable pub add_file : Text → List Text → List Text
add_file f files = if has_file f files then files else files ++ f ∷ []

unfoldable pub add_files : List Text → List Text → List Text
add_files [] files = files
add_files (f ∷ fs) files = add_files fs (add_file f files)

unfoldable pub touched_files : List ProgressReport → List Text → List Text
touched_files [] files = files
touched_files (r ∷ rs) files = touched_files rs (add_files r.files_touched files)

-- The order of `toSorted`, which compares code units.
unfoldable pub text_leb : Text → Text → Bool
text_leb [] t = true
text_leb (x ∷ xs) [] = false
text_leb (x ∷ xs) (y ∷ ys) = ltb x y || x == y && text_leb xs ys

unfoldable pub unique_files : List ProgressReport → List Text
unique_files reports = order_by text_leb (touched_files reports [])

unfoldable pub get_daily_pulse : Uuid → Date → Date → Db → DailyPulse
get_daily_pulse project_id start now db =
    let reports = reports_on project_id start db in
    let rows = active_today project_id start db in
    let developers = group_agents reports now rows [] in
    record {
      active_agents_count = length rows;
      total_sessions_count = total_sessions developers;
      active_blockers_count =
          length (select (λ row. is_active_blocker (last (reports_of reports row))) rows);
      unique_files_touched_count = length (unique_files reports);
      unique_files_touched = unique_files reports;
      developers = developers;
    }
