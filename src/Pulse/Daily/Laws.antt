-- ===== src/Pulse/Daily/Laws.antt =====
-- The daily pulse shows every active agent once.
use agentmesh_mcp.Prelude.{
  ℕ, ◌+◌, ◌≡◌, Bool, false, Option, List, [], ◌∷◌, map, count, count-append, All, Unique,
  if◌then◌else◌, Bool-cases, inl, inr, arith,
}
use agentmesh_mcp.Schema.{Uuid, Date, Db, ProgressReport}
use agentmesh_mcp.Pulse.Daily.{
  PulseAgentSummary, PulseConnectionSummary, PulseDeveloperSummary, JoinedAgent, reports_on,
  active_today, agent_summary, user_key, token_key, same_key, add_to_connections, add_to_developers,
  group_agents, get_daily_pulse,
}

-- How many of the agents that a pulse shows pass a test.
unfoldable pub shown_in : (PulseAgentSummary → Bool) → List PulseConnectionSummary → ℕ
shown_in q [] = 0
shown_in q (c ∷ cs) = count q c.agents + shown_in q cs

unfoldable pub shown : (PulseAgentSummary → Bool) → List PulseDeveloperSummary → ℕ
shown q [] = 0
shown q (d ∷ ds) = shown_in q d.connections + shown q ds

abbrev one : (PulseAgentSummary → Bool) → PulseAgentSummary → ℕ
one q s = if q s then 1 else 0

shown_in-add :
    (q : PulseAgentSummary → Bool) (row : JoinedAgent) (s : PulseAgentSummary)
    (cs : List PulseConnectionSummary)
    → shown_in q (add_to_connections row s cs) ≡ shown_in q cs + one q s
unfolding shown_in add_to_connections count
shown_in-add q row s [] = ground arith
shown_in-add q row s (c ∷ cs) = elim (Bool-cases (same_key c.connection_id (token_key row))) [
  | inl e ↦ let counted = count-append q c.agents (s ∷ []) in ground (arith, e, counted)
  | inr e ↦ let rest = shown_in-add q row s cs in ground (arith, e, rest)
]

shown-add :
    (q : PulseAgentSummary → Bool) (row : JoinedAgent) (s : PulseAgentSummary)
    (ds : List PulseDeveloperSummary)
    → shown q (add_to_developers row s ds) ≡ shown q ds + one q s
unfolding shown shown_in add_to_developers count
shown-add q row s [] = ground arith
shown-add q row s (d ∷ ds) = elim (Bool-cases (same_key d.user_id (user_key row))) [
  | inl e ↦ let more = shown_in-add q row s d.connections in ground (arith, e, more)
  | inr e ↦ let rest = shown-add q row s ds in ground (arith, e, rest)
]

shown-group :
    (q : PulseAgentSummary → Bool) (reports : List ProgressReport) (now : Date)
    (rows : List JoinedAgent) (ds : List PulseDeveloperSummary)
    → shown q (group_agents reports now rows ds)
      ≡ shown q ds + count q (map (agent_summary reports now) rows)
unfolding group_agents count
shown-group q reports now [] ds = ground arith
shown-group q reports now (row ∷ rows) ds =
    let s = agent_summary reports now row in
    let rest = shown-group q reports now rows (add_to_developers row s ds) in
    let here = shown-add q row s ds in ground (arith, rest, here)

abbrev pub same_connection : PulseConnectionSummary → PulseConnectionSummary → Bool
same_connection a b = same_key a.connection_id b.connection_id

abbrev pub same_developer : PulseDeveloperSummary → PulseDeveloperSummary → Bool
same_developer a b = same_key a.user_id b.user_id

-- Another connection stays apart from those of the list.
add_to_connections-apart :
    (k : Option Uuid) (row : JoinedAgent) (s : PulseAgentSummary) (cs : List PulseConnectionSummary)
    → same_key k (token_key row) ≡ false
    → All (λ c. same_key k c.connection_id ≡ false) cs
    → All (λ c. same_key k c.connection_id ≡ false) (add_to_connections row s cs)
unfolding add_to_connections
add_to_connections-apart k row s [] other h = (other, tt)
add_to_connections-apart k row s (c ∷ cs) other (h, hs) =
    elim (Bool-cases (same_key c.connection_id (token_key row))) [
      | inl e ↦ rw e (h, hs)
      | inr e ↦ rw e (h, add_to_connections-apart k row s cs other hs)
    ]

add_to_connections-Unique :
    (row : JoinedAgent) (s : PulseAgentSummary) (cs : List PulseConnectionSummary)
    → Unique same_connection cs
    → Unique same_connection (add_to_connections row s cs)
unfolding add_to_connections
add_to_connections-Unique row s [] u = (tt, tt)
add_to_connections-Unique row s (c ∷ cs) (h, u) =
    elim (Bool-cases (same_key c.connection_id (token_key row))) [
      | inl e ↦ rw e (h, u)
      | inr e ↦ rw e (
        add_to_connections-apart c.connection_id row s cs e h,
        add_to_connections-Unique row s cs u,
      )
    ]

add_to_developers-apart :
    (k : Option Uuid) (row : JoinedAgent) (s : PulseAgentSummary) (ds : List PulseDeveloperSummary)
    → same_key k (user_key row) ≡ false
    → All (λ d. same_key k d.user_id ≡ false) ds
    → All (λ d. same_key k d.user_id ≡ false) (add_to_developers row s ds)
unfolding add_to_developers
add_to_developers-apart k row s [] other h = (other, tt)
add_to_developers-apart k row s (d ∷ ds) other (h, hs) =
    elim (Bool-cases (same_key d.user_id (user_key row))) [
      | inl e ↦ rw e (h, hs)
      | inr e ↦ rw e (h, add_to_developers-apart k row s ds other hs)
    ]

-- No developer is in two groups, and no connection of a developer.
pub record IsGrouped (ds : List PulseDeveloperSummary) : Type 0 where
  pub developers : Unique same_developer ds
  pub connections : All (λ d. Unique same_connection d.connections) ds

add_to_developers-IsGrouped :
    (row : JoinedAgent) (s : PulseAgentSummary) (ds : List PulseDeveloperSummary)
    → IsGrouped ds
    → IsGrouped (add_to_developers row s ds)
unfolding add_to_developers
add_to_developers-IsGrouped row s [] g = record {
  developers = (tt, tt);
  connections = ((tt, tt), tt);
}
add_to_developers-IsGrouped row s (d ∷ ds) g =
    elim (Bool-cases (same_key d.user_id (user_key row))) [
      | inl e ↦ rw e (record {
        developers = g.developers;
        connections =
            (add_to_connections-Unique row s d.connections g.connections.0, g.connections.1);
      })
      | inr e ↦
          let rest =
            add_to_developers-IsGrouped row s ds
              (record { developers = g.developers.1; connections = g.connections.1 }) in
          rw e (record {
            developers =
                (add_to_developers-apart d.user_id row s ds e g.developers.0, rest.developers);
            connections = (g.connections.0, rest.connections);
          })
    ]

group_agents-IsGrouped :
    (reports : List ProgressReport) (now : Date) (rows : List JoinedAgent)
    (ds : List PulseDeveloperSummary)
    → IsGrouped ds
    → IsGrouped (group_agents reports now rows ds)
unfolding group_agents
group_agents-IsGrouped reports now [] ds g = g
group_agents-IsGrouped reports now (row ∷ rows) ds g =
    let s = agent_summary reports now row in
    group_agents-IsGrouped reports now rows (add_to_developers row s ds)
      (add_to_developers-IsGrouped row s ds g)

-- A daily pulse shows every agent that was active on the day in one place: for every test of a
-- summary, as many of the agents shown under the developers and their connections pass it as of
-- the summaries of the active agents; and no developer is listed twice, nor a connection under one
-- developer.
pub get_daily_pulse-IsGrouped :
    (q : PulseAgentSummary → Bool) (project_id : Uuid) (start now : Date) (db : Db)
    → (shown q (get_daily_pulse project_id start now db).developers
        ≡ count q (
            map
              (agent_summary (reports_on project_id start db) now)
              (active_today project_id start db)))
      × IsGrouped (get_daily_pulse project_id start now db).developers
unfolding get_daily_pulse shown
get_daily_pulse-IsGrouped q project_id start now db =
    let reports = reports_on project_id start db in
    let rows = active_today project_id start db in
    let counted = shown-group q reports now rows [] in
    (
      ground (arith, counted),
      group_agents-IsGrouped reports now rows [] (record { developers = tt; connections = tt }),
    )
