-- ===== src/Tests/Days.antt =====
-- The pulse of a day with one agent that is stuck on two files.
use agentmesh_mcp.Prelude.{◌↔◌, Row, ◌≡◌, refl, true, none, [], ◌∷◌, codes, count, map, IsSorted}
use agentmesh_mcp.Schema.{Db, ProgressReport, blocked}
use agentmesh_mcp.Pulse.Daily.{
  reports_on, active_today, agent_summary, has_file, text_leb, unique_files, touched_files,
  add_files, add_file, get_daily_pulse,
}
use agentmesh_mcp.Pulse.Daily.Laws.{shown, IsGrouped, get_daily_pulse-IsGrouped}
use agentmesh_mcp.Pulse.Daily.Files.{NoRepeat, get_daily_pulse-IsSorted}
use agentmesh_mcp.Pulse.Daily.Touched.{IsReportOn}
use agentmesh_mcp.Tests.Data.{project, ann_id, start, queries}

abbrev report : ProgressReport
report = record {
  id = 41;
  project_id = project;
  agent_id = ann_id;
  summary = codes "stuck";
  current_goal = none;
  files_touched = codes "b.ts" ∷ codes "a.ts" ∷ codes "b.ts" ∷ [];
  test_status = none;
  state = blocked;
  blocker_reason = none;
  resolved_at = none;
  resolved_by_user_id = none;
  resolution_note = none;
  created_at = 4000;
}

abbrev day_db : Db
day_db = record start { progress_reports = report ∷ [] }

unfoldable daily : Unit {0}
unfolding queries reports_on text_leb unique_files touched_files add_files add_file has_file
    get_daily_pulse
daily = tt

lists_files :
    (get_daily_pulse project 0 5000 day_db).unique_files_touched ≡ codes "a.ts" ∷ codes "b.ts" ∷ []
unfolding daily
lists_files = refl

get_daily_pulse-IsGrouped_example :
    (shown (λ s. true) (get_daily_pulse project 0 5000 day_db).developers
      ≡ count
          (λ s. true)
          (map (agent_summary (reports_on project 0 day_db) 5000) (active_today project 0 day_db)))
    × IsGrouped (get_daily_pulse project 0 5000 day_db).developers
get_daily_pulse-IsGrouped_example = get_daily_pulse-IsGrouped (λ s. true) project 0 5000 day_db

get_daily_pulse-IsSorted_example :
    (Row (codes "a.ts") (get_daily_pulse project 0 5000 day_db).unique_files_touched
      ↔ ((r : ProgressReport) × IsReportOn project 0 day_db r × Row (codes "a.ts") r.files_touched))
    × NoRepeat (get_daily_pulse project 0 5000 day_db).unique_files_touched
    × IsSorted text_leb (get_daily_pulse project 0 5000 day_db).unique_files_touched
get_daily_pulse-IsSorted_example = get_daily_pulse-IsSorted (codes "a.ts") project 0 5000 day_db
