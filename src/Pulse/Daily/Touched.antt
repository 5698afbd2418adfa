-- ===== src/Pulse/Daily/Touched.antt =====
-- Which files the reports of a day name.
use agentmesh_mcp.Prelude.{
  ◌≡◌, refl, sym, ◌+◌, ◌≤◌, ◌&&◌, ◌==◌, ==_iff, and-true, Row, here, there, All-Row, All-select,
  Row-order_by, Row-select, select, Bool, true, false, ◌||◌, List, [], ◌∷◌, ◌++◌, Text, text_eq,
  text_eq_iff, order_by, insert_by, All-order_by, Bool-cases, inl, inr, arith,
}
use mathlib.Core.Path.{subst}
use agentmesh_mcp.Schema.{Uuid, Date, Db, ProgressReport}
use agentmesh_mcp.Pulse.Daily.{
  reports_on, in_day, by_creation, has_file, add_file, add_files, touched_files, text_leb,
}

-- Whether a report of the list names the file.
unfoldable pub is_touched : Text → List ProgressReport → Bool
is_touched f [] = false
is_touched f (r ∷ rs) = has_file f r.files_touched || is_touched f rs

has_file-append :
    (f : Text) (xs ys : List Text) → has_file f (xs ++ ys) ≡ (has_file f xs || has_file f ys)
unfolding has_file
has_file-append f [] ys = refl
has_file-append f (x ∷ xs) ys = ground (arith, has_file-append f xs ys)

same_file : (f g : Text) (xs : List Text) → text_eq g f ≡ true → has_file f xs ≡ has_file g xs
same_file f g xs h = rw ((text_eq_iff g f).0 h) refl

has_file-add :
    (f g : Text) (xs : List Text) → has_file f (add_file g xs) ≡ (text_eq g f || has_file f xs)
unfolding has_file add_file
has_file-add f g xs =
    let added = has_file-append f xs (g ∷ []) in
    let same = same_file f g xs in ground (arith, added, same)

has_file-add_files :
    (f : Text) (fs xs : List Text) → has_file f (add_files fs xs) ≡ (has_file f fs || has_file f xs)
unfolding has_file add_files
has_file-add_files f [] xs = refl
has_file-add_files f (g ∷ gs) xs =
    let rest = has_file-add_files f gs (add_file g xs) in
    let here = has_file-add f g xs in ground (arith, rest, here)

pub has_file-touched :
    (f : Text) (rs : List ProgressReport) (xs : List Text)
    → has_file f (touched_files rs xs) ≡ (is_touched f rs || has_file f xs)
unfolding touched_files is_touched
has_file-touched f [] xs = refl
has_file-touched f (r ∷ rs) xs =
    let rest = has_file-touched f rs (add_files r.files_touched xs) in
    let here = has_file-add_files f r.files_touched xs in ground (arith, rest, here)

has_file-insert_by :
    (f g : Text) (xs : List Text)
    → has_file f (insert_by text_leb g xs) ≡ (text_eq g f || has_file f xs)
unfolding has_file insert_by
has_file-insert_by f g [] = refl
has_file-insert_by f g (x ∷ xs) = ground (arith, has_file-insert_by f g xs)

pub has_file-order_by :
    (f : Text) (xs : List Text) → has_file f (order_by text_leb xs) ≡ has_file f xs
unfolding has_file order_by
has_file-order_by f [] = refl
has_file-order_by f (x ∷ xs) =
    let rest = has_file-order_by f xs in
    let here = has_file-insert_by f x (order_by text_leb xs) in ground (arith, rest, here)

pub has_file-Row : (f : Text) (files : List Text) → has_file f files ≡ true → Row f files
unfolding has_file
has_file-Row f [] h = absurd (ground arith)
has_file-Row f (g ∷ gs) h = elim (Bool-cases (text_eq g f)) [
  | inl e ↦ subst (λ x. Row f (x ∷ gs)) (sym ((text_eq_iff g f).0 e)) here
  | inr e ↦ there (has_file-Row f gs (ground (arith, e, h)))
]

pub Row-has_file : (f : Text) (files : List Text) → Row f files → has_file f files ≡ true
unfolding has_file
Row-has_file f [] r = elim r [ ]
Row-has_file f (g ∷ gs) here = let same = (text_eq_iff f f).1 refl in ground (arith, same)
Row-has_file f (g ∷ gs) (there r) = let rest = Row-has_file f gs r in ground (arith, rest)

-- A report of the list that names the file.
pub is_touched-Row :
    (f : Text) (rs : List ProgressReport)
    → is_touched f rs ≡ true
    → (r : ProgressReport) × Row r rs × Row f r.files_touched
unfolding is_touched
is_touched-Row f [] h = absurd (ground arith)
is_touched-Row f (r ∷ rs) h = elim (Bool-cases (has_file f r.files_touched)) [
  | inl e ↦ (r, here, has_file-Row f r.files_touched e)
  | inr e ↦
      let (x, row, named) = is_touched-Row f rs (ground (arith, e, h)) in (x, there row, named)
]

pub Row-is_touched :
    (f : Text) (r : ProgressReport) (rs : List ProgressReport)
    → Row r rs
    → Row f r.files_touched
    → is_touched f rs ≡ true
unfolding is_touched
Row-is_touched f r [] row named = elim row [ ]
Row-is_touched f r (x ∷ rs) here named =
    let first = Row-has_file f r.files_touched named in ground (arith, first)
Row-is_touched f r (x ∷ rs) (there row) named =
    let rest = Row-is_touched f r rs row named in ground (arith, rest)

-- A report of the project from the day that starts there.
pub record IsReportOn (project_id : Uuid) (start : Date) (db : Db) (r : ProgressReport)
    : Type 0 where
  pub stored : Row r db.progress_reports
  pub project : r.project_id ≡ project_id
  pub since : start ≤ r.created_at
  pub until : r.created_at ≤ start + 86399999

abbrev is_on : Uuid → Date → ProgressReport → Bool
is_on project_id start r = r.project_id == project_id && in_day start r.created_at

is_on-IsReportOn :
    (project_id : Uuid) (start : Date) (db : Db) (r : ProgressReport)
    → Row r db.progress_reports
    → is_on project_id start r ≡ true
    → IsReportOn project_id start db r
is_on-IsReportOn project_id start db r row h =
    let (own, day) = and-true (r.project_id == project_id) (in_day start r.created_at) h in
    record {
      stored = row;
      project = (==_iff r.project_id project_id).0 own;
      since = ground arith;
      until = ground arith;
    }

pub reports_on-IsReportOn :
    (project_id : Uuid) (start : Date) (db : Db) (r : ProgressReport)
    → Row r (reports_on project_id start db)
    → IsReportOn project_id start db r
unfolding reports_on
reports_on-IsReportOn project_id start db r row =
    let on = is_on project_id start in
    All-Row (IsReportOn project_id start db)
      (All-order_by (IsReportOn project_id start db) by_creation (select on db.progress_reports) (
        All-select (IsReportOn project_id start db) on db.progress_reports
          (is_on-IsReportOn project_id start db)))
      row

pub IsReportOn-reports_on :
    (project_id : Uuid) (start : Date) (db : Db) (r : ProgressReport)
    → IsReportOn project_id start db r
    → Row r (reports_on project_id start db)
unfolding reports_on
IsReportOn-reports_on project_id start db r on =
    let own = (==_iff r.project_id project_id).1 on.project in
    let since = on.since in
    let until = on.until in
    Row-order_by by_creation r (select (is_on project_id start) db.progress_reports) (
      Row-select (is_on project_id start) r db.progress_reports on.stored
        (ground (arith, own, since, until)))
