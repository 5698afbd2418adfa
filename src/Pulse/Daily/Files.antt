-- ===== src/Pulse/Daily/Files.antt =====
-- The files that a daily pulse lists.
use agentmesh_mcp.Prelude.{
  ◌≡◌, refl, ◌∙◌, ◌↔◌, Row, true, false, List, [], ◌∷◌, Text, text_eq, order_by, order_by-IsSorted,
  insert_by, IsSorted, All, All-insert_by, All-order_by, Unique, Unique-insert, Bool-cases, inl,
  inr, arith,
}
use agentmesh_mcp.Schema.{Uuid, Date, Db, ProgressReport}
use agentmesh_mcp.Pulse.Daily.{
  reports_on, has_file, add_file, add_files, touched_files, text_leb, unique_files, get_daily_pulse,
}
use agentmesh_mcp.Pulse.Daily.Touched.{
  IsReportOn, has_file-touched, has_file-order_by, has_file-Row, Row-has_file, is_touched-Row,
  Row-is_touched, reports_on-IsReportOn, IsReportOn-reports_on,
}

text_leb_trans : (s t u : Text) → text_leb s t ≡ true → text_leb t u ≡ true → text_leb s u ≡ true
unfolding text_leb
text_leb_trans [] t u h k = refl
text_leb_trans (x ∷ xs) [] u h k = absurd (ground arith)
text_leb_trans (x ∷ xs) (y ∷ ys) [] h k = absurd (ground arith)
text_leb_trans (x ∷ xs) (y ∷ ys) (z ∷ zs) h k = ground (arith, text_leb_trans xs ys zs)

text_leb_total : (s t : Text) → text_leb s t ≡ false → text_leb t s ≡ true
unfolding text_leb
text_leb_total [] t h = absurd (ground arith)
text_leb_total (x ∷ xs) [] h = refl
text_leb_total (x ∷ xs) (y ∷ ys) h = ground (arith, text_leb_total xs ys)

-- A list without a file twice.
abbrev pub NoRepeat : List Text → Type 0
NoRepeat files = Unique text_eq files

no_file-All :
    (f : Text) (xs : List Text) → has_file f xs ≡ false → All (λ g. text_eq g f ≡ false) xs
unfolding has_file
no_file-All f [] h = tt
no_file-All f (x ∷ xs) h = (ground arith, no_file-All f xs (ground arith))

add_file-NoRepeat : (f : Text) (xs : List Text) → NoRepeat xs → NoRepeat (add_file f xs)
unfolding add_file
add_file-NoRepeat f xs u = elim (Bool-cases (has_file f xs)) [
  | inl e ↦ rw e u
  | inr e ↦ rw e (Unique-insert text_eq xs f (no_file-All f xs e) u)
]

add_files-NoRepeat : (fs xs : List Text) → NoRepeat xs → NoRepeat (add_files fs xs)
unfolding add_files
add_files-NoRepeat [] xs u = u
add_files-NoRepeat (f ∷ fs) xs u = add_files-NoRepeat fs (add_file f xs) (add_file-NoRepeat f xs u)

touched_files-NoRepeat :
    (rs : List ProgressReport) (xs : List Text) → NoRepeat xs → NoRepeat (touched_files rs xs)
unfolding touched_files
touched_files-NoRepeat [] xs u = u
touched_files-NoRepeat (r ∷ rs) xs u =
    touched_files-NoRepeat rs (add_files r.files_touched xs)
      (add_files-NoRepeat r.files_touched xs u)

text_eq_sym : (s t : Text) → text_eq s t ≡ text_eq t s
unfolding text_eq
text_eq_sym [] [] = refl
text_eq_sym [] (y ∷ ys) = refl
text_eq_sym (x ∷ xs) [] = refl
text_eq_sym (x ∷ xs) (y ∷ ys) = ground (arith, text_eq_sym xs ys)

insert_by-NoRepeat :
    (f : Text) (xs : List Text)
    → All (λ g. text_eq f g ≡ false) xs
    → NoRepeat xs
    → NoRepeat (insert_by text_leb f xs)
unfolding insert_by
insert_by-NoRepeat f [] h u = (tt, tt)
insert_by-NoRepeat f (x ∷ xs) (h, hs) (k, u) = elim (Bool-cases (text_leb f x)) [
  | inl e ↦ rw e ((h, hs), (k, u))
  | inr e ↦ rw e (
    All-insert_by (λ g. text_eq x g ≡ false) text_leb f xs (text_eq_sym x f ∙ h) k,
    insert_by-NoRepeat f xs hs u,
  )
]

order_by-NoRepeat : (xs : List Text) → NoRepeat xs → NoRepeat (order_by text_leb xs)
unfolding order_by
order_by-NoRepeat [] u = tt
order_by-NoRepeat (x ∷ xs) (k, u) =
    insert_by-NoRepeat x (order_by text_leb xs)
      (All-order_by (λ g. text_eq x g ≡ false) text_leb xs k) (order_by-NoRepeat xs u)

-- A daily pulse lists a file where a stored report of the project names it that was made from the
-- start of the day to its last millisecond, and only then; it lists none twice, and in the order
-- of the code units.
pub get_daily_pulse-IsSorted :
    (f : Text) (project_id : Uuid) (start now : Date) (db : Db)
    → (Row f (get_daily_pulse project_id start now db).unique_files_touched
        ↔ ((r : ProgressReport) × IsReportOn project_id start db r × Row f r.files_touched))
      × NoRepeat (get_daily_pulse project_id start now db).unique_files_touched
      × IsSorted text_leb (get_daily_pulse project_id start now db).unique_files_touched
unfolding get_daily_pulse unique_files has_file
get_daily_pulse-IsSorted f project_id start now db =
    let reports = reports_on project_id start db in
    let files = touched_files reports [] in
    let sorted = has_file-order_by f files in
    let touched = has_file-touched f reports [] in
    (
      (
        λ row.
            let listed = Row-has_file f (order_by text_leb files) row in
            let (r, at, named) =
              is_touched-Row f reports (ground (arith, listed, sorted, touched)) in
            (r, reports_on-IsReportOn project_id start db r at, named),
        λ (r, on, named).
            let known =
              Row-is_touched f r reports (IsReportOn-reports_on project_id start db r on) named in
            has_file-Row f (order_by text_leb files) (ground (arith, known, sorted, touched)),
      ),
      order_by-NoRepeat files (touched_files-NoRepeat reports [] tt),
      order_by-IsSorted text_leb text_leb_trans text_leb_total files,
    )
