-- ===== src/Repository/Reports.antt =====
-- internal/repository/task_v1.go, the reports: tb_task_report.
use kungfu.Base.{
  ℕ, suc, String, Bool, true, false, ◌&&◌, not, Option, none, some, [], ◌∷◌, ◌==◌, ltb,
  if◌then◌else◌, lookup, put, fresh, is_some, Table,
}
use kungfu.Tx.{
  Tx, ◌>>=◌, ◌>>◌, pure, fail_if, or_fail, gets, modify, state_conflict, constraint_violation,
}
use kungfu.Tables.{
  Db, Time, ReportRow, ReportStatus, report_open, report_dismissed, report_actioned,
}

abbrev pub same_report_status : ReportStatus → ReportStatus → Bool
same_report_status report_open report_open = true
same_report_status report_dismissed report_dismissed = true
same_report_status report_actioned report_actioned = true
same_report_status _ _ = false

abbrev pub is_open_on : ℕ → ReportRow → Bool
is_open_on task_id r = r.task_id == task_id && same_report_status r.status report_open

abbrev first_id : ℕ → Option ℕ → Option ℕ
first_id id none = some id
first_id id (some other) = if ltb id other then some id else some other

-- the open report of the smallest id, or none
unfoldable pub find_open_report : ℕ → ℕ → Table ReportRow → Option ℕ
find_open_report task_id reporter_id [] = none
find_open_report task_id reporter_id ((id, r) ∷ rows) =
    let rest = find_open_report task_id reporter_id rows in
    if r.reporter_id == reporter_id && is_open_on task_id r then first_id id rest else rest

-- Foreign keys on the task and the reporter.
unfoldable pub insert_task_report : ℕ → ℕ → String → Tx Db ℕ
insert_task_report task_id reporter_id reason = do
  db ← gets (λ (db : Db). db)
  fail_if (not (is_some (lookup task_id db.tasks))) constraint_violation
  fail_if (not (is_some (lookup reporter_id db.bots))) constraint_violation
  modify (λ (d : Db). record d {
    reports =
        (
          fresh d.reports,
          record {
            task_id = task_id;
            reporter_id = reporter_id;
            reason = reason;
            status = report_open;
            created_at = d.now;
            updated_at = d.now;
          },
        )
        ∷ d.reports;
  })
  pure (fresh db.reports)

unfoldable pub set_report_status : ℕ → ReportStatus → ReportStatus → Tx Db (Unit {0})
set_report_status report_id from to = do
  db ← gets (λ (db : Db). db)
  r ← or_fail (lookup report_id db.reports) state_conflict
  fail_if (not (same_report_status r.status from)) state_conflict
  modify (λ (d : Db). record d {
    reports = put report_id (record r { status = to; updated_at = d.now }) d.reports;
  })

unfoldable pub actioned_reports : ℕ → Time → Table ReportRow → Table ReportRow
actioned_reports task_id now [] = []
actioned_reports task_id now ((id, r) ∷ rows) =
    let rest = actioned_reports task_id now rows in
    if is_open_on task_id r
    then (id, record r { status = report_actioned; updated_at = now }) ∷ rest
    else (id, r) ∷ rest

unfoldable pub count_open : ℕ → Table ReportRow → ℕ
count_open task_id [] = 0
count_open task_id ((id, r) ∷ rows) =
    let rest = count_open task_id rows in if is_open_on task_id r then suc rest else rest

-- the number of rows that moved
unfoldable pub action_open_reports : ℕ → Tx Db ℕ
action_open_reports task_id = do
  db ← gets (λ (db : Db). db)
  modify (λ (d : Db). record d { reports = actioned_reports task_id d.now d.reports })
  pure (count_open task_id db.reports)
