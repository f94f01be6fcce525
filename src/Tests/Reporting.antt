-- ===== src/Tests/Reporting.antt =====
-- A platform close on a concrete database.
use kungfu.Base.{ℕ, ◌≡◌, refl, true, false, some, [], ◌∷◌, lookup, put, first}
use kungfu.Task.{task_open, task_closed, task_transition}
use kungfu.Tx.{ok, running, Ensures_elim}
use kungfu.Tables.{Db, TaskRow, ReportRow, report_open, report_actioned}
use kungfu.Repository.{
  find_task_by_code, is_open_on, apply_task_status, action_open_reports, actioned_reports,
  count_open,
}
use kungfu.Service.Publisher.{apply_status_change, lock_any_task}
use kungfu.Service.Governance.{platform_close, trim_space, trim_left, trim_right}
use kungfu.Reporting.{platform_close_lem}
use kungfu.Tests.Data.{db_of, task}

abbrev report : ReportRow
report = record {
  task_id = 1;
  reporter_id = 2;
  reason = "spam";
  status = report_open;
  created_at = 0;
  updated_at = 0;
}

abbrev reported_db : Db
reported_db = record (db_of (task task_open 100 0 0 0) [] [] []) { reports = (1, report) ∷ [] }

abbrev closed_db : Db
closed_db = record reported_db {
  tasks =
      (
        1,
        record (task task_open 100 0 0 0) {
          status = task_closed;
          closed_reason = some "spam";
          updated_at = 100;
        },
      )
      ∷ [];
  reports = (1, record report { status = report_actioned; updated_at = 100 }) ∷ [];
}

closes : platform_close true "t1" " spam\n" reported_db ≡ ok (1, closed_db)
unfolding platform_close lock_any_task apply_status_change find_task_by_code first task_transition
    apply_task_status action_open_reports actioned_reports count_open trim_left trim_right lookup
    put running
closes = refl

platform_close_lem_example :
    (task_id : ℕ) × (t t' : TaskRow) × (find_task_by_code "t1" reported_db ≡ some (task_id, t))
    × (true ≡ true)
    × (lookup task_id closed_db.tasks ≡ some t')
    × (t'.status ≡ task_closed)
    × (t'.closed_reason ≡ some (trim_space " spam\n"))
    × ((id : ℕ) (r : ReportRow)
        → lookup id closed_db.reports ≡ some r
        → is_open_on task_id r ≡ false)
platform_close_lem_example =
    Ensures_elim _ (platform_close_lem true "t1" " spam\n" reported_db) closes
