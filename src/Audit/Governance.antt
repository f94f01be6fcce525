-- ===== src/Audit/Governance.antt =====
-- internal/service/task_report.go and task_governance.go: their operations and the audit's equations.
use kungfu.Base.{ℕ, refl, Bool, Option, none, some, String, Table}
use kungfu.Tx.{
  Ensures, holds, Ensures-ok, Ensures-or_fail, Ensures-fail_if, Ensures-call, Ensures-last_masked,
  Ensures_elim,
}
use kungfu.Tables.{Db, ReportRow, ReportStatus}
use kungfu.Repository.{find_open_report, insert_task_report, set_report_status, action_open_reports}
use kungfu.Service.Governance.{
  report_task, platform_close, dismiss_report, close_reported, trim_space, file_report,
}
use kungfu.Audit.Sums.{IsBalanced}
use kungfu.Audit.Moves.{Effect-Untouched, Effect-still}
use kungfu.Audit.Balance.{still-IsBalanced}
use kungfu.Audit.Claims.{require_task_audience-same}
use kungfu.Audit.Publisher.{lock_for-same, apply_status_change-IsBalanced}

reports-IsBalanced :
    (rows : Table ReportRow) (db : Db) → IsBalanced db → IsBalanced (record db { reports = rows })
reports-IsBalanced rows db b = still-IsBalanced b (
    Effect-Untouched _ (Effect-still db)
      (record { same_tasks = refl; same_claims = refl; same_submissions = refl }))

insert_task_report-IsBalanced :
    (task_id reporter_id : ℕ) (reason : String) (db : Db)
    → IsBalanced db
    → Ensures (λ _ db'. IsBalanced db') (insert_task_report task_id reporter_id reason db)
unfolding insert_task_report
insert_task_report-IsBalanced task_id reporter_id reason db b = Ensures-ok _ _ _ (
    Ensures-fail_if _ _ _ _
      λ x. Ensures-fail_if _ _ _ _ λ y. Ensures-ok _ _ _ (holds (reports-IsBalanced _ db b)))

action_open_reports-IsBalanced :
    (task_id : ℕ) (db : Db)
    → IsBalanced db
    → Ensures (λ _ db'. IsBalanced db') (action_open_reports task_id db)
unfolding action_open_reports
action_open_reports-IsBalanced task_id db b =
    Ensures-ok _ _ _ (Ensures-ok _ _ _ (holds (reports-IsBalanced _ db b)))

set_report_status-IsBalanced :
    (report_id : ℕ) (from to : ReportStatus) (db : Db)
    → IsBalanced db
    → Ensures (λ _ db'. IsBalanced db') (set_report_status report_id from to db)
unfolding set_report_status
set_report_status-IsBalanced report_id from to db b =
    Ensures-ok _ _ _ (
      Ensures-or_fail _ _ _ _
        λ x ex. Ensures-fail_if _ _ _ _ λ y. holds (reports-IsBalanced _ db b))

pub report_task-IsBalanced :
    (agent_id : ℕ) (code reason : String) (db : Db)
    → IsBalanced db
    → Ensures (λ _ db'. IsBalanced db') (report_task agent_id code reason db)
unfolding report_task
report_task-IsBalanced agent_id code reason db b = Ensures-fail_if _ _ _ _ λ g. Ensures-ok _ _ _ (
    Ensures-or_fail _ _ _ _ λ (task_id, t) e. Ensures-call _ _ λ u db₁ e₁.
      let same = Ensures_elim _ (require_task_audience-same task_id t agent_id db) e₁ in
      let b₁ : IsBalanced db₁ = rw same b in
      filed (find_open_report task_id agent_id db.reports) task_id db₁ b₁)
  where
    filed :
        (o : Option ℕ) (task_id : ℕ) (d : Db)
        → IsBalanced d
        → Ensures (λ _ db'. IsBalanced db') (file_report o task_id agent_id (trim_space reason) d)
    filed (some id) task_id d h = holds h
    filed none task_id d h = Ensures-last_masked _ _ λ v d' r.
        Ensures_elim _ (insert_task_report-IsBalanced task_id agent_id (trim_space reason) d h) r

pub platform_close-IsBalanced :
    (is_admin : Bool) (code reason : String) (db : Db)
    → IsBalanced db
    → Ensures (λ _ db'. IsBalanced db') (platform_close is_admin code reason db)
unfolding platform_close
platform_close-IsBalanced is_admin code reason db b = Ensures-fail_if _ _ _ _ λ g.
    Ensures-call _ _ λ r db₁ e₁.
      let (same, found) = Ensures_elim _ (lock_for-same none code db) e₁ in
      let b₁ : IsBalanced db₁ = rw same b in
      Ensures-call _ _ λ u db₂ e₂.
        let b₂ = Ensures_elim _ (apply_status_change-IsBalanced code none _ _ db₁ b₁) e₂ in
        Ensures-fail_if _ _ _ _ λ a.
          Ensures-last_masked _ _
            λ n db₃ e₃. Ensures_elim _ (action_open_reports-IsBalanced r.0 db₂ b₂) e₃

pub dismiss_report-IsBalanced :
    (is_admin : Bool) (report_id : ℕ) (db : Db)
    → IsBalanced db
    → Ensures (λ _ db'. IsBalanced db') (dismiss_report is_admin report_id db)
unfolding dismiss_report
dismiss_report-IsBalanced is_admin report_id db b = Ensures-ok _ _ _ (
    Ensures-or_fail _ _ _ _ λ r e. Ensures-fail_if _ _ _ _ λ s. Ensures-fail_if _ _ _ _ λ a.
      Ensures-last_masked _ _
        λ u db' e'. Ensures_elim _ (set_report_status-IsBalanced report_id _ _ db b) e')

pub close_reported-IsBalanced :
    (is_admin : Bool) (report_id : ℕ) (message : String) (db : Db)
    → IsBalanced db
    → Ensures (λ _ db'. IsBalanced db') (close_reported is_admin report_id message db)
unfolding close_reported
close_reported-IsBalanced is_admin report_id message db b = Ensures-ok _ _ _ (
    Ensures-or_fail _ _ _ _
      λ r e. Ensures-or_fail _ _ _ _ λ t et. platform_close-IsBalanced is_admin t.code message db b)
