-- ===== src/Reporting.antt =====
-- internal/service/task_governance.go: the platform's close.
use kungfu.Base.{
  ℕ, ◌≡◌, refl, sym, Bool, true, false, none, some, arith, String, [], ◌∷◌, lookup, lookup-put_self,
  Table,
}
use kungfu.Task.{TaskStatus, event_platform_close, task_closed, task_transition}
use kungfu.Tx.{
  Ensures, holds, Ensures-ok, Ensures-or_fail, Ensures-fail_if, Ensures-call, Ensures-last_masked,
  Ensures_elim,
}
use kungfu.Tables.{Db, Time, TaskRow, ReportRow}
use kungfu.Repository.{
  find_task_by_code, apply_task_status, action_open_reports, actioned_reports, is_open_on,
}
use kungfu.Service.Publisher.{apply_status_change}
use kungfu.Service.Governance.{platform_close, trim_space}
use kungfu.Audit.Publisher.{lock_for-same}

none_open :
    (task_id id : ℕ) (r : ReportRow) (now : Time) (rows : Table ReportRow)
    → lookup id (actioned_reports task_id now rows) ≡ some r
    → is_open_on task_id r ≡ false
unfolding actioned_reports lookup
none_open task_id id r now [] e = absurd (ground arith)
none_open task_id id r now ((i, x) ∷ rows) e = ground (arith, none_open task_id id r now rows)

action-none_open :
    (task_id : ℕ) (db : Db)
    → Ensures
        (λ _ db'.
          (db'.tasks ≡ db.tasks)
          × ((id : ℕ) (r : ReportRow)
              → lookup id db'.reports ≡ some r
              → is_open_on task_id r ≡ false))
        (action_open_reports task_id db)
unfolding action_open_reports
action-none_open task_id db =
    Ensures-ok _ _ _
      (Ensures-ok _ _ _ (holds (refl, λ id r e. none_open task_id id r db.now db.reports e)))

-- a status change that closes
closed_by :
    (from to : TaskStatus) → task_transition from event_platform_close ≡ some to → to ≡ task_closed
unfolding task_transition
closed_by from to h = ground arith

closed_row :
    (task_id : ℕ) (from : TaskStatus) (reason : String) (db : Db)
    → Ensures
        (λ _ db'.
          (t' : TaskRow) × (lookup task_id db'.tasks ≡ some t')
          × (t'.status ≡ task_closed)
          × (t'.closed_reason ≡ some reason))
        (apply_task_status task_id from event_platform_close (some reason) db)
unfolding apply_task_status
closed_row task_id from reason db = Ensures-or_fail _ _ _ _ λ to st. Ensures-ok _ _ _ (
    Ensures-or_fail _ _ _ _ λ t e. Ensures-fail_if _ _ _ _ λ g.
      let closed = closed_by from to st in
      holds (_, lookup-put_self task_id _ t db.tasks e, closed, rw closed refl))

change-closes :
    (code : String) (reason : String) (db : Db)
    → Ensures
        (λ _ db'.
          (task_id : ℕ) × (t t' : TaskRow) × (find_task_by_code code db ≡ some (task_id, t))
          × (lookup task_id db'.tasks ≡ some t')
          × (t'.status ≡ task_closed)
          × (t'.closed_reason ≡ some reason))
        (apply_status_change code none event_platform_close (some reason) db)
unfolding apply_status_change
change-closes code reason db = Ensures-call _ _ λ (task_id, t) db₁ e₁.
    let (same, found) = Ensures_elim _ (lock_for-same none code db) e₁ in
    Ensures-or_fail _ _ _ _ λ to st. Ensures-last_masked _ _ λ u db₂ e₂.
      let (t', et, status, why) = Ensures_elim _ (closed_row task_id t.status reason db₁) e₂ in
      (task_id, t, t', found, et, status, why)

-- A platform close that succeeds was an administrator's; it leaves the task closed with the trimmed
-- reason, and no report on the task open.
pub platform_close_lem :
    (is_admin : Bool) (code reason : String) (db : Db)
    → Ensures
        (λ _ db'.
          (task_id : ℕ) × (t t' : TaskRow) × (find_task_by_code code db ≡ some (task_id, t))
          × (is_admin ≡ true)
          × (lookup task_id db'.tasks ≡ some t')
          × (t'.status ≡ task_closed)
          × (t'.closed_reason ≡ some (trim_space reason))
          × ((id : ℕ) (r : ReportRow)
              → lookup id db'.reports ≡ some r
              → is_open_on task_id r ≡ false))
        (platform_close is_admin code reason db)
unfolding platform_close
platform_close_lem is_admin code reason db = Ensures-fail_if _ _ _ _ λ g.
    Ensures-call _ _ λ a db₁ e₁.
      let (same, found) = Ensures_elim _ (lock_for-same none code db) e₁ in
      Ensures-call _ _ λ u db₂ e₂.
        let (task_id, t, t', found', et, status, why) =
          Ensures_elim _ (change-closes code (trim_space reason) db₁) e₂ in
        let found₀ : find_task_by_code code db ≡ some (task_id, t) = rw (sym same) found' in
        let is_a : a ≡ (task_id, t) = cc (found, found₀) in
        Ensures-fail_if _ _ _ _ λ adm. Ensures-last_masked _ _ λ n db₃ e₃.
          let (tasks, reports) = Ensures_elim _ (action-none_open a.0 db₂) e₃ in
          (a.0, a.1, t', found, ground arith, rw (tasks, is_a) et, status, why, reports)
