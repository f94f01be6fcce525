-- ===== src/Audit/Rows/TaskRows.antt =====
-- The effect of a write of a task's row that leaves its counters, and of the audience's rows.
use kungfu.Base.{ℕ, ◌≡◌, refl, Option, some, List, lookup, put, arith, lookup-fresh, String}
use kungfu.Task.{TaskStatus, TaskEvent, Contract}
use kungfu.Tx.{Ensures, holds, Ensures-ok, Ensures-or_fail, Ensures-fail_if}
use kungfu.Tables.{Db, TaskRow}
use kungfu.Repository.{
  apply_task_status, insert_task_audience, replace_task_contract, insert_task, new_task,
}
use kungfu.Audit.Sums.{counter_at-cons}
use kungfu.Audit.Moves.{still, Effect, task_change, task_update-Effect, Untouched, Effect-Untouched}

-- A row of a task that is rewritten with its counters as they were.
same_counters-Effect :
    (task_id : ℕ) (t u : TaskRow) (db db' : Db)
    → lookup task_id db.tasks ≡ some u
    → t.budget_locked ≡ u.budget_locked
    → t.settled ≡ u.settled
    → t.reserved ≡ u.reserved
    → t.refunded ≡ u.refunded
    → db'.tasks ≡ put task_id t db.tasks
    → db'.claims ≡ db.claims
    → db'.submissions ≡ db.submissions
    → Effect (task_change task_id 0 0 0 0 0) db db'
same_counters-Effect task_id t u db db' e eb es er ef et ec eu =
    Effect-Untouched db'
      (task_update-Effect task_id t u db e 0 0 0 0 0 (omega arith) (omega arith) (omega arith)
        (omega arith))
      (record { same_tasks = et; same_claims = ec; same_submissions = eu })

pub apply_task_status-Effect :
    (task_id : ℕ) (from : TaskStatus) (event : TaskEvent) (reason : Option String) (db : Db)
    → Ensures
        (λ _ db'. Effect (task_change task_id 0 0 0 0 0) db db')
        (apply_task_status task_id from event reason db)
unfolding apply_task_status
apply_task_status-Effect task_id from event reason db = Ensures-or_fail _ _ _ _ λ to st.
    Ensures-ok _ _ _ (
      Ensures-or_fail _ _ _ _ λ t e.
        Ensures-fail_if _ _ _ _
          λ g. holds (same_counters-Effect task_id _ t db _ e refl refl refl refl refl refl refl))

pub replace_task_contract-Effect :
    (task_id version : ℕ) (contract : Contract) (db : Db)
    → Ensures
        (λ _ db'. Effect (task_change task_id 0 0 0 0 0) db db')
        (replace_task_contract task_id version contract db)
unfolding replace_task_contract
replace_task_contract-Effect task_id version contract db = Ensures-ok _ _ _ (
    Ensures-or_fail _ _ _ _ λ t e. Ensures-fail_if _ _ _ _ λ g. Ensures-fail_if _ _ _ _ λ v.
      Ensures-ok _ _ _
        (holds (same_counters-Effect task_id _ t db _ e refl refl refl refl refl refl refl)))

pub insert_task-Effect :
    (code : String) (publisher_id : ℕ) (contract : Contract) (db : Db)
    → Ensures (λ _ db'. Effect (λ k. still) db db') (insert_task code publisher_id contract db)
unfolding insert_task
insert_task-Effect code publisher_id contract db =
    let row = new_task code publisher_id contract db.now in
    Ensures-ok _ _ _ (
      Ensures-fail_if _ _ _ _ λ u. Ensures-fail_if _ _ _ _ λ f. Ensures-ok _ _ _ (
        holds (record {
          moves = λ k. record {
            budget_moves =
                omega (arith, counter_at-cons (λ t. t.budget_locked) k row db.tasks refl);
            settled_moves = omega (arith, counter_at-cons (λ t. t.settled) k row db.tasks refl);
            reserved_moves = omega (arith, counter_at-cons (λ t. t.reserved) k row db.tasks refl);
            refunded_moves = omega (arith, counter_at-cons (λ t. t.refunded) k row db.tasks refl);
            claims_move = omega arith;
            submissions_move = omega arith;
          };
          keys = record {
            tasks_kept = λ h. (lookup-fresh db.tasks, h);
            claims_kept = λ h. h;
            submissions_kept = λ h. h;
          };
        })))

pub insert_task_audience-Untouched :
    (task_id : ℕ) (ids : List ℕ) (db : Db)
    → Ensures (λ _ db'. Untouched db db') (insert_task_audience task_id ids db)
unfolding insert_task_audience
insert_task_audience-Untouched task_id ids db =
    holds (record { same_tasks = refl; same_claims = refl; same_submissions = refl })
