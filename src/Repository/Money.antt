-- ===== src/Repository/Money.antt =====
-- internal/repository/task_v1.go, the money primitives: a task's counters and the credits ledger
-- move in one transaction. Counters stay ℕ: a subtraction stands behind `reserved >= $2`, and
-- `available` is compared with positive amounts only, where stopping at 0 makes no difference.
use kungfu.Base.{ℕ, ◌+◌, ◌-◌, ◌^◌, not, some, ◌==◌, leb, if◌then◌else◌, lookup, put, ℤ, pos, neg}
use kungfu.Tx.{
  Tx, wrap, ◌>>=◌, ◌>>◌, pure, fail_if, or_fail, gets, modify, no_rows, bad_amount, out_of_range,
  no_available_budget, insufficient_reservation,
}
use kungfu.Tables.{
  Db, TaskRow, lock_task, fund_task, earn_task, refund_task, ref_task, ref_submission, LedgerType,
}
use kungfu.Credits.{record_credits}
use kungfu.Repository.Claims.{positive}

abbrev pub available : TaskRow → ℕ
available t = t.budget_locked - t.settled - t.reserved - t.refunded

-- the first value above int64; a BIGINT sum that reaches it is an error of the database
abbrev pub int64_end : ℕ
int64_end = 2 ^ 63

-- `bumpTaskCounter` on the one column that it is called with, budget_locked
unfoldable pub bump_budget_locked : ℕ → ℕ → Tx Db (Unit {0})
bump_budget_locked task_id delta = do
  db ← gets (λ (db : Db). db)
  t ← or_fail (lookup task_id db.tasks) no_rows
  fail_if (leb int64_end (t.budget_locked + delta)) out_of_range
  modify (λ (d : Db). record d {
    tasks =
        put task_id (record t { budget_locked = t.budget_locked + delta; updated_at = d.now })
          d.tasks;
  })

-- `LockTaskBudget` and `FundTaskBudget`, which differ in the ledger type alone
unfoldable pub add_budget : LedgerType → ℕ → ℕ → ℤ → Tx Db (Unit {0})
add_budget ledger_type task_id publisher_id amount = do
  n ← or_fail (positive amount) bad_amount
  bump_budget_locked task_id n
  _ ← wrap (record_credits publisher_id ledger_type (neg (pos n)) (some (ref_task task_id)))
  pure tt

unfoldable pub lock_task_budget : ℕ → ℕ → ℤ → Tx Db (Unit {0})
unfolding add_budget
lock_task_budget = add_budget lock_task

unfoldable pub fund_task_budget : ℕ → ℕ → ℤ → Tx Db (Unit {0})
unfolding add_budget
fund_task_budget = add_budget fund_task

unfoldable pub reserve_task_amount : ℕ → ℤ → Tx Db (Unit {0})
reserve_task_amount task_id amount = do
  n ← or_fail (positive amount) bad_amount
  db ← gets (λ (db : Db). db)
  t ← or_fail (lookup task_id db.tasks) no_available_budget
  fail_if (not (leb n (available t))) no_available_budget
  modify (λ (d : Db). record d {
    tasks = put task_id (record t { reserved = t.reserved + n; updated_at = d.now }) d.tasks;
  })

unfoldable pub release_task_reservation : ℕ → ℤ → Tx Db (Unit {0})
release_task_reservation task_id amount = do
  n ← or_fail (positive amount) bad_amount
  db ← gets (λ (db : Db). db)
  t ← or_fail (lookup task_id db.tasks) insufficient_reservation
  fail_if (not (leb n t.reserved)) insufficient_reservation
  modify (λ (d : Db). record d {
    tasks = put task_id (record t { reserved = t.reserved - n; updated_at = d.now }) d.tasks;
  })

unfoldable pub settle_task_submission : ℕ → ℕ → ℕ → ℤ → Tx Db (Unit {0})
settle_task_submission task_id submission_id agent_id amount = do
  n ← or_fail (positive amount) bad_amount
  db ← gets (λ (db : Db). db)
  t ← or_fail (lookup task_id db.tasks) insufficient_reservation
  fail_if (not (leb n t.reserved)) insufficient_reservation
  modify (λ (d : Db). record d {
    tasks =
        put task_id
          (record t { reserved = t.reserved - n; settled = t.settled + n; updated_at = d.now })
          d.tasks;
  })
  _ ← wrap (record_credits agent_id earn_task (pos n) (some (ref_submission submission_id)))
  pure tt

-- The refunded amount; 0, and nothing written, when nothing is available.
unfoldable pub refund_task_available : ℕ → ℕ → Tx Db ℕ
refund_task_available task_id publisher_id = do
  db ← gets (λ (db : Db). db)
  t ← or_fail (lookup task_id db.tasks) no_rows
  if available t == 0 then pure 0 else do
    modify (λ (d : Db). record d {
      tasks =
          put task_id (record t { refunded = t.refunded + available t; updated_at = d.now })
            d.tasks;
    })
    _ ← wrap (record_credits publisher_id refund_task (pos (available t)) (some (ref_task task_id)))
    pure (available t)
