-- ===== src/Tests/Creation.antt =====
-- Funding, repeated claims and creation on the concrete databases.
use kungfu.Base.{
  ◌≡◌, refl, false, some, [], ◌∷◌, arith, lookup, put, fresh, first, pos, negsuc, ◌+ℤ◌, neg,
}
use kungfu.Task.{task_open, with_defaults, validate_contract}
use kungfu.Tx.{ok, running, committed}
use kungfu.Tables.{Db, TaskRow}
use kungfu.Credits.{check_add, record_entry, record_credits}
use kungfu.Audit.Sums.{IsBalanced}
use kungfu.Service.Claim.{claim_task}
use kungfu.Repository.{find_task_by_code}
use kungfu.Service.Limits.{slots_for}
use kungfu.Service.Publisher.{fund_task, create_task}
use kungfu.Service.Publisher.{stored_contract, all_owned, resolve_audience, normalized_audience}
use kungfu.Repository.{
  new_task, find_active_claim, insert_task, insert_task_audience, lock_task_budget, add_budget,
  bump_budget_locked,
}
use kungfu.Tables.{lock_task, ref_task}
use kungfu.Audit.System.{empty_db, start, next, creates, Reachable-IsBalanced}
use kungfu.Task.{check_audience}
use kungfu.Funding.{fund_task-not_short, is_short_result}
use kungfu.Claiming.{claim_task-stale}
use kungfu.Tests.Data.{contract, task, claim, bots, db_of, db, payloads, contract_checks}

fund_task-not_short_example : is_short_result (fund_task 1 "t1" (pos 5000) db) ≡ false
fund_task-not_short_example = fund_task-not_short 1 "t1" (pos 5000) db

-- a task whose whole budget one expired claim holds
abbrev stale_db : Db
stale_db = db_of (task task_open 10 0 10 0) ((1, claim) ∷ []) [] []

claim_task-stale_example : committed stale_db (claim_task 2 "t1" 700 stale_db) ≡ stale_db
unfolding find_task_by_code find_active_claim slots_for first
claim_task-stale_example =
    claim_task-stale 2 "t1" 700 1 1 (task task_open 10 0 10 0) claim stale_db refl refl
      (omega arith) refl

-- a task whose contract names one memory twice
abbrev repeating_task : TaskRow
repeating_task = record (task task_open 100 0 0 0) {
  contract = record contract { harness_refs = "m7" ∷ "m7" ∷ [] };
}

-- what creating the task leaves
abbrev created_db : Db
created_db = record (empty_db 100 bots []) {
  bots =
      (1, record { name = "publisher"; balance = pos 900; updated_at = 100 })
      ∷ (2, record { name = "agent"; balance = pos 5; updated_at = 0 })
      ∷ [];
  transactions =
      record {
        bot_id = 1;
        txn_type = lock_task;
        amount = negsuc 99;
        balance_after = pos 900;
        ref = some (ref_task 1);
        created_at = 100;
      }
      ∷ [];
  tasks = (1, record (new_task "t1" 1 (stored_contract contract) 100) { budget_locked = 100 }) ∷ [];
  versions =
      record { version_task_id = 1; version = 1; version_contract = stored_contract contract } ∷ [];
}

creates_task :
    create_task contract_checks 1 "t1" contract (pos 100) (empty_db 100 bots [])
    ≡ ok (1, created_db)
unfolding create_task validate_contract with_defaults check_audience all_owned resolve_audience
    insert_task insert_task_audience lock_task_budget add_budget bump_budget_locked record_credits
    record_entry check_add lookup put find_task_by_code first neg ◌+ℤ◌ stored_contract
    normalized_audience fresh running
creates_task = refl

Reachable-IsBalanced_example : IsBalanced created_db
Reachable-IsBalanced_example = Reachable-IsBalanced payloads contract_checks created_db (
    next (start 100 bots [])
      (creates 1 "t1" contract (pos 100) (empty_db 100 bots []) created_db creates_task))
