-- ===== src/Tests/Tasks.antt =====
-- Refunds and edits on the concrete databases.
use kungfu.Base.{ℕ, ◌+◌, ◌≤◌, ◌≡◌, refl, some, [], ◌∷◌, lookup, put}
use kungfu.Task.{task_open, task_closed, Contract}
use kungfu.Tx.{ok, Ensures_elim, running}
use kungfu.Tables.{Db, TaskRow}
use kungfu.Repository.{
  find_task_by_code, available, find_task_contract_version, replace_task_contract,
}
use kungfu.Publishing.{refund_task_lem, replace_task_contract-history}
use kungfu.Service.Publisher.{refund_task as refund_closed, lock_owned_task}
use kungfu.Service.Limits.{require_owner_or_audience}
use kungfu.Credits.{record_credits, record_entry, check_add}
use kungfu.Tables.{refund_task, ref_task}
use kungfu.Base.{pos, ◌+ℤ◌, first, put}
use kungfu.Repository.{refund_task_available}
use kungfu.Tests.Data.{contract, task, db_of, db}

abbrev closed_db : Db
closed_db = db_of (task task_closed 100 40 0 0) [] [] []

abbrev refunded_db : Db
refunded_db = record closed_db {
  bots =
      (1, record { name = "publisher"; balance = pos 1060; updated_at = 100 })
      ∷ (2, record { name = "agent"; balance = pos 5; updated_at = 0 })
      ∷ [];
  transactions =
      record {
        bot_id = 1;
        txn_type = refund_task;
        amount = pos 60;
        balance_after = pos 1060;
        ref = some (ref_task 1);
        created_at = 100;
      }
      ∷ [];
  tasks = (1, record (task task_closed 100 40 0 60) { updated_at = 100 }) ∷ [];
}

refunds : refund_closed 1 "t1" closed_db ≡ ok (tt, refunded_db)
unfolding refund_closed lock_owned_task require_owner_or_audience find_task_by_code first
    refund_task_available record_credits record_entry check_add ◌+ℤ◌ lookup put running
refunds = refl

refund_task_lem_example :
    (task_id : ℕ) × (t t' : TaskRow) × (find_task_by_code "t1" closed_db ≡ some (task_id, t))
    × (t.status ≡ task_closed)
    × (t.reserved ≡ 0)
    × (1 ≤ available t)
    × (lookup task_id refunded_db.tasks ≡ some t')
    × (t'.refunded ≡ t.refunded + available t)
    × (available t' ≡ 0)
unfolding lookup
refund_task_lem_example = Ensures_elim _ (refund_task_lem 1 "t1" closed_db (refl, tt)) refunds

abbrev replaced_db : Db
replaced_db = record db {
  tasks = (1, record (task task_open 100 0 30 0) { contract_version = 2; updated_at = 100 }) ∷ [];
  versions =
      record { version_task_id = 1; version = 2; version_contract = contract }
      ∷ record { version_task_id = 1; version = 1; version_contract = contract }
      ∷ [];
}

replaces : replace_task_contract 1 1 contract db ≡ ok (2, replaced_db)
unfolding replace_task_contract find_task_contract_version lookup put running
replaces = refl

replace_task_contract-history_example :
    (find_task_contract_version 1 2 replaced_db.versions ≡ some contract)
    × ((k n : ℕ) (c : Contract)
        → find_task_contract_version k n db.versions ≡ some c
        → find_task_contract_version k n replaced_db.versions ≡ some c)
replace_task_contract-history_example =
    Ensures_elim _ (replace_task_contract-history 1 1 contract db) replaces
