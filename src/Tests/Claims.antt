-- ===== src/Tests/Claims.antt =====
-- Renewal, pauses and slots on the concrete databases.
use kungfu.Base.{ℕ, ◌≤◌, ◌<◌, ◌≡◌, refl, true, none, some, [], ◌∷◌, lookup, put, length, ◌⊎◌}
use kungfu.Task.{
  task_open, task_paused, sub_failed, claim_transition, is_active, or_default,
  default_claim_ttl_seconds,
}
use kungfu.Tx.{ok, Ensures_elim, running}
use kungfu.Tables.{Db, Time, TaskRow, ClaimRow, SubmissionRow}
use kungfu.Service.Claim.{renew_claim}
use kungfu.Repository.{renew_claim_row, recent_terminal_outcomes}
use kungfu.Service.Limits.{add_seconds, slots_for}
use kungfu.Service.Deliver.{maybe_pause_for_receiver_fault, all_counting}
use kungfu.Tables.{receiver_fault}
use kungfu.Publishing.{maybe_pause_lem}
use kungfu.Claiming.{renew_claim-bounds}
use kungfu.Slots.{IsFull, IsTaken, reserve_task_amount-slots_for}
use kungfu.Base.{fresh, first, put, arith}
use kungfu.Task.{claim_active}
use kungfu.Tx.{ok}
use kungfu.Service.Claim.{claim_task, issue_claim}
use kungfu.Service.Limits.{
  require_task_audience, check_rejection_limit, slots_for, resolve_harness_refs,
}
use kungfu.Repository.{
  find_task_by_code, task_audience_visible, is_restricted, find_active_claim,
  count_agent_submissions, insert_claim, insert_claim_harness_revisions, reserve_task_amount,
}
use kungfu.Reclaim.{claim_task-again}
use kungfu.Base.{select, take}
use kungfu.Task.{task_transition}
use kungfu.Repository.{apply_task_status}
use kungfu.Tests.Data.{contract, task, claim, submission, db_of, db}

abbrev claim_1 : ℕ
claim_1 = 1

abbrev renewed_claim : ClaimRow
renewed_claim = record claim { expires_at = 900; updated_at = 100 }

renews :
    renew_claim 2 1 500 db ≡ ok ((1, renewed_claim), record db { claims = (1, renewed_claim) ∷ [] })
unfolding renew_claim renew_claim_row claim_transition lookup put running
renews = refl

renew_claim-bounds_example :
    (c : ClaimRow) × (t : TaskRow) × (lookup 1 db.claims ≡ some c)
    × (lookup c.task_id db.tasks ≡ some t)
    × (c.agent_id ≡ 2)
    × (is_active c.status ≡ true)
    × (500 < c.expires_at)
    × (at : Time) × (claim_1 ≡ claim_1)
    × (renewed_claim ≡ record c { expires_at = at; updated_at = db.now })
    × (at ≤ c.deadline)
    × (at ≤ add_seconds 500 (or_default t.contract.claim_ttl default_claim_ttl_seconds))
renew_claim-bounds_example = Ensures_elim _ (renew_claim-bounds 2 1 500 db) renews

abbrev failed_row : ℕ → ℕ × SubmissionRow
failed_row id =
    (id, record (submission sub_failed) { failure = some receiver_fault; updated_at = id })

abbrev failing_db : Db
failing_db =
    db_of (task task_open 100 0 0 0) []
      (failed_row 5 ∷ failed_row 4 ∷ failed_row 3 ∷ failed_row 2 ∷ failed_row 1 ∷ []) []

abbrev paused_db : Db
paused_db = record failing_db {
  tasks =
      (
        1,
        record (task task_open 100 0 0 0) {
          status = task_paused;
          paused_reason = some "RECEIVER_FAULT";
          updated_at = 100;
        },
      )
      ∷ [];
}

pauses : maybe_pause_for_receiver_fault 1 failing_db ≡ ok (tt, paused_db)
unfolding maybe_pause_for_receiver_fault recent_terminal_outcomes select take all_counting
    apply_task_status task_transition lookup put running
pauses = refl

maybe_pause_lem_example :
    (paused_db ≡ failing_db)
    ⊎ ((t : TaskRow) × (lookup 1 failing_db.tasks ≡ some t)
        × (t.status ≡ task_open)
        × (length (recent_terminal_outcomes 1 5 failing_db) ≡ 5)
        × (all_counting (recent_terminal_outcomes 1 5 failing_db) ≡ true)
        × (lookup 1 paused_db.tasks
            ≡ some (record t {
              status = task_paused;
              paused_reason = some "RECEIVER_FAULT";
              closed_reason = none;
              updated_at = 100;
            })))
maybe_pause_lem_example = Ensures_elim _ (maybe_pause_lem 1 failing_db) pauses

abbrev part_db : Db
part_db = db_of (task task_open 100 0 30 0) [] [] []

reserve_task_amount-slots_for_example :
    IsFull 1 (task task_open 100 0 30 0) contract 10 part_db
    ⊎ IsTaken 1 (task task_open 100 0 30 0) contract 10 part_db
unfolding lookup
reserve_task_amount-slots_for_example =
    reserve_task_amount-slots_for 1 (task task_open 100 0 30 0) contract 10 part_db refl refl

seven_slots : slots_for (task task_open 100 0 30 0) contract ≡ 7
unfolding slots_for
seven_slots = refl

abbrev free_db : Db
free_db = db_of (task task_open 100 0 0 0) [] [] []

abbrev first_claim : ClaimRow
first_claim = record {
  task_id = 1;
  agent_id = 2;
  contract_version = 1;
  expires_at = 600_000_000_500;
  deadline = 7_200_000_000_500;
  amount = 10;
  status = claim_active;
  created_at = 100;
  updated_at = 100;
}

abbrev claimed_db : Db
claimed_db = record free_db {
  tasks = (1, record (task task_open 100 0 10 0) { updated_at = 100 }) ∷ [];
  claims = (1, first_claim) ∷ [];
}

claims_once : claim_task 2 "t1" 500 free_db ≡ ok ((1, first_claim), claimed_db)
unfolding claim_task find_task_by_code first require_task_audience task_audience_visible
    is_restricted find_active_claim issue_claim count_agent_submissions check_rejection_limit
    slots_for insert_claim lookup put fresh insert_claim_harness_revisions resolve_harness_refs
    reserve_task_amount running
claims_once = refl

claim_task-again_example : claim_task 2 "t1" 700 claimed_db ≡ ok ((1, first_claim), claimed_db)
unfolding lookup
claim_task-again_example =
    claim_task-again 2 "t1" 500 700 (1, first_claim) free_db claimed_db (refl, tt) claims_once
      (omega arith)
