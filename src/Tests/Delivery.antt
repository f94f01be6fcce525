-- ===== src/Tests/Delivery.antt =====
-- Deliveries and expiry on the concrete databases.
use kungfu.Base.{◌≤◌, ◌≡◌, refl, true, false, none, some, [], ◌∷◌, arith, lookup}
use kungfu.Task.{task_open, sub_delivering, sub_rejected, event_deliver_4xx, submission_transition}
use kungfu.Tx.{ok, running}
use kungfu.Tables.{Db, TaskRow}
use kungfu.Audit.Sums.{IsBalanced}
use kungfu.Service.Deliver.{map_reply, finish_delivery, write_delivery_outcome, outcome_money}
use kungfu.Service.Claim.{expire_one}
use kungfu.Service.Submit.{SubmitInput, submit_work}
use kungfu.Repository.{release_task_reservation, set_submission_state}
use kungfu.Audit.Exits.{released_from, expired_claim, expire_one-succeeds}
use kungfu.Audit.Outcomes.{moved}
use kungfu.Audit.Once.{finish_delivery-once}
use kungfu.Audit.Intake.{submit_work-IsBalanced}
use kungfu.Tests.Data.{task, claim, submission, db, db-IsBalanced, reply, payloads}

-- the database after a 4xx reply
abbrev rejected_db : Db
rejected_db = released_from 1 (task task_open 100 0 30 0) 20 (
    moved 1 (submission sub_delivering) sub_rejected event_deliver_4xx (map_reply (reply 400)).opts
      db)

rejects : finish_delivery 1 (submission sub_delivering) (reply 400) db ≡ ok (true, rejected_db)
unfolding finish_delivery write_delivery_outcome outcome_money release_task_reservation
    set_submission_state submission_transition running lookup map_reply
rejects = refl

finish_delivery-once_example :
    finish_delivery 1 (submission sub_delivering) (reply 200) rejected_db ≡ ok (false, rejected_db)
finish_delivery-once_example =
    finish_delivery-once 1 (submission sub_delivering) (reply 400) (reply 200) db rejected_db
      rejects

expire_one-succeeds_example :
    (t : TaskRow) × (lookup 1 db.tasks ≡ some t)
    × (10 ≤ t.reserved)
    × (expire_one 700 1 db ≡ ok (true, released_from 1 t 10 (expired_claim 1 claim db)))
unfolding lookup
expire_one-succeeds_example =
    expire_one-succeeds 700 1 claim db db-IsBalanced refl refl (omega arith) (omega arith)

abbrev input : SubmitInput
input = record {
  code = "t1";
  request_key = "k2";
  payload = 123 ∷ 125 ∷ [];
  claim_id = some 1;
  revises = none;
}

submit_work-IsBalanced_example : IsBalanced (submit_work payloads 2 input (reply 200) 200 db).1
submit_work-IsBalanced_example =
    submit_work-IsBalanced payloads 2 input (reply 200) 200 db db-IsBalanced
