-- ===== src/Tests/Trail.antt =====
-- The events of submissions on the concrete databases.
use kungfu.Base.{◌≡◌, refl, none, some, [], ◌∷◌, arith, lookup}
use kungfu.Task.{sub_delivering, sub_uncertain, event_timeout, submission_transition}
use kungfu.Tx.{ok, Ensures, Ensures_elim, running}
use kungfu.Tables.{Db}
use kungfu.Repository.{
  set_submission_state, last_event, no_opts, NewSubmissionRow, insert_submission,
}
use kungfu.Trail.{IsRecorded, set_submission_state-IsRecorded, insert_submission-IsRecorded}
use kungfu.Audit.Outcomes.{moved}
use kungfu.Tests.Data.{submission, submitted, db}

db-IsRecorded : IsRecorded db
unfolding lookup last_event
db-IsRecorded = record {
  recorded = λ id s e. (submitted, ground arith, ground arith);
  unknown = λ id e. ground arith;
}

abbrev uncertain_db : Db
uncertain_db = moved 1 (submission sub_delivering) sub_uncertain event_timeout no_opts db

times_out : set_submission_state 1 sub_delivering event_timeout no_opts db ≡ ok (tt, uncertain_db)
unfolding set_submission_state submission_transition lookup running
times_out = refl

set_submission_state-IsRecorded_example : IsRecorded uncertain_db
set_submission_state-IsRecorded_example =
    Ensures_elim _
      (set_submission_state-IsRecorded 1 sub_delivering event_timeout no_opts db db-IsRecorded)
      times_out

abbrev new_submission : NewSubmissionRow
new_submission = record {
  task_id = 1;
  agent_id = 2;
  request_key = "k2";
  payload = 123 ∷ 125 ∷ [];
  payload_hash = "h";
  amount = 10;
  revises = none;
  claim_id = some 1;
  contract_version = 1;
  harness = none;
}

insert_submission-IsRecorded_example :
    Ensures (λ _ db'. IsRecorded db') (insert_submission new_submission db)
insert_submission-IsRecorded_example = insert_submission-IsRecorded new_submission db db-IsRecorded
