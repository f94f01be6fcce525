-- ===== src/Audit/Rows/SubmissionRows.antt =====
-- The effect of a write of a submission on what the audit reads.
use kungfu.Base.{ℕ, ◌≡◌, refl, some, lookup, put, arith, lookup-fresh, Keyed-put}
use kungfu.Task.{SubmissionState, SubmissionEvent, submission_transition}
use kungfu.Tx.{Ensures, holds, Ensures-ok, Ensures-or_fail, Ensures-fail_if}
use kungfu.Tables.{Db, SubmissionRow}
use kungfu.Repository.{
  set_submission_state, SetSubmissionStateOpts, updated_submission, NewSubmissionRow,
  insert_submission,
}
use kungfu.Audit.Sums.{share, submission_weight, submission_sum-put, submission_sum-cons}
use kungfu.Audit.Moves.{Change, still, Effect}

abbrev pub submission_change : SubmissionRow → SubmissionRow → ℕ → Change
submission_change before after k = record still {
  submissions_down = submission_weight k before;
  submissions_up = submission_weight k after;
}

submission_update-Effect :
    (submission_id : ℕ) (s u : SubmissionRow) (db db' : Db)
    → lookup submission_id db.submissions ≡ some u
    → db'.tasks ≡ db.tasks
    → db'.claims ≡ db.claims
    → db'.submissions ≡ put submission_id s db.submissions
    → Effect (submission_change u s) db db'
submission_update-Effect submission_id s u db db' e et ec es = record {
  moves = λ k. record {
    budget_moves = rw et (omega arith);
    settled_moves = rw et (omega arith);
    reserved_moves = rw et (omega arith);
    refunded_moves = rw et (omega arith);
    claims_move = rw ec (omega arith);
    submissions_move = rw es (submission_sum-put k submission_id s u db.submissions e);
  };
  keys = record {
    tasks_kept = λ h. rw et h;
    claims_kept = λ h. rw ec h;
    submissions_kept = λ h. rw es (Keyed-put submission_id s db.submissions h);
  };
}

pub set_submission_state-Effect :
    (submission_id : ℕ) (from : SubmissionState) (event : SubmissionEvent)
    (opts : SetSubmissionStateOpts) (s : SubmissionRow) (db : Db)
    → lookup submission_id db.submissions ≡ some s
    → Ensures
        (λ _ db'.
          (to : SubmissionState) × (submission_transition from event ≡ some to)
          × Effect (submission_change s (updated_submission s to opts db.now)) db db')
        (set_submission_state submission_id from event opts db)
unfolding set_submission_state
set_submission_state-Effect submission_id from event opts s db found =
    Ensures-or_fail _ _ _ _ λ to st. Ensures-ok _ _ _ (
      Ensures-or_fail _ _ _ _ λ u e. Ensures-fail_if _ _ _ _ λ g. holds (
        to,
        st,
        let same : u ≡ s = cc (found, e) in
            rw same (submission_update-Effect submission_id _ s db _ found refl refl refl),
      ))

-- A new submission in delivering.
pub insert_submission-Effect :
    (input : NewSubmissionRow) (db : Db)
    → Ensures
        (λ _ db'.
          Effect (λ k. record still { submissions_up = share k input.task_id input.amount }) db db')
        (insert_submission input db)
unfolding insert_submission submission_weight
insert_submission-Effect input db = Ensures-ok _ _ _ (
    Ensures-fail_if _ _ _ _ λ ft. Ensures-fail_if _ _ _ _ λ fa. Ensures-fail_if _ _ _ _ λ z.
      Ensures-fail_if _ _ _ _ λ u. Ensures-ok _ _ _ (
        holds (record {
          moves = λ k. record {
            budget_moves = omega arith;
            settled_moves = omega arith;
            reserved_moves = omega arith;
            refunded_moves = omega arith;
            claims_move = omega arith;
            submissions_move = rw submission_sum-cons (omega arith);
          };
          keys = record {
            tasks_kept = λ h. h;
            claims_kept = λ h. h;
            submissions_kept = λ h. (lookup-fresh db.submissions, h);
          };
        })))
