-- ===== src/Audit/Once.antt =====
-- internal/service/task_deliver.go: a second outcome for the same row.
use kungfu.Base.{
  ℕ, ◌≡◌, refl, true, false, not, ◌&&◌, some, arith, lookup, put, ℤ, pos, Option-cases, Bool-cases,
  inl, inr, lookup-put, lookup-put_self, is_some,
}
use kungfu.Task.{
  SubmissionState, SubmissionEvent, event_deliver_2xx, event_deliver_4xx, event_delivery_failed,
  event_timeout, event_submit, event_unresolved, sub_uncertain, submission_transition,
  same_submission_state,
}
use kungfu.Tx.{
  ok, after, or_fail, Ensures, holds, Ensures-ok, Ensures-or_fail, Ensures-fail_if, Ensures-mask,
  Ensures-wrap, Ensures-if, Ensures_elim, Ensures-map,
}
use kungfu.Tables.{Db, TaskRow, SubmissionRow}
use kungfu.Repository.{
  release_task_reservation, settle_task_submission, set_submission_state, updated_submission,
  SetSubmissionStateOpts,
}
use kungfu.Service.Deliver.{
  PostResult, map_reply, finish_delivery, write_delivery_outcome, outcome_money, is_timeout,
}
use kungfu.Audit.Primitives.{record_credits-Untouched}

-- Tasks and submissions as far as a second outcome sees them.
record Keeps (db db' : Db) : Type 0 where
  pub kept_tasks :
      (k : ℕ) → is_some (lookup k db.tasks) ≡ true → is_some (lookup k db'.tasks) ≡ true
  pub kept_submissions : db'.submissions ≡ db.submissions

Keeps-refl : (db : Db) → Keeps db db
Keeps-refl db = record { kept_tasks = λ k h. h; kept_submissions = refl }

put_kept :
    (j k : ℕ) (t u : TaskRow) (db : Db)
    → lookup j db.tasks ≡ some u
    → is_some (lookup k db.tasks) ≡ true
    → is_some (lookup k (put j t db.tasks)) ≡ true
put_kept j k t u db e h = ground (arith, lookup-put j k t u db.tasks e)

release-Keeps :
    (task_id : ℕ) (amount : ℤ) (db : Db)
    → Ensures (λ _ db'. Keeps db db') (release_task_reservation task_id amount db)
unfolding release_task_reservation
release-Keeps task_id amount db = Ensures-or_fail _ _ _ _ λ n p. Ensures-ok _ _ _ (
    Ensures-or_fail _ _ _ _ λ t e. Ensures-fail_if _ _ _ _ λ g.
      holds (record { kept_tasks = λ k h. put_kept task_id k _ t db e h; kept_submissions = refl }))

settle-Keeps :
    (task_id submission_id agent_id : ℕ) (amount : ℤ) (db : Db)
    → Ensures
        (λ _ db'. Keeps db db')
        (settle_task_submission task_id submission_id agent_id amount db)
unfolding settle_task_submission
settle-Keeps task_id submission_id agent_id amount db = Ensures-or_fail _ _ _ _ λ n p.
    Ensures-ok _ _ _ (
      Ensures-or_fail _ _ _ _ λ t e. Ensures-fail_if _ _ _ _ λ g. Ensures-ok _ _ _ (
        Ensures-wrap _ _ λ v db' r.
          let same = Ensures_elim _ (record_credits-Untouched agent_id _ (pos n) _ _) r in
          holds (record {
            kept_tasks = λ k h. rw same.same_tasks (put_kept task_id k _ t db e h);
            kept_submissions = same.same_submissions;
          })))

money-Keeps :
    (submission_id : ℕ) (pre : SubmissionRow) (event : SubmissionEvent) (db : Db)
    → Ensures (λ _ db'. Keeps db db') (outcome_money submission_id pre event db)
unfolding outcome_money
money-Keeps submission_id pre event_submit db = holds (Keeps-refl db)
money-Keeps submission_id pre event_timeout db = holds (Keeps-refl db)
money-Keeps submission_id pre event_unresolved db = holds (Keeps-refl db)
money-Keeps submission_id pre event_deliver_2xx db =
    settle-Keeps pre.task_id submission_id pre.agent_id _ db
money-Keeps submission_id pre event_deliver_4xx db = release-Keeps pre.task_id _ db
money-Keeps submission_id pre event_delivery_failed db = release-Keeps pre.task_id _ db

-- no transition stays in its state
moves_on :
    (from to : SubmissionState) (event : SubmissionEvent)
    → submission_transition from event ≡ some to
    → same_submission_state to from ≡ false
unfolding submission_transition
moves_on from to event h = ground arith

-- what a second outcome needs to see to stand back
abbrev IsDecided : ℕ → SubmissionRow → Db → Type 0
IsDecided submission_id pre db =
    (t : TaskRow) × (s : SubmissionRow) × (lookup pre.task_id db.tasks ≡ some t)
    × (lookup submission_id db.submissions ≡ some s)
    × (same_submission_state s.state pre.state ≡ false)

set_state-decides :
    (submission_id : ℕ) (pre : SubmissionRow) (event : SubmissionEvent)
    (opts : SetSubmissionStateOpts) (t : TaskRow) (db : Db)
    → lookup pre.task_id db.tasks ≡ some t
    → Ensures
        (λ _ db'. IsDecided submission_id pre db')
        (set_submission_state submission_id pre.state event opts db)
unfolding set_submission_state updated_submission
set_state-decides submission_id pre event opts t db et = Ensures-or_fail _ _ _ _ λ to st.
    Ensures-ok _ _ _ (
      Ensures-or_fail _ _ _ _ λ s e. Ensures-fail_if _ _ _ _ λ g. holds (
        t,
        _,
        et,
        lookup-put_self submission_id _ s db.submissions e,
        moves_on pre.state to event st,
      ))

IsDecided-after :
    (submission_id : ℕ) (pre : SubmissionRow) (db db' : Db)
    → IsDecided submission_id pre db
    → Keeps db db'
    → IsDecided submission_id pre db'
IsDecided-after submission_id pre db db' (t, s, et, es, d) keeps =
    elim (Option-cases (lookup pre.task_id db'.tasks)) [
      | inl gone ↦ absurd (ground (arith, keeps.kept_tasks pre.task_id))
      | inr (t', et') ↦ (t', s, et', rw keeps.kept_submissions es, d)
    ]

write-decides :
    (submission_id : ℕ) (pre : SubmissionRow) (event : SubmissionEvent)
    (opts : SetSubmissionStateOpts) (db : Db)
    → Ensures
        (λ _ db'. IsDecided submission_id pre db')
        (write_delivery_outcome submission_id pre event opts
          (outcome_money submission_id pre event)
          db)
unfolding write_delivery_outcome
write-decides submission_id pre event opts db = Ensures-ok _ _ _ (
    Ensures-or_fail _ _ _ _ λ t et. Ensures-or_fail _ _ _ _ λ s e.
      Ensures-if (not (same_submission_state s.state pre.state)) _ _ _
        (λ n. holds (t, s, et, e, ground arith))
        λ same. Ensures-mask _ _ _ λ u db₁ e₁. Ensures-mask _ _ _ λ v db₂ e₂. holds (
          IsDecided-after submission_id pre db₁ db₂
            (Ensures_elim _ (set_state-decides submission_id pre event opts t db et) e₁)
            (Ensures_elim _ (money-Keeps submission_id pre event db₁) e₂)))

finish-decides :
    (submission_id : ℕ) (pre : SubmissionRow) (res : PostResult) (db : Db)
    → Ensures
        (λ done db'. done ≡ true → IsDecided submission_id pre db')
        (finish_delivery submission_id pre res db)
unfolding finish_delivery
finish-decides submission_id pre res db =
    Ensures-if (is_timeout (map_reply res).event && same_submission_state pre.state sub_uncertain) _
      _ _ (λ _. holds (λ h. absurd (ground arith)))
      λ _. Ensures-map _ (λ _ db' d h. d) (write-decides submission_id pre _ _ db)

decided-stands :
    (submission_id : ℕ) (pre : SubmissionRow) (res : PostResult) (db : Db)
    → IsDecided submission_id pre db
    → finish_delivery submission_id pre res db ≡ ok (false, db)
unfolding finish_delivery write_delivery_outcome after or_fail
decided-stands submission_id pre res db (t, s, et, es, d) =
    elim (Bool-cases
      (is_timeout (map_reply res).event && same_submission_state pre.state sub_uncertain)) [
        | inl y ↦ rw y refl
        | inr n ↦ rw (n, et, es, d) refl
      ]

-- Of two deliveries that have read the same row of a submission, the one that finishes right after
-- the other has written its outcome writes nothing, whatever its reply.
pub finish_delivery-once :
    (submission_id : ℕ) (pre : SubmissionRow) (res res' : PostResult) (db db' : Db)
    → finish_delivery submission_id pre res db ≡ ok (true, db')
    → finish_delivery submission_id pre res' db' ≡ ok (false, db')
finish_delivery-once submission_id pre res res' db db' e =
    decided-stands submission_id pre res' db'
      (Ensures_elim _ (finish-decides submission_id pre res db) e refl)
