-- ===== src/Audit/Submissions.antt =====
-- internal/service/task_deliver.go and task_recovery.go: delivery and the audit's equations.
use kungfu.Base.{
  ℕ, ◌≤◌, ◌≡◌, refl, sym, Bool, true, false, not, ◌||◌, ◌&&◌, some, arith, ltb, lookup, pos,
  Bool-cases, inl, inr, subst, if◌then◌else◌, length,
}
use kungfu.Task.{
  is_open, SubmissionState, SubmissionEvent, submission_terminal, submission_transition,
  same_submission_state, event_submit, event_deliver_2xx, event_deliver_4xx, event_timeout,
  event_delivery_failed, event_unresolved, event_platform_pause, task_open, sub_uncertain,
  sub_delivering,
}
use kungfu.Tx.{
  Tx, Result-cases, ok, Ensures, holds, failed, Ensures-ok, Ensures-or_fail, Ensures-call,
  Ensures-mask, Ensures-if, Ensures_elim, Ensures-map, Ensures-last_masked, committed, committed_of,
  pure,
}
use kungfu.Tables.{Db, Time, SubmissionRow}
use kungfu.Repository.{
  SetSubmissionStateOpts, updated_submission, release_task_reservation, uncertain_since,
  recent_terminal_outcomes,
}
use kungfu.Service.Deliver.{
  PostResult, map_reply, write_delivery_outcome, outcome_money, finish_delivery,
  maybe_pause_for_receiver_fault, deliver_pending, deliver_submission, recover_one, is_timeout,
  is_failure, is_unresolved, receiver_fault_threshold, all_counting,
}
use kungfu.Audit.Sums.{share, submission_weight, IsBalanced, share_zero}
use kungfu.Audit.Moves.{plus, Effect, Effect-plus, Effect-zero, task_change}
use kungfu.Audit.Primitives.{release_task_reservation-Effect, settle_task_submission-Effect}
use kungfu.Audit.Rows.{submission_change, set_submission_state-Effect, apply_task_status-Effect}
use kungfu.Audit.Balance.{IsEven, Effect-IsBalanced, zero-IsBalanced}

-- What an outcome's money does: `left` leaves the reservation, of which `paid` is paid out; and a
-- submission that ends leaves nothing reserved.
abbrev pub Pays : ℕ → ℕ → SubmissionState → Db → Db → Type 0
Pays task_id amount to db db' =
    (paid left : ℕ) × Effect (task_change task_id 0 paid 0 left 0) db db'
    × (paid ≤ left)
    × (left ≡ (if submission_terminal to then amount else 0))

Pays-same :
    {j k m n : ℕ} (to : SubmissionState) {db db' : Db}
    → j ≡ k
    → m ≡ n
    → Pays j m to db db'
    → Pays k n to db db'
Pays-same to p q h = rw (sym p, sym q) h

-- the events that a reply maps to
abbrev pub is_reply : SubmissionEvent → Bool
is_reply event_submit = false
is_reply event_unresolved = false
is_reply _ = true

pub map_reply-is_reply : (res : PostResult) → is_reply (map_reply res).event ≡ true
unfolding map_reply
map_reply-is_reply res = ground arith

abbrev pub is_end : SubmissionEvent → Bool
is_end event_timeout = false
is_end _ = true

pub ended_by :
    (from to : SubmissionState) (event : SubmissionEvent)
    → submission_transition from event ≡ some to
    → submission_terminal to ≡ is_end event
unfolding submission_transition
ended_by from to event h = ground arith

pub released-Pays :
    (task_id amount : ℕ) (to : SubmissionState) (db : Db)
    → submission_terminal to ≡ true
    → Ensures
        (λ _ db'. Pays task_id amount to db db')
        (release_task_reservation task_id (pos amount) db)
released-Pays task_id amount to db final =
    Ensures-map _ (λ _ db' e. (0, amount, e, omega arith, ground arith))
      (release_task_reservation-Effect task_id (pos amount) db)

outcome_money-Pays :
    (submission_id : ℕ) (pre : SubmissionRow) (event : SubmissionEvent) (from to : SubmissionState)
    (db : Db)
    → is_reply event ≡ true
    → submission_transition from event ≡ some to
    → Ensures
        (λ _ db'. Pays pre.task_id pre.amount to db db')
        (outcome_money submission_id pre event db)
unfolding outcome_money
outcome_money-Pays submission_id pre event_submit from to db r st = absurd (ground arith)
outcome_money-Pays submission_id pre event_unresolved from to db r st = absurd (ground arith)
outcome_money-Pays submission_id pre event_deliver_2xx from to db r st =
    let final = ended_by from to event_deliver_2xx st in
    Ensures-map _ (λ _ db' e. (pre.amount, pre.amount, e, omega arith, ground arith))
      (settle_task_submission-Effect pre.task_id submission_id pre.agent_id (pos pre.amount) db)
outcome_money-Pays submission_id pre event_deliver_4xx from to db r st =
    released-Pays pre.task_id pre.amount to db (ended_by from to event_deliver_4xx st)
outcome_money-Pays submission_id pre event_delivery_failed from to db r st =
    released-Pays pre.task_id pre.amount to db (ended_by from to event_delivery_failed st)
outcome_money-Pays submission_id pre event_timeout from to db r st =
    let live = ended_by from to event_timeout st in
    holds (0, 0, Effect-zero pre.task_id db, omega arith, ground arith)

share_le : (k j a b : ℕ) → a ≤ b → share k j a ≤ share k j b
unfolding share
share_le k j a b h = ground arith

-- A submission moves on, and pays out of its reservation.
outcome-IsBalanced :
    (submission_id : ℕ) (s : SubmissionRow) (to : SubmissionState) (opts : SetSubmissionStateOpts)
    (now : Time) {db db' db'' : Db}
    → submission_terminal s.state ≡ false
    → IsBalanced db
    → Effect (submission_change s (updated_submission s to opts now)) db db'
    → Pays s.task_id s.amount to db' db''
    → IsBalanced db''
unfolding submission_weight updated_submission share
outcome-IsBalanced submission_id s to opts now live b e (paid, left, f, le, due) =
    Effect-IsBalanced b (Effect-plus e f) (λ k. even k)
      (λ k. omega (arith, b.within k, share_le k s.task_id paid left le, share_zero k s.task_id))
  where
    even :
        (k : ℕ)
        → IsEven (
            plus
              (submission_change s (updated_submission s to opts now) k)
              (task_change s.task_id 0 paid 0 left 0 k))
    even k = ground (arith, share_zero k s.task_id)

-- `pre` is the row as it was read, perhaps before other transactions; its task and its amount are
-- those of the row that is there now.
abbrev pub IsReadOf : SubmissionRow → ℕ → Db → Type 0
IsReadOf pre submission_id db =
    (s : SubmissionRow)
    → lookup submission_id db.submissions ≡ some s
    → (s.task_id ≡ pre.task_id) × (s.amount ≡ pre.amount)

live_before :
    (from to : SubmissionState) (event : SubmissionEvent)
    → submission_transition from event ≡ some to
    → submission_terminal from ≡ false
unfolding submission_transition
live_before from to event h = ground arith

same_state : (a b : SubmissionState) → not (same_submission_state a b) ≡ false → a ≡ b
same_state a b h = ground arith

pub write_delivery_outcome-IsBalanced :
    (submission_id : ℕ) (pre : SubmissionRow) (event : SubmissionEvent)
    (opts : SetSubmissionStateOpts) (money : Tx Db (Unit {0})) (db : Db)
    → IsReadOf pre submission_id db
    → ((to : SubmissionState) (db' : Db)
        → submission_transition pre.state event ≡ some to
        → Ensures (λ _ db''. Pays pre.task_id pre.amount to db' db'') (money db'))
    → IsBalanced db
    → Ensures
        (λ _ db'. IsBalanced db')
        (write_delivery_outcome submission_id pre event opts money db)
unfolding write_delivery_outcome
write_delivery_outcome-IsBalanced submission_id pre event opts money db read pays b =
    Ensures-ok _ _ _ (
      Ensures-or_fail _ _ _ _ λ t et. Ensures-or_fail _ _ _ _ λ s e.
        Ensures-if (not (same_submission_state s.state pre.state)) _ _ _ (λ _. holds b)
          λ same. Ensures-mask _ _ _ λ u db₁ e₁. Ensures-mask _ _ _ λ v db₂ e₂.
            let (to, st, moved) =
              Ensures_elim _ (set_submission_state-Effect submission_id pre.state event opts s db e)
                e₁ in
            let (same_task, same_amount) = read s e in
            let live : submission_terminal s.state ≡ false =
              subst (λ x. submission_terminal x ≡ false) (sym (same_state s.state pre.state same))
                (live_before pre.state to event st) in
            let paid : Pays s.task_id s.amount to db₁ db₂ =
              Pays-same to (sym same_task) (sym same_amount) (Ensures_elim _ (pays to db₁ st) e₂) in
            holds (outcome-IsBalanced submission_id s to opts db.now live b moved paid))

pub finish_delivery-IsBalanced :
    (submission_id : ℕ) (pre : SubmissionRow) (res : PostResult) (db : Db)
    → IsReadOf pre submission_id db
    → IsBalanced db
    → Ensures (λ _ db'. IsBalanced db') (finish_delivery submission_id pre res db)
unfolding finish_delivery
finish_delivery-IsBalanced submission_id pre res db read b =
    Ensures-if (is_timeout (map_reply res).event && same_submission_state pre.state sub_uncertain) _
      _ _ (λ _. holds b)
      λ _.
        write_delivery_outcome-IsBalanced submission_id pre _ _ _ db read
          (λ to db' st.
            outcome_money-Pays submission_id pre _ pre.state to db' (map_reply-is_reply res) st)
          b

pub maybe_pause_for_receiver_fault-IsBalanced :
    (task_id : ℕ) (db : Db)
    → IsBalanced db
    → Ensures (λ _ db'. IsBalanced db') (maybe_pause_for_receiver_fault task_id db)
unfolding maybe_pause_for_receiver_fault
maybe_pause_for_receiver_fault-IsBalanced task_id db b = Ensures-ok _ _ _ (
    Ensures-or_fail _ _ _ _ λ t e.
      Ensures-if
        (not (is_open t.status)
          || ltb (length (recent_terminal_outcomes task_id receiver_fault_threshold db))
              receiver_fault_threshold
          || not (all_counting (recent_terminal_outcomes task_id receiver_fault_threshold db)))
        _ _ _ (λ _. holds b)
        λ _. Ensures-last_masked _ _ λ u db' r.
          zero-IsBalanced task_id b (
            Ensures_elim _ (apply_task_status-Effect task_id task_open event_platform_pause _ db)
              r))

read_now :
    (submission_id : ℕ) (pre : SubmissionRow) (db : Db)
    → lookup submission_id db.submissions ≡ some pre
    → IsReadOf pre submission_id db
read_now submission_id pre db e s f = let same : s ≡ pre = cc (e, f) in rw same (refl, refl)

pub deliver_pending-IsBalanced :
    (submission_id : ℕ) (pre : SubmissionRow) (res : PostResult) (db : Db)
    → IsReadOf pre submission_id db
    → IsBalanced db
    → Ensures (λ _ db'. IsBalanced db') (deliver_pending submission_id pre res db)
unfolding deliver_pending
deliver_pending-IsBalanced submission_id pre res db read b =
    elim (Result-cases (finish_delivery submission_id pre res db)) [
      | inr (e, failing) ↦ rw (deliver_pending, failing) failed
      | inl ((done, db'), e) ↦
          rw (deliver_pending, e)
            (paused db'
              (Ensures_elim _ (finish_delivery-IsBalanced submission_id pre res db read b) e))
    ]
  where
    paused :
        (db' : Db)
        → IsBalanced db'
        → Ensures
            (λ _ d. IsBalanced d)
            (if is_failure (map_reply res).event
              then ok (tt, committed db' (maybe_pause_for_receiver_fault pre.task_id db'))
              else ok (tt, db'))
    paused db' b' = elim (Bool-cases (is_failure (map_reply res).event)) [
      | inl y ↦ rw y (
          holds (
            committed_of IsBalanced db' _ b'
              (maybe_pause_for_receiver_fault-IsBalanced pre.task_id db' b')))
      | inr n ↦ rw n (holds b')
    ]

pub deliver_submission-IsBalanced :
    (submission_id : ℕ) (res : PostResult) (db : Db)
    → IsBalanced db
    → Ensures (λ _ db'. IsBalanced db') (deliver_submission submission_id res db)
unfolding deliver_submission
deliver_submission-IsBalanced submission_id res db b = Ensures-ok _ _ _ (
    Ensures-or_fail _ _ _ _ λ s e.
      Ensures-if (submission_terminal s.state) _ _ _ (λ _. holds b)
        λ live. Ensures-or_fail _ _ _ _ λ t et. Ensures-or_fail _ _ _ _ λ v ev.
          deliver_pending-IsBalanced submission_id s res db (read_now submission_id s db e) b)

pub recover_one-IsBalanced :
    (now : Time) (submission_id : ℕ) (res : PostResult) (db : Db)
    → IsBalanced db
    → Ensures (λ _ db'. IsBalanced db') (recover_one now submission_id res db)
unfolding recover_one
recover_one-IsBalanced now submission_id res db b = Ensures-ok _ _ _ (
    Ensures-or_fail _ _ _ _ λ s e.
      let read = read_now submission_id s db e in
      Ensures-if (same_submission_state s.state sub_delivering) _ _ _
        (λ _. Ensures-call _ _ λ v db' r. holds (
          Ensures_elim _
            (write_delivery_outcome-IsBalanced submission_id s _ _ _ db read (timed_out s) b) r))
        λ _.
          Ensures-if (same_submission_state s.state sub_uncertain) _ _ _
            (λ _.
              Ensures-if (is_unresolved (uncertain_since submission_id db) now) _ _ _
                (λ _. Ensures-call _ _ λ v db' r. holds (
                  Ensures_elim _
                    (write_delivery_outcome-IsBalanced submission_id s _ _ _ db read (gave_up s) b)
                    r))
                λ _. deliver_submission-IsBalanced submission_id res db b)
            λ _. holds b)
  where
    timed_out :
        (s : SubmissionRow) (to : SubmissionState) (db' : Db)
        → submission_transition s.state event_timeout ≡ some to
        → Ensures (λ _ db''. Pays s.task_id s.amount to db' db'') (pure tt db')
    timed_out s to db' st =
        let live = ended_by s.state to event_timeout st in
        holds (0, 0, Effect-zero s.task_id db', omega arith, ground arith)

    gave_up :
        (s : SubmissionRow) (to : SubmissionState) (db' : Db)
        → submission_transition s.state event_unresolved ≡ some to
        → Ensures
            (λ _ db''. Pays s.task_id s.amount to db' db'')
            (release_task_reservation s.task_id (pos s.amount) db')
    gave_up s to db' st =
        released-Pays s.task_id s.amount to db' (ended_by s.state to event_unresolved st)
