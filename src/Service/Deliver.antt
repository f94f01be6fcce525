-- ===== src/Service/Deliver.antt =====
-- internal/service/task_deliver.go and task_recovery.go: the reply decides the outcome, and the
-- outcome is written in one transaction. The POST itself (internal/delivery) is the argument `res`.
use kungfu.Base.{
  ℕ, ◌*◌, ◌-◌, Bool, true, false, ◌&&◌, ◌||◌, not, Option, none, some, List, [], ◌∷◌, leb, ltb,
  if◌then◌else◌, lookup, pos, length, take,
}
use kungfu.Task.{
  task_open, SubmissionState, sub_delivering, sub_uncertain, sub_failed, SubmissionEvent,
  event_deliver_2xx, event_deliver_4xx, event_timeout, event_delivery_failed, event_unresolved,
  event_platform_pause, is_open, same_submission_state, submission_terminal,
}
use kungfu.Tx.{
  Tx, Result, ok, err, ◌>>=◌, ◌>>◌, pure, or_fail, mask, committed, internal_error,
  submission_not_found,
}
use kungfu.Tables.{
  Db, Time, SubmissionRow, FailureReason, receiver_unreachable, receiver_fault, receiver_protocol,
  delivery_unresolved,
}
use kungfu.Repository.{
  SetSubmissionStateOpts, no_opts, set_submission_state, settle_task_submission,
  release_task_reservation, recent_terminal_outcomes, apply_task_status, uncertain_since,
  find_task_contract_version,
}
use kungfu.Utf8.{to_valid_utf8, cut_back}
use kungfu.Service.Limits.{second}
use kungfu.Service.Claim.{get_db}

-- delivery.PostResult; the body is a list of bytes
pub record PostResult : Type 0 where
  pub success : Bool
  pub response_code : Option ℕ
  pub response_body : Option (List ℕ)
  pub sent : Bool

-- `IsDefinitiveNotDelivered`
unfoldable pub is_definitive_not_delivered : PostResult → Bool
is_definitive_not_delivered res = elim res.response_code [
  | some _ ↦ false
  | none ↦ if res.success then false else not res.sent
]

abbrev pub max_reply_body_bytes : ℕ
max_reply_body_bytes = 4000

unfoldable pub cut_text : ℕ → List ℕ → List ℕ
cut_text room b = if ltb room (length b) then take (cut_back room b) b else b

-- `replyBody`
unfoldable pub reply_body : Option (List ℕ) → Option (List ℕ)
reply_body none = none
reply_body (some body) = some (cut_text max_reply_body_bytes (to_valid_utf8 body))

pub record ReplyOutcome : Type 0 where
  pub event : SubmissionEvent
  pub opts : SetSubmissionStateOpts

abbrev outcome_of :
    SubmissionEvent → Option ℕ → Option (List ℕ) → Option FailureReason → ReplyOutcome
outcome_of event code body failure = record {
  event = event;
  opts = record { response_code = code; response_body = body; failure = failure };
}

abbrev map_status : ℕ → Option (List ℕ) → ReplyOutcome
map_status code body =
    if leb 200 code && ltb code 300
    then outcome_of event_deliver_2xx (some code) body none
    else if leb 400 code && ltb code 500
    then outcome_of event_deliver_4xx (some code) body none
    else if leb 500 code
    then outcome_of event_delivery_failed (some code) body (some receiver_fault)
    else outcome_of event_delivery_failed (some code) body (some receiver_protocol)

-- `mapReply`
unfoldable pub map_reply : PostResult → ReplyOutcome
unfolding reply_body is_definitive_not_delivered
map_reply res = elim res.response_code [
  | some code ↦ map_status code (reply_body res.response_body)
  | none ↦
      if is_definitive_not_delivered res
      then outcome_of event_delivery_failed none none (some receiver_unreachable)
      else outcome_of event_timeout none none none
]

-- `writeDeliveryOutcome`: `false` when the state is `pre`'s no more, and a concurrent outcome stands.
unfoldable pub write_delivery_outcome :
    ℕ → SubmissionRow → SubmissionEvent → SetSubmissionStateOpts → Tx Db (Unit {0}) → Tx Db Bool
write_delivery_outcome submission_id pre event opts money = do
  db ← get_db
  _ ← or_fail (lookup pre.task_id db.tasks) internal_error
  current ← or_fail (lookup submission_id db.submissions) internal_error
  if not (same_submission_state current.state pre.state) then pure false else do
    mask internal_error (set_submission_state submission_id pre.state event opts)
    mask internal_error money
    pure true

-- the `settle` and `release` that `DeliverSubmission` passes for an event
unfoldable pub outcome_money : ℕ → SubmissionRow → SubmissionEvent → Tx Db (Unit {0})
outcome_money submission_id pre event_deliver_2xx =
    settle_task_submission pre.task_id submission_id pre.agent_id (pos pre.amount)
outcome_money submission_id pre event_deliver_4xx =
    release_task_reservation pre.task_id (pos pre.amount)
outcome_money submission_id pre event_delivery_failed =
    release_task_reservation pre.task_id (pos pre.amount)
outcome_money submission_id pre _ = pure tt

abbrev pub is_timeout : SubmissionEvent → Bool
is_timeout event_timeout = true
is_timeout _ = false

abbrev pub is_failure : SubmissionEvent → Bool
is_failure event_delivery_failed = true
is_failure _ = false

-- `DeliverSubmission` after the POST, for the row `pre` that was read before it: another timeout
-- of an uncertain submission writes nothing.
unfoldable pub finish_delivery : ℕ → SubmissionRow → PostResult → Tx Db Bool
finish_delivery submission_id pre res =
    let outcome = map_reply res in
    if is_timeout outcome.event && same_submission_state pre.state sub_uncertain
    then pure false
    else write_delivery_outcome submission_id pre outcome.event outcome.opts
        (outcome_money submission_id pre outcome.event)

abbrev pub receiver_fault_threshold : ℕ
receiver_fault_threshold = 5

-- failed with a reason of `countingFailures`
abbrev pub is_counting : SubmissionState × Option FailureReason → Bool
is_counting (sub_failed, some receiver_protocol) = true
is_counting (sub_failed, some receiver_fault) = true
is_counting (sub_failed, some receiver_unreachable) = true
is_counting _ = false

unfoldable pub all_counting : List (SubmissionState × Option FailureReason) → Bool
all_counting [] = true
all_counting (o ∷ os) = if is_counting o then all_counting os else false

-- `maybePauseForReceiverFault`
unfoldable pub maybe_pause_for_receiver_fault : ℕ → Tx Db (Unit {0})
maybe_pause_for_receiver_fault task_id = do
  db ← get_db
  t ← or_fail (lookup task_id db.tasks) internal_error
  let outcomes = recent_terminal_outcomes task_id receiver_fault_threshold db
  if not (is_open t.status)
        || ltb (length outcomes) receiver_fault_threshold
        || not (all_counting outcomes)
      then pure tt
      else mask internal_error
          (apply_task_status task_id task_open event_platform_pause (some "RECEIVER_FAULT"))

-- The two transactions of a delivery one after the other; a failure of the second is only logged.
unfoldable pub deliver_pending : ℕ → SubmissionRow → PostResult → Db → Result (Unit {0} × Db)
deliver_pending submission_id pre res db = elim (finish_delivery submission_id pre res db) [
  | err e ↦ err e
  | ok (done, db') ↦
      if is_failure (map_reply res).event
      then ok (tt, committed db' (maybe_pause_for_receiver_fault pre.task_id db'))
      else ok (tt, db')
]

-- `DeliverSubmission`
unfoldable pub deliver_submission : ℕ → PostResult → Tx Db (Unit {0})
deliver_submission submission_id res = do
  db ← get_db
  sub ← or_fail (lookup submission_id db.submissions) submission_not_found
  if submission_terminal sub.state then pure tt else do
    _ ← or_fail (lookup sub.task_id db.tasks) internal_error
    _ ←
        or_fail (find_task_contract_version sub.task_id sub.contract_version db.versions)
          internal_error
    deliver_pending submission_id sub res

abbrev pub uncertain_unresolved_after : ℕ
uncertain_unresolved_after = 24 * 3600 * second

abbrev pub is_unresolved : Option Time → Time → Bool
is_unresolved none now = false
is_unresolved (some since) now = leb uncertain_unresolved_after (now - since)

abbrev pub unresolved_opts : SetSubmissionStateOpts
unresolved_opts = record no_opts { failure = some delivery_unresolved }

-- One leased submission of `RecoverSubmissions`.
unfoldable pub recover_one : Time → ℕ → PostResult → Tx Db (Unit {0})
recover_one now submission_id res = do
  db ← get_db
  sub ← or_fail (lookup submission_id db.submissions) submission_not_found
  if same_submission_state sub.state sub_delivering
      then write_delivery_outcome submission_id sub event_timeout no_opts (pure tt) >> pure tt
      else if same_submission_state sub.state sub_uncertain
      then (if is_unresolved (uncertain_since submission_id db) now
          then write_delivery_outcome submission_id sub event_unresolved unresolved_opts
              (release_task_reservation sub.task_id (pos sub.amount))
            >> pure tt
          else deliver_submission submission_id res)
      else pure tt
