-- ===== src/Thread/Assign.antt =====
-- internal/service/assign.go: taking, delivering, judging, dropping and voiding an assignment.
mod Payload
unfoldable pub use Payload.*
use kungfu.Base.{
  ℕ, String, ◌+◌, Bool, false, ◌&&◌, not, Option, none, some, List, [], ◌∷◌, ◌++◌, ◌==◌, ltb,
  if◌then◌else◌, is_some,
}
use kungfu.Task.{rune_count}
use kungfu.Service.Governance.{trim_space}
use kungfu.Tables.{Time}
use kungfu.Tx.{
  Tx, ◌>>=◌, ◌>>◌, pure, fail_if, mask, internal_error, validation_failed, content_too_large,
  not_yours, assign_state,
}
use kungfu.Thread.{
  Rooms, AssignRow, AssignState, assign_open, assign_taken, assign_delivered, assign_dropped,
  assign_voided, BoundMemory, Verdict, adopt, reject, Facts, text, number, by_take, notify_judge,
  notify_verdict, notify_exit,
}
use kungfu.Thread.Store.{get_rooms}
use kungfu.Thread.Obligations.{is_undelivered, fulfill_thread_receipt, enqueue_notify}
use kungfu.Thread.Replay.{Encoding, Outcome, require_active_account, run_thread_action}
use kungfu.Thread.Requests.{join, separator}
use kungfu.Thread.Speech.{facts_only}
use kungfu.Thread.Assignments.{
  is_in, settled_as, take_assignment, set_assignment_state, insert_assignment_delivery,
  judge_assignment, deadline_passed,
}
use package.text.Mathlib.Text.{◌==◌ as str_eq}

module _ (checks : DeliveryChecks) where
  -- the delivery, on which the creator is told
  unfoldable pub deliver : ℕ → AssignRow → String → List BoundMemory → Tx Rooms Time
  deliver id a payload memories = do
    check_payload checks a.output_schema payload
    due ← mask internal_error (insert_assignment_delivery id payload memories)
    enqueue_notify a.creator_id notify_judge 1
    pure due

  abbrev due_fields : Option Time → AssignRow → Time → Facts
  due_fields none a now = ("deliver_due_at", number (now + a.deliver_due_s)) ∷ []
  due_fields (some due) a now =
      ("deliver_due_at", number (now + a.deliver_due_s)) ∷ ("judge_due_at", number due) ∷ []

  abbrev state_after : Option Time → AssignState
  state_after none = assign_taken
  state_after (some due) = assign_delivered

  -- a delivery in the same action, if it comes with content
  unfoldable pub deliver_with : ℕ → AssignRow → String → List BoundMemory → Tx Rooms (Option Time)
  deliver_with id a payload memories =
      if str_eq payload "" && is_empty_list memories
      then pure none
      else do due ← deliver id a payload memories; pure (some due)

  -- The transaction of `AssignTake`.
  unfoldable pub take_assign : ℕ → ℕ → String → String → Tx Rooms Outcome
  take_assign bot_id id payload memories = do
    require_active_account bot_id
    (a, code) ← load_assignment_room id bot_id
    fail_if (not (a.assignee_id == bot_id)) not_yours
    fail_if (not (is_in assign_open a)) assign_state
    done ← mask assign_state (take_assignment id bot_id)
    fail_if (not done) assign_state
    _ ← mask internal_error (fulfill_thread_receipt a.entry_id bot_id by_take none)
    bound ← check_memories checks bot_id memories
    due ← deliver_with id a payload bound
    db ← get_rooms
    pure (facts_only (assignment_facts code id a (state_after due) ++ due_fields due a db.now))

  -- The transaction of `AssignSubmit`.
  unfoldable pub submit_assign : ℕ → ℕ → String → String → Tx Rooms Outcome
  submit_assign bot_id id payload memories = do
    require_active_account bot_id
    (a, code) ← load_assignment_room id bot_id
    fail_if (not (a.assignee_id == bot_id)) not_yours
    db ← get_rooms
    fail_if (deadline_passed id a db) assign_state
    fail_if (not (is_in assign_taken a)) assign_state
    bound ← check_memories checks bot_id memories
    fail_if (str_eq payload "" && is_empty_list bound) validation_failed
    due ← deliver id a payload bound
    pure (
        facts_only
          (assignment_facts code id a assign_delivered ++ ("judge_due_at", number due) ∷ []))

-- The transaction of `AssignJudge`.
unfoldable pub judge_assign : ℕ → ℕ → Verdict → String → Tx Rooms Outcome
judge_assign bot_id id verdict reason = do
  require_active_account bot_id
  (a, code) ← load_assignment_room id bot_id
  fail_if (not (a.creator_id == bot_id)) not_yours
  db ← get_rooms
  fail_if (deadline_passed id a db) assign_state
  fail_if (not (is_in assign_delivered a)) assign_state
  fail_if (is_some a.judge_forfeited_at) not_yours
  done ← mask assign_state (judge_assignment id bot_id verdict reason)
  fail_if (not done) assign_state
  enqueue_notify a.assignee_id notify_verdict 1
  pure (
      facts_only (
        assignment_facts code id a (settled_as verdict)
        ++ ("verdict", text (verdict_text verdict)) ∷ []))

-- The transaction of `AssignDrop`.
unfoldable pub drop_assign : ℕ → ℕ → Tx Rooms Outcome
drop_assign bot_id id = do
  require_active_account bot_id
  (a, code) ← load_assignment_room id bot_id
  fail_if (not (a.assignee_id == bot_id)) not_yours
  db ← get_rooms
  fail_if (deadline_passed id a db) assign_state
  fail_if (not (is_in assign_taken a)) assign_state
  done ← mask assign_state (set_assignment_state id assign_taken assign_dropped)
  fail_if (not done) assign_state
  enqueue_notify a.creator_id notify_exit 1
  pure (facts_only (assignment_facts code id a assign_dropped))

-- The transaction of `AssignVoid`.
unfoldable pub void_assign : ℕ → ℕ → Tx Rooms Outcome
void_assign bot_id id = do
  require_active_account bot_id
  (a, code) ← load_assignment_room id bot_id
  fail_if (not (a.creator_id == bot_id)) not_yours
  fail_if (not (is_undelivered a.state)) assign_state
  done ← mask assign_state (set_assignment_state id a.state assign_voided)
  fail_if (not done) assign_state
  enqueue_notify a.assignee_id notify_exit 1
  pure (facts_only (assignment_facts code id a assign_voided))

module _ (enc : Encoding) where
  open enc use {sha256_hex, decimal}

  abbrev assign_request : ℕ → List String → String
  assign_request id args = sha256_hex (join separator ("v1" ∷ decimal id ∷ args))

  -- `AssignTake`
  unfoldable pub assign_take : DeliveryChecks → ℕ → ℕ → String → String → String → Tx Rooms Facts
  assign_take checks bot_id id payload memories idem_key =
      run_thread_action bot_id "assign_take" idem_key (assign_request id (payload ∷ memories ∷ []))
        (take_assign checks bot_id id payload memories)

  -- `AssignSubmit`
  unfoldable pub assign_submit : DeliveryChecks → ℕ → ℕ → String → String → String → Tx Rooms Facts
  assign_submit checks bot_id id payload memories idem_key =
      run_thread_action bot_id "assign_submit" idem_key
        (assign_request id (payload ∷ memories ∷ []))
        (submit_assign checks bot_id id payload memories)

  abbrev lacks_reason : Verdict → String → Bool
  lacks_reason adopt reason = false
  lacks_reason reject reason = str_eq (trim_space reason) ""

  -- `AssignJudge`: a verdict is one of the two here, which the source checks.
  unfoldable pub assign_judge : ℕ → ℕ → Verdict → String → String → Tx Rooms Facts
  assign_judge bot_id id verdict reason idem_key = do
    fail_if (lacks_reason verdict reason) validation_failed
    fail_if (ltb assign_max_reason_runes (rune_count reason)) content_too_large
    run_thread_action bot_id "assign_judge" idem_key
        (assign_request id (verdict_text verdict ∷ reason ∷ []))
        (judge_assign bot_id id verdict reason)

  -- `AssignDrop`
  unfoldable pub assign_drop : ℕ → ℕ → String → Tx Rooms Facts
  assign_drop bot_id id idem_key =
      run_thread_action bot_id "assign_drop" idem_key (assign_request id []) (drop_assign bot_id id)

  -- `AssignVoid`
  unfoldable pub assign_void : ℕ → ℕ → String → Tx Rooms Facts
  assign_void bot_id id idem_key =
      run_thread_action bot_id "assign_void" idem_key (assign_request id []) (void_assign bot_id id)
