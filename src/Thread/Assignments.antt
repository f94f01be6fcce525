-- ===== src/Thread/Assignments.antt =====
-- internal/repository/thread.go: the transitions of an assignment and its one delivery.
use kungfu.Base.{
  ℕ, String, ◌+◌, Bool, true, false, ◌&&◌, not, Option, none, some, List, ◌∷◌, ◌==◌, leb,
  if◌then◌else◌, lookup, put, is_some, Table,
}
use kungfu.Tables.{Time}
use kungfu.Tx.{Tx, ◌>>=◌, ◌>>◌, pure, fail_if, or_fail, modify, no_rows, unique_violation}
use kungfu.Thread.{
  Rooms, AssignRow, AssignState, assign_open, assign_taken, assign_delivered, assign_adopted,
  assign_rejected, DeliveryRow, BoundMemory, Verdict, adopt, reject,
}
use kungfu.Thread.Store.{get_rooms}
use kungfu.Thread.Entries.{null_if_empty}
use kungfu.Thread.Obligations.{same_assign_state, ended}

abbrev pub move_if : Bool → ℕ → AssignRow → (AssignRow → Time → AssignRow) → Tx Rooms Bool
move_if false id a f = pure false
move_if true id a f = do
  modify (λ (d : Rooms). record d { assigns = put id (f a d.now) d.assigns })
  pure true

abbrev pub move_row :
    Option AssignRow → (AssignRow → Bool) → (AssignRow → Time → AssignRow) → ℕ → Tx Rooms Bool
move_row none fits f id = pure false
move_row (some a) fits f id = move_if (fits a) id a f

-- an UPDATE of one assignment where it is in a state
unfoldable pub move_assignment :
    (AssignRow → Bool) → (AssignRow → Time → AssignRow) → ℕ → Tx Rooms Bool
move_assignment fits f id = do db ← get_rooms; move_row (lookup id db.assigns) fits f id

abbrev pub is_in : AssignState → AssignRow → Bool
is_in s a = same_assign_state a.state s

abbrev pub taken : AssignRow → Time → AssignRow
taken a now = record a {
  state = assign_taken;
  taken_at = some now;
  deliver_due_at = some (now + a.deliver_due_s);
}

-- `TakeAssignmentCAS`
unfoldable pub take_assignment : ℕ → ℕ → Tx Rooms Bool
take_assignment id assignee_id =
    move_assignment (λ a. a.assignee_id == assignee_id && is_in assign_open a) taken id

-- `SetAssignmentStateCAS`
unfoldable pub set_assignment_state : ℕ → AssignState → AssignState → Tx Rooms Bool
set_assignment_state id from to = move_assignment (is_in from) (λ a now. ended to now a) id

abbrev pub delivered : AssignRow → Time → AssignRow
delivered a now = record a { state = assign_delivered }

abbrev due_to_judge : Option AssignRow → Time → Option Time
due_to_judge none now = none
due_to_judge (some a) now = some (now + a.judge_due_s)

-- `InsertAssignmentDelivery`: one delivery per assignment; judge_due_at is NOT NULL.
unfoldable pub insert_assignment_delivery : ℕ → String → List BoundMemory → Tx Rooms Time
insert_assignment_delivery id payload memories = do
  db ← get_rooms
  fail_if (is_some (lookup id db.deliveries)) unique_violation
  due ← or_fail (due_to_judge (lookup id db.assigns) db.now) no_rows
  modify (λ (d : Rooms). record d {
    deliveries =
        (
          id,
          record {
            payload = null_if_empty payload;
            memories = memories;
            submitted_at = d.now;
            judge_due_at = due;
            judged_at = none;
            verdict = none;
            reason = none;
          },
        )
        ∷ d.deliveries;
  })
  moved ← move_assignment (is_in assign_taken) delivered id
  fail_if (not moved) no_rows
  pure due

abbrev pub settled_as : Verdict → AssignState
settled_as adopt = assign_adopted
settled_as reject = assign_rejected

abbrev reason_of : Verdict → String → Option String → Option String
reason_of adopt reason old = old
reason_of reject reason old = some reason

abbrev judged_delivery :
    ℕ → Verdict → String → Time → Table DeliveryRow → Option DeliveryRow → Table DeliveryRow
judged_delivery id verdict reason now rows none = rows
judged_delivery id verdict reason now rows (some d) =
    put id
      (record d {
        verdict = some verdict;
        reason = reason_of verdict reason d.reason;
        judged_at = some now;
      })
      rows

abbrev may_judge : ℕ → AssignRow → Bool
may_judge creator_id a =
    a.creator_id == creator_id && (is_in assign_delivered a && not (is_some a.judge_forfeited_at))

abbrev pub mirror_verdict : Bool → ℕ → Verdict → String → Tx Rooms Bool
mirror_verdict false id verdict reason = pure false
mirror_verdict true id verdict reason = do
  modify (λ (d : Rooms). record d {
    deliveries = judged_delivery id verdict reason d.now d.deliveries (lookup id d.deliveries);
  })
  pure true

-- `JudgeAssignmentCAS`: the verdict is mirrored on the delivery.
unfoldable pub judge_assignment : ℕ → ℕ → Verdict → String → Tx Rooms Bool
judge_assignment id creator_id verdict reason = do
  moved ← move_assignment (may_judge creator_id) (λ a now. ended (settled_as verdict) now a) id
  mirror_verdict moved id verdict reason

abbrev pub past : Option Time → Time → Bool
past none now = false
past (some due) now = leb due now

abbrev pub judge_due : Option DeliveryRow → Option Time
judge_due none = none
judge_due (some d) = some d.judge_due_at

-- `deadlinePassed`: a missing clock has not passed
unfoldable pub deadline_passed : ℕ → AssignRow → Rooms → Bool
deadline_passed id a db =
    if is_in assign_taken a
    then past a.deliver_due_at db.now
    else past (judge_due (lookup id db.deliveries)) db.now
