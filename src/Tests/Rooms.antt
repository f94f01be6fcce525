-- ===== src/Tests/Rooms.antt =====
-- Rooms on a concrete database.
use kungfu.Base.{
  ℕ, ◌≡◌, refl, true, false, none, some, [], ◌∷◌, List, String, arith, lookup, put, first, fresh,
  count, find, map, update, delete, take,
}
use kungfu.Tx.{ok, err, Result, Tx, running, committed}
use kungfu.Thread.{
  Rooms, AccountRow, Facts, ThreadRow, is_open_status, is_governor, speech_right, status_closed,
}
use kungfu.Thread.Replay.{Encoding, Outcome}
use kungfu.Thread.Repeats.{run_thread_action-twice, IsAnsweredAlike}
use kungfu.Thread.Speech.{Post}
use kungfu.Thread.Closing.{
  close_room_collects, terminate_leaves_receipts, IsCollected, owed_by_others,
}
use kungfu.Thread.Asked.{response_objects-IsAskable, IsAskable}
use kungfu.Thread.Silence.{closed_room_is_silent, to_post}
use kungfu.Thread.Writes.{Governed}
use kungfu.Thread.Timeline.{perform_all-IsProgress}
use kungfu.Thread.Progress.{IsProgress}
use kungfu.Thread.System.{
  leaves, Setup, Request, perform_all-Governed, starts, joins, posts, closes,
}
use kungfu.Thread.Store.{
  has_code, find_thread_by_code, first_unused, generate_unique, generate_unique_thread_code,
  insert_thread, opens_with, find_open_thread_by_key_hash, update_thread, issue_thread_key,
  revoke_thread_key, close_thread_by_id, is_member, in_thread, governs, find_thread_member,
  insert_thread_member, delete_thread_member, with_role, set_thread_member_role,
  count_thread_members, count_thread_governors, in_open_room, count_open_memberships,
  answers_request, find_thread_idempotency, insert_thread_idempotency,
}
use kungfu.Thread.Replay.{
  set_field, set_fields, first_response, require_active_account, same_request, answer_stored,
  is_unique_violation, resolve, settle, store_receipt, answer, run_thread_action_compat,
  run_thread_action,
}
use kungfu.Thread.Obligations.{
  owed_on, insert_thread_receipt, is_owed, fulfilled_by, withdrawn_by, fulfill_thread_receipt,
  withdraw_receipts, of_entry, of_member, of_thread, withdraw_thread_receipts_by_entry,
  withdraw_thread_receipts_by_member, withdraw_all_thread_receipts, is_undelivered,
  same_assign_state, ended, void_assigns, is_party, undelivered_in, undelivered_of,
  void_undelivered_assigns_for_member, void_undelivered_assigns, awaits_judgment_of, forfeited,
  forfeit_judgments_for_creator, enqueue_notify,
}
use kungfu.Thread.Kernel.{
  thread_next_actions, governor_next_after, load_room_for_governor, first_key, start_room,
  thread_start, issue_key, thread_issue_key, revoke_key, thread_revoke_key,
}
use kungfu.Thread.Membership.{
  admitted, admit, join_as, join_room, thread_join, leave_room, thread_leave,
  governed_member_change, remove_member, thread_remove_member, change_role, thread_set_role,
  close_room, thread_close,
}
use kungfu.Thread.Entries.{
  next_thread_seq, find_kungfu_by_code, create_thread_kungfu, find_thread_entry, has_seq,
  insert_thread_entry, can_speak_in, count_thread_speech_capable, insert_assignment,
  link_entry_assignment,
}
use kungfu.Thread.Speech.{
  load_open_room, summary_of, pinnable, store_content, pin_memory, replied_author, has_id,
  ask_members, ask_author, is_other_speaker, ask_other, ask_by_default, response_objects,
  insert_receipts, notify_asked, due_seconds, create_assignment, end_own_receipt, post_entry,
  handle_receipt, retract_entry,
}
use kungfu.Thread.Requests.{
  insert_id, sort_ids, join, post_document, nums_join, legacy_post_hash, thread_handle,
  thread_retract, post_hash, thread_post,
}
use kungfu.Thread.Assignments.{
  move_assignment, take_assignment, set_assignment_state, insert_assignment_delivery,
  judge_assignment, deadline_passed,
}
use kungfu.Thread.Assign.{
  load_assignment_room, owned_memory, bind_memories, check_payload, check_memories, deliver,
  deliver_with, take_assign, submit_assign, judge_assign, drop_assign, void_assign, assign_take,
  assign_submit, assign_judge, assign_drop, assign_void,
}
use kungfu.Thread.Cascade.{
  governs_as, governs_beside, loses_governance, close_orphans, orphan_codes, owed_by,
  undelivered_with, is_account, terminate_account_thread_memberships, admin_set_bot_status,
  timed_out, unjudged, select_assigns, settle_expired, recover_assigns,
}
use kungfu.Thread.System.{leaves, perform, perform_all}
use kungfu.Service.Governance.{trim_left, trim_right}
use kungfu.Thread.{same_role, is_pending}

-- to compute with the operations on rooms
unfoldable rooms_running : ℕ
unfolding running lookup put first fresh count find update delete take is_open_status is_governor
    speech_right same_role is_pending trim_left trim_right has_code find_thread_by_code first_unused
    generate_unique generate_unique_thread_code insert_thread opens_with
    find_open_thread_by_key_hash update_thread issue_thread_key revoke_thread_key close_thread_by_id
    is_member in_thread governs find_thread_member insert_thread_member delete_thread_member
    with_role set_thread_member_role count_thread_members count_thread_governors in_open_room
    count_open_memberships answers_request find_thread_idempotency insert_thread_idempotency
    set_field set_fields first_response require_active_account same_request answer_stored
    is_unique_violation resolve settle store_receipt answer run_thread_action_compat
    run_thread_action owed_on insert_thread_receipt is_owed fulfilled_by withdrawn_by
    fulfill_thread_receipt withdraw_receipts of_entry of_member of_thread
    withdraw_thread_receipts_by_entry withdraw_thread_receipts_by_member
    withdraw_all_thread_receipts is_undelivered same_assign_state ended void_assigns is_party
    undelivered_in undelivered_of void_undelivered_assigns_for_member void_undelivered_assigns
    awaits_judgment_of forfeited forfeit_judgments_for_creator enqueue_notify thread_next_actions
    governor_next_after load_room_for_governor first_key start_room thread_start issue_key
    thread_issue_key revoke_key thread_revoke_key admitted admit join_as join_room thread_join
    leave_room thread_leave governed_member_change remove_member thread_remove_member change_role
    thread_set_role close_room thread_close next_thread_seq find_kungfu_by_code create_thread_kungfu
    find_thread_entry has_seq insert_thread_entry can_speak_in count_thread_speech_capable
    insert_assignment link_entry_assignment load_open_room summary_of pinnable store_content
    pin_memory replied_author has_id ask_members ask_author is_other_speaker ask_other
    ask_by_default response_objects insert_receipts notify_asked due_seconds create_assignment
    end_own_receipt post_entry handle_receipt retract_entry insert_id sort_ids join post_document
    nums_join legacy_post_hash thread_handle thread_retract post_hash thread_post move_assignment
    take_assignment set_assignment_state insert_assignment_delivery judge_assignment deadline_passed
    load_assignment_room owned_memory bind_memories check_payload check_memories deliver
    deliver_with take_assign submit_assign judge_assign drop_assign void_assign assign_take
    assign_submit assign_judge assign_drop assign_void governs_as governs_beside loses_governance
    close_orphans orphan_codes owed_by undelivered_with is_account
    terminate_account_thread_memberships admin_set_bot_status timed_out unjudged select_assigns
    settle_expired recover_assigns perform perform_all
rooms_running = 0

abbrev enc : Encoding
enc = record { sha256_hex = λ s. s; quoted = λ s. s; decimal = λ n. "7" }

abbrev setup : Setup
setup = record {
  encoding = record { encoding = enc; document_json = λ p. p.content };
  post_checks = record { has_credentials = λ c s. false; is_json = λ s. true };
  delivery_checks = record {
    is_json = λ s. true;
    breaks_schema = λ s p. false;
    parse_refs = λ s. none;
  };
}

abbrev account : AccountRow
account = record { bot_name = "bot"; is_enabled = true }

abbrev empty_rooms : Rooms
empty_rooms = record {
  now = 9;
  accounts = (1, account) ∷ (2, account) ∷ [];
  threads = [];
  members = [];
  entries = [];
  receipts = [];
  assigns = [];
  deliveries = [];
  outbox = [];
  idempotency = [];
  memories = [];
}

empty_rooms-Governed : Governed empty_rooms
unfolding lookup count
empty_rooms-Governed = record {
  keyed = tt;
  unique = λ id a. omega arith;
  homed = λ id e. refl;
  governed = λ id t e o. absurd (ground arith);
  bounded = λ id. omega arith;
  limited = λ a. omega arith;
  keyless = λ id t e o. absurd (ground arith);
}

abbrev greeting : Post
greeting = record {
  thread_code = "r1";
  content = "hello";
  memory_code = "";
  summary = "";
  reply_to = none;
  ask = none;
  assign = none;
}

abbrev calls : List Request
calls =
    starts 1 "talk" (some "0123456789abcdef0123456789abcdef") "" ("r1" ∷ [])
    ∷ joins 2 "kf_0123456789abcdef0123456789abcdef" ""
    ∷ posts 1 greeting "" ("m1" ∷ [])
    ∷ []

abbrev talking : Rooms
talking = perform_all setup calls empty_rooms

perform_all-Governed_example : Governed (perform_all setup calls empty_rooms)
perform_all-Governed_example = perform_all-Governed setup calls empty_rooms empty_rooms-Governed

-- the room has two members, an entry and a receipt
talking_now : ((map (λ p. p.0) talking.entries) ≡ 1 ∷ []) × (count (λ r. true) talking.receipts ≡ 1)
unfolding rooms_running
talking_now = (refl, refl)

abbrev db_after : {A : Type 0} → Rooms → Result (A × Rooms) → Rooms
db_after db r = committed db r

abbrev value_or : {A : Type 0} → A → Result (A × Rooms) → A
value_or a (ok (b, s)) = b
value_or a (err e) = a

abbrev no_outcome : Outcome
no_outcome = record { facts = []; first_only = []; view = [] }

talking-Governed : Governed talking
talking-Governed = perform_all-Governed setup calls empty_rooms empty_rooms-Governed

abbrev start : Tx Rooms Outcome
start = start_room enc 1 "talk" none ("r1" ∷ [])

abbrev first_call : Result (Facts × Rooms)
first_call = run_thread_action_compat 1 "thread_start" "k" "h" "" start empty_rooms

run_thread_action-twice_example :
    IsAnsweredAlike 1 "thread_start" "k" "h" "" start empty_rooms
      (committed empty_rooms first_call)
      (value_or [] first_call)
unfolding rooms_running
run_thread_action-twice_example =
    run_thread_action-twice 1 "thread_start" "k" "h" "" start empty_rooms
      (committed empty_rooms first_call) (value_or [] first_call) refl refl refl refl

abbrev close_call : Result (Outcome × Rooms)
close_call = close_room enc 1 "r1" talking

close_room_collects_example :
    (id : ℕ) × (t : ThreadRow) × (find_thread_by_code "r1" talking ≡ some (id, t))
    × IsCollected id (committed talking close_call)
unfolding rooms_running
close_room_collects_example =
    close_room_collects enc 1 "r1" talking (value_or no_outcome close_call)
      (committed talking close_call) talking-Governed refl

abbrev end_call : Result (List String × Rooms)
end_call = terminate_account_thread_memberships 1 talking

-- the room closes with its only governor, and the other member still owes a receipt there
terminate_leaves_receipts_example :
    count (owed_by_others 1 1) (committed talking end_call).receipts
    ≡ count (owed_by_others 1 1) talking.receipts
unfolding rooms_running
terminate_leaves_receipts_example =
    terminate_leaves_receipts 1 1 talking (value_or [] end_call) (committed talking end_call) refl

orphan_owes :
    (count (owed_by_others 1 1) talking.receipts ≡ 1)
    × (map (λ p. is_open_status p.1.status) (committed talking end_call).threads ≡ false ∷ [])
unfolding rooms_running
orphan_owes = (refl, refl)

response_objects-IsAskable_example : (talking ≡ talking) × IsAskable 1 1 talking (2 ∷ [])
unfolding rooms_running
response_objects-IsAskable_example =
    response_objects-IsAskable 1 1 none none talking talking (2 ∷ []) talking-Governed refl

abbrev closed_rooms : Rooms
closed_rooms = perform setup (closes 1 "r1" "") talking

closed_room : ThreadRow
closed_room = record {
  code = "r1";
  subject = some "talk";
  status = status_closed;
  key = none;
  next_seq = 2;
  created_at = 9;
  closed_at = some 9;
}

closed_room_is_silent_example : perform setup (posts 1 greeting "k" []) closed_rooms ≡ closed_rooms
unfolding rooms_running closed_room
closed_room_is_silent_example =
    closed_room_is_silent 1 closed_room closed_rooms refl "r1" refl setup (posts 1 greeting "k" [])
      (to_post refl)

-- the asked member leaves, and the governor closes the room
abbrev parting : List Request
parting = leaves 2 "r1" "l" ∷ closes 1 "r1" "c" ∷ []

perform_all-IsProgress_example : IsProgress talking (perform_all setup parting talking)
perform_all-IsProgress_example = perform_all-IsProgress setup parting talking

-- the receipt that was pending has ended
parted_now :
    (count (λ r. is_pending r.state) talking.receipts ≡ 1)
    × (count (λ r. is_pending r.state) (perform_all setup parting talking).receipts ≡ 0)
unfolding rooms_running
parted_now = (refl, refl)
