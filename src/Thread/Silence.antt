-- ===== src/Thread/Silence.antt =====
-- A closed room is read-only: internal/service/thread_kernel.go and thread_state.go.
use kungfu.Base.{ℕ, String, ◌≡◌, refl, Bool, true, false, Option, none, some, List, arith}
use kungfu.Tx.{
  Tx, Result, Ensures, holds, failed, Ensures-fail_if, Ensures-or_fail, Ensures-after, after,
  committed, committed_of,
}
use kungfu.Thread.{Rooms, ThreadRow, ThreadRole, IdempotencyRow, is_open_status}
use kungfu.Thread.Store.{find_thread_by_code}
use kungfu.Thread.Replay.{
  Outcome, run_thread_action, run_thread_action_compat, answer, answer_stored,
  require_active_account,
}
use kungfu.Thread.Kernel.{
  load_room_for_governor, issue_key, revoke_key, thread_issue_key, thread_revoke_key,
}
use kungfu.Thread.Membership.{
  governed_member_change, remove_member, change_role, close_room, thread_remove_member,
  thread_set_role, thread_close,
}
use kungfu.Thread.Speech.{Post, load_open_room, post_entry, handle_receipt, retract_entry}
use kungfu.Thread.Requests.{thread_post, thread_handle, thread_retract}
use kungfu.Thread.Governance.{active_first}
use kungfu.Thread.System.{
  Request, Setup, perform, issues_key, revokes_key, closes, removes, sets_role, posts, handles,
  retracts,
}

-- a transaction that cannot succeed
abbrev Fails : {A : Type 0} → Result (A × Rooms) → Type 0
Fails r = Ensures (λ _ _. ⊥) r

-- the calls that speak in a room, or govern it
pub data Addresses (code : String) : Request → Type 0 where
  to_issue :
      {bot : ℕ} {role : Option ThreadRole} {idem body : String}
      → Addresses code (issues_key bot code role idem body)
  to_revoke : {bot : ℕ} {idem : String} → Addresses code (revokes_key bot code idem)
  to_close : {bot : ℕ} {idem : String} → Addresses code (closes bot code idem)
  to_remove : {bot member : ℕ} {idem : String} → Addresses code (removes bot code member idem)
  to_set_role :
      {bot member : ℕ} {role : ThreadRole} {idem : String}
      → Addresses code (sets_role bot code member role idem)
  to_post :
      {bot : ℕ} {p : Post} {idem : String} {draws : List String}
      → p.thread_code ≡ code
      → Addresses code (posts bot p idem draws)
  to_handle :
      {bot entry : ℕ} {said idem : String} → Addresses code (handles bot code entry said idem)
  to_retract : {bot entry : ℕ} {idem : String} → Addresses code (retracts bot code entry idem)

answer_stored_same :
    (same : Bool) (r : IdempotencyRow) (db : Rooms)
    → Ensures (λ _ s. s ≡ db) (answer_stored same r db)
unfolding answer_stored
answer_stored_same true r db = holds refl
answer_stored_same false r db = failed

answer_same :
    (stored : Option IdempotencyRow) (bot_id : ℕ) (tool key request_hash : String)
    (same : String → Bool) (work : Tx Rooms Outcome) (db : Rooms)
    → Fails (work db)
    → Ensures (λ _ s. s ≡ db) (answer stored bot_id tool key request_hash same work db)
unfolding answer after
answer_same (some r) bot_id tool key request_hash same work db f = answer_stored_same _ r db
answer_same none bot_id tool key request_hash same work db f =
    Ensures-after _ _ f λ out s w. absurd w

run_thread_action_same :
    (bot_id : ℕ) (tool key request_hash legacy_hash : String) (work : Tx Rooms Outcome) (db : Rooms)
    → Fails (work db)
    → Ensures
        (λ _ s. s ≡ db)
        (run_thread_action_compat bot_id tool key request_hash legacy_hash work db)
unfolding run_thread_action_compat require_active_account after
run_thread_action_same bot_id tool key request_hash legacy_hash work db f =
    Ensures-fail_if _ _ _ _ λ g. answer_same _ bot_id tool key request_hash _ work db f

module _ (id : ℕ) (t : ThreadRow) (db : Rooms) (shut : is_open_status t.status ≡ false) where
  module _ (code : String) (found : find_thread_by_code code db ≡ some (id, t)) where
    load_room_for_governor-Fails : (bot_id : ℕ) → Fails (load_room_for_governor code bot_id db)
    unfolding load_room_for_governor after
    load_room_for_governor-Fails bot_id = Ensures-or_fail _ _ _ _ λ (i, u) e.
        Ensures-or_fail _ _ _ _ λ me m.
          Ensures-fail_if _ _ _ _
            λ g. Ensures-fail_if _ _ _ _ λ o. holds (ground (arith, found, e, o, shut))

    load_open_room-Fails : (bot_id : ℕ) → Fails (load_open_room code bot_id db)
    unfolding load_open_room after
    load_open_room-Fails bot_id = active_first bot_id db _ (
        Ensures-or_fail _ _ _ _ λ (i, u) e.
          Ensures-or_fail _ _ _ _
            λ me m. Ensures-fail_if _ _ _ _ λ o. holds (ground (arith, found, e, o, shut)))

    unchanged :
        {A : Type 0} (r : Result (A × Rooms)) → Ensures (λ _ s. s ≡ db) r → committed db r ≡ db
    unchanged r k = committed_of (λ s. s ≡ db) db r refl k

    module _ (s : Setup) where
      -- Every call that speaks in a closed room or governs it leaves the whole database as it is.
      pub closed_room_is_silent : (r : Request) → Addresses code r → perform s r db ≡ db
      unfolding perform run_thread_action thread_issue_key thread_revoke_key thread_remove_member
          thread_set_role thread_close thread_post thread_handle thread_retract issue_key revoke_key
          close_room remove_member change_role governed_member_change post_entry handle_receipt
          retract_entry after
      closed_room_is_silent _ (to_issue {bot} {role} {idem} {body}) = unchanged _ (
          run_thread_action_same _ _ _ _ _ _ db (
            active_first bot db _
              (Ensures-after _ _ (load_room_for_governor-Fails bot) λ p d w. absurd w)))
      closed_room_is_silent _ (to_revoke {bot}) = unchanged _ (
          run_thread_action_same _ _ _ _ _ _ db (
            active_first bot db _
              (Ensures-after _ _ (load_room_for_governor-Fails bot) λ p d w. absurd w)))
      closed_room_is_silent _ (to_close {bot}) = unchanged _ (
          run_thread_action_same _ _ _ _ _ _ db (
            active_first bot db _
              (Ensures-after _ _ (load_room_for_governor-Fails bot) λ p d w. absurd w)))
      closed_room_is_silent _ (to_remove {bot} {member}) = unchanged _ (
          run_thread_action_same _ _ _ _ _ _ db (
            Ensures-after _ _
              (active_first bot db _
                (Ensures-after _ _ (load_room_for_governor-Fails bot) λ p d w. absurd w))
              λ p d w. absurd w))
      closed_room_is_silent _ (to_set_role {bot}) = unchanged _ (
          run_thread_action_same _ _ _ _ _ _ db (
            Ensures-after _ _
              (active_first bot db _
                (Ensures-after _ _ (load_room_for_governor-Fails bot) λ p d w. absurd w))
              λ p d w. absurd w))
      closed_room_is_silent _ (to_post {bot} {p} e) =
          let f : Fails (load_open_room p.thread_code bot db) = rw e (load_open_room-Fails bot) in
          unchanged _
            (run_thread_action_same _ _ _ _ _ _ db (Ensures-after _ _ f λ p d w. absurd w))
      closed_room_is_silent _ (to_handle {bot}) = unchanged _ (
          run_thread_action_same _ _ _ _ _ _ db
            (Ensures-after _ _ (load_open_room-Fails bot) λ p d w. absurd w))
      closed_room_is_silent _ (to_retract {bot}) = unchanged _ (
          run_thread_action_same _ _ _ _ _ _ db
            (Ensures-after _ _ (load_open_room-Fails bot) λ p d w. absurd w))
