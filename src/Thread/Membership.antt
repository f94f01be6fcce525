-- ===== src/Thread/Membership.antt =====
-- internal/service/thread_kernel.go: joining, leaving, the governance of members, and the close.
use kungfu.Base.{
  ℕ, String, ◌+◌, Bool, true, false, ◌&&◌, not, Option, none, some, [], ◌∷◌, leb, if◌then◌else◌,
  lookup,
}
use kungfu.Tx.{
  Tx, ◌>>=◌, ◌>>◌, pure, fail_if, or_fail, mask, internal_error, thread_not_found, not_member,
  thread_closed, key_invalid, room_limit, member_limit, last_manager, invalid_target,
}
use kungfu.Thread.{
  Rooms, ThreadRow, ThreadKey, ThreadRole, governor, speaker, observer, MemberRow, is_open_status,
  is_governor, same_role, Facts, text, number, flag, by_leave, by_remove, by_role_change, by_close,
}
use kungfu.Thread.Store.{
  get_rooms, find_thread_by_code, find_open_thread_by_key_hash, has_hash, close_thread_by_id,
  find_thread_member, insert_thread_member, delete_thread_member, set_thread_member_role,
  count_thread_members, count_thread_governors, count_open_memberships,
}
use kungfu.Thread.Replay.{Encoding, Outcome, require_active_account, run_thread_action}
use kungfu.Thread.Obligations.{
  withdraw_thread_receipts_by_member, withdraw_all_thread_receipts,
  void_undelivered_assigns_for_member, void_undelivered_assigns, forfeit_judgments_for_creator,
}
use Prim.Native.String.{◌++◌ as ◌+++◌}
use kungfu.Thread.Kernel.{
  role_text, thread_view, thread_next_actions, governor_next_after, load_room_for_governor,
  thread_max_members, thread_max_open_rooms_per_account, thread_request,
}

module _ (enc : Encoding) where
  open enc use {sha256_hex, quoted, decimal}

  unfoldable pub admitted : ℕ → ThreadRow → MemberRow → ℕ → Tx Rooms Outcome
  admitted id t m members = do
    db ← get_rooms
    pure (record {
      facts =
          ("thread", text t.code)
          ∷ ("role", text (role_text m.role))
          ∷ ("joined_at", number m.joined_at)
          ∷ [];
      first_only = [];
      view = thread_view (thread_next_actions t m.role members (count_thread_governors id db));
    })

  -- a new membership, in the role of the key
  unfoldable pub admit : ℕ → ℕ → ThreadRow → ThreadKey → Tx Rooms Outcome
  admit bot_id id t key = do
    db ← get_rooms
    fail_if (leb thread_max_members (count_thread_members id db)) member_limit
    fail_if (leb thread_max_open_rooms_per_account (count_open_memberships bot_id db)) room_limit
    mask internal_error (insert_thread_member id bot_id key.key_role (some key.key_hash))
    after ← get_rooms
    me ← or_fail (find_thread_member id bot_id after) internal_error
    admitted id t me (count_thread_members id db + 1)

  unfoldable pub join_as : Option MemberRow → ℕ → ℕ → ThreadRow → ThreadKey → Tx Rooms Outcome
  join_as none bot_id id t key = admit bot_id id t key
  join_as (some me) bot_id id t key = do
    db ← get_rooms
    admitted id t me (count_thread_members id db)

  abbrev live_key : String → ThreadRow → Option ThreadKey
  live_key hash t = if has_hash hash t.key && is_open_status t.status then t.key else none

  unfoldable pub join_room : ℕ → String → Tx Rooms Outcome
  join_room bot_id raw = do
    require_active_account bot_id
    db ← get_rooms
    (id, _) ← or_fail (find_open_thread_by_key_hash (sha256_hex raw) db) key_invalid
    t ← or_fail (lookup id db.threads) key_invalid
    key ← or_fail (live_key (sha256_hex raw) t) key_invalid
    join_as (find_thread_member id bot_id db) bot_id id t key

  -- `ThreadJoin`
  unfoldable pub thread_join : ℕ → String → String → Tx Rooms Facts
  thread_join bot_id raw idem_key =
      run_thread_action bot_id "thread_join" idem_key
        (sha256_hex ("{\"key\":" +++ (quoted raw +++ "}"))) (join_room bot_id raw)

  -- What ends with a membership: undelivered assignments of both sides, the right to judge, and the
  -- pending receipts.
  unfoldable pub leave_room : ℕ → String → Tx Rooms Outcome
  leave_room bot_id code = do
    require_active_account bot_id
    db ← get_rooms
    (id, t) ← or_fail (find_thread_by_code code db) thread_not_found
    me ← or_fail (find_thread_member id bot_id db) not_member
    fail_if
        (is_open_status t.status && (is_governor me.role && leb (count_thread_governors id db) 1))
        last_manager
    voided ← mask internal_error (void_undelivered_assigns_for_member id bot_id)
    mask internal_error (forfeit_judgments_for_creator id bot_id)
    collected ← mask internal_error (withdraw_thread_receipts_by_member id bot_id by_leave)
    _ ← mask internal_error (delete_thread_member id bot_id)
    pure (record {
      facts =
          ("thread", text t.code)
          ∷ ("left", flag true)
          ∷ ("receipts_collected", number collected)
          ∷ ("assigns_voided", number voided)
          ∷ [];
      first_only = [];
      view = thread_view [];
    })

  -- `ThreadLeave`
  unfoldable pub thread_leave : ℕ → String → String → Tx Rooms Facts
  thread_leave bot_id code idem_key =
      run_thread_action bot_id "thread_leave" idem_key (thread_request enc code)
        (leave_room bot_id code)

  abbrev holds_role : Option ThreadRole → MemberRow → Bool
  holds_role none m = false
  holds_role (some role) m = same_role m.role role

  abbrev pub stays_governor : Option ThreadRole → Bool
  stays_governor none = false
  stays_governor (some role) = is_governor role

  -- `threadGovernedMemberChange`; no new role is a removal
  unfoldable pub governed_member_change :
      String → ℕ → ℕ → Option ThreadRole → Tx Rooms (ℕ × ThreadRow)
  governed_member_change code bot_id member new_role = do
    require_active_account bot_id
    (id, t) ← load_room_for_governor code bot_id
    db ← get_rooms
    target ← or_fail (find_thread_member id member db) invalid_target
    fail_if (holds_role new_role target) invalid_target
    fail_if
        (is_governor target.role
          && (not (stays_governor new_role) && leb (count_thread_governors id db) 1))
        last_manager
    pure (id, t)

  unfoldable pub remove_member : ℕ → String → ℕ → Tx Rooms Outcome
  remove_member bot_id code member = do
    (id, t) ← governed_member_change code bot_id member none
    voided ← mask internal_error (void_undelivered_assigns_for_member id member)
    mask internal_error (forfeit_judgments_for_creator id member)
    collected ← mask internal_error (withdraw_thread_receipts_by_member id member by_remove)
    _ ← mask internal_error (delete_thread_member id member)
    db ← get_rooms
    pure (record {
      facts =
          ("thread", text t.code)
          ∷ ("member", number member)
          ∷ ("removed", flag true)
          ∷ ("receipts_collected", number collected)
          ∷ ("assigns_voided", number voided)
          ∷ [];
      first_only = [];
      view = thread_view (governor_next_after id t db);
    })

  -- `ThreadRemoveMember`
  unfoldable pub thread_remove_member : ℕ → String → ℕ → String → Tx Rooms Facts
  thread_remove_member bot_id code member idem_key =
      run_thread_action bot_id "thread_remove" idem_key
        (sha256_hex
          ("{\"member\":" +++ (decimal member +++ (",\"thread\":" +++ (quoted code +++ "}")))))
        (remove_member bot_id code member)

  -- a demotion to observer ends the speech, and with it the pending receipts
  abbrev pub collect_on_demotion : ThreadRole → ℕ → ℕ → Tx Rooms ℕ
  collect_on_demotion observer id member =
      mask internal_error (withdraw_thread_receipts_by_member id member by_role_change)
  collect_on_demotion governor id member = pure 0
  collect_on_demotion speaker id member = pure 0

  unfoldable pub change_role : ℕ → String → ℕ → ThreadRole → Tx Rooms Outcome
  change_role bot_id code member role = do
    (id, t) ← governed_member_change code bot_id member (some role)
    collected ← collect_on_demotion role id member
    mask internal_error (set_thread_member_role id member role)
    db ← get_rooms
    pure (record {
      facts =
          ("thread", text t.code)
          ∷ ("member", number member)
          ∷ ("role", text (role_text role))
          ∷ ("receipts_collected", number collected)
          ∷ [];
      first_only = [];
      view = thread_view (governor_next_after id t db);
    })

  -- `ThreadSetRole`
  unfoldable pub thread_set_role : ℕ → String → ℕ → ThreadRole → String → Tx Rooms Facts
  thread_set_role bot_id code member role idem_key =
      run_thread_action bot_id "thread_set_role" idem_key
        (sha256_hex (
          "{\"member\":"
          +++ (decimal member
              +++ (",\"role\":"
                  +++ (quoted (role_text role) +++ (",\"thread\":" +++ (quoted code +++ "}")))))))
        (change_role bot_id code member role)

  unfoldable pub close_room : ℕ → String → Tx Rooms Outcome
  close_room bot_id code = do
    require_active_account bot_id
    (id, t) ← load_room_for_governor code bot_id
    voided ← mask internal_error (void_undelivered_assigns id)
    collected ← mask internal_error (withdraw_all_thread_receipts id by_close)
    done ← mask internal_error (close_thread_by_id id)
    fail_if (not done) thread_closed
    pure (record {
      facts =
          ("thread", text t.code)
          ∷ ("status", text "closed")
          ∷ ("receipts_collected", number collected)
          ∷ ("assigns_voided", number voided)
          ∷ [];
      first_only = [];
      view = thread_view ("thread_leave" ∷ []);
    })

  -- `ThreadClose`
  unfoldable pub thread_close : ℕ → String → String → Tx Rooms Facts
  thread_close bot_id code idem_key =
      run_thread_action bot_id "thread_close" idem_key (thread_request enc code)
        (close_room bot_id code)
