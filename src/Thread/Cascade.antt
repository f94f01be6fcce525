-- ===== src/Thread/Cascade.antt =====
-- internal/repository/thread.go: the end of an account's memberships when it is disabled, and the
-- sweep of deadlines that have passed.
use kungfu.Base.{
  ℕ, String, ◌+◌, Bool, true, false, ◌&&◌, not, List, [], ◌∷◌, ◌==◌, if◌then◌else◌, Table, lookup,
  put, count, delete, is_some, take,
}
use kungfu.Tables.{Time}
use kungfu.Tx.{Tx, ◌>>=◌, ◌>>◌, pure, or_fail, modify, no_rows}
use kungfu.Thread.{
  Rooms, AccountRow, ThreadRow, MemberRow, ReceiptRow, AssignRow, NotifyRow, AssignState,
  assign_taken, assign_delivered, assign_timed_out, assign_undecided, by_remove, is_open_status,
  notify_exit,
}
use kungfu.Thread.Store.{get_rooms, closed, governs}
use kungfu.Thread.Obligations.{
  is_undelivered, is_party, void_assigns, withdraw_receipts, forfeit_judgments_for_creator,
  enqueue_notify,
}
use kungfu.Thread.Assignments.{is_in, judge_due, past, set_assignment_state}

unfoldable pub governs_as : ℕ → ℕ → MemberRow → Bool
governs_as thread_id bot_id m = governs thread_id m && m.account_id == bot_id

unfoldable pub governs_beside : ℕ → ℕ → MemberRow → Bool
governs_beside thread_id bot_id m = governs thread_id m && not (m.account_id == bot_id)

-- open, governed by the account, and by no other
unfoldable pub loses_governance : ℕ → List MemberRow → ℕ → ThreadRow → Bool
loses_governance bot_id members id t =
    is_open_status t.status
    && (not (count (governs_as id bot_id) members == 0)
        && count (governs_beside id bot_id) members == 0)

unfoldable pub close_orphans : ℕ → List MemberRow → Time → Table ThreadRow → Table ThreadRow
close_orphans bot_id members now [] = []
close_orphans bot_id members now ((id, t) ∷ rest) =
    (id, if loses_governance bot_id members id t then closed t now else t)
    ∷ close_orphans bot_id members now rest

unfoldable pub orphan_codes : ℕ → List MemberRow → Table ThreadRow → List String
orphan_codes bot_id members [] = []
orphan_codes bot_id members ((id, t) ∷ rest) =
    let codes = orphan_codes bot_id members rest in
    if loses_governance bot_id members id t then t.code ∷ codes else codes

unfoldable pub owed_by : ℕ → ReceiptRow → Bool
owed_by bot_id r = r.account_id == bot_id

abbrev drop_unsent : ℕ → Table NotifyRow → Table NotifyRow
drop_unsent bot_id rows =
    delete (λ (p : ℕ × NotifyRow). p.1.account_id == bot_id && not (is_some p.1.sent_at)) rows

unfoldable pub undelivered_with : ℕ → AssignRow → Bool
undelivered_with bot_id a = is_undelivered a.state && is_party bot_id a

unfoldable pub is_account : ℕ → MemberRow → Bool
is_account bot_id m = m.account_id == bot_id

-- `TerminateAccountThreadMemberships`
unfoldable pub terminate_account_thread_memberships : ℕ → Tx Rooms (List String)
terminate_account_thread_memberships bot_id = do
  db ← get_rooms
  modify (λ (d : Rooms). record d { threads = close_orphans bot_id d.members d.now d.threads })
  _ ← withdraw_receipts (owed_by bot_id) by_remove
  modify (λ (d : Rooms). record d { outbox = drop_unsent bot_id d.outbox })
  _ ← void_assigns (undelivered_with bot_id)
  forfeit_judgments_for_creator 0 bot_id
  modify (λ (d : Rooms). record d { members = delete (is_account bot_id) d.members })
  pure (orphan_codes bot_id db.members db.threads)

abbrev with_status : Bool → AccountRow → AccountRow
with_status enabled a = record a { is_enabled = enabled }

-- `AdminSetBotStatus`: to disabled, or to another status
unfoldable pub admin_set_bot_status : ℕ → Bool → Tx Rooms (Unit {0})
admin_set_bot_status bot_id enabled = do
  db ← get_rooms
  a ← or_fail (lookup bot_id db.accounts) no_rows
  modify (λ (d : Rooms). record d { accounts = put bot_id (with_status enabled a) d.accounts })
  elim enabled [
    | true ↦ pure tt
    | false ↦ do _ ← terminate_account_thread_memberships bot_id; pure tt
  ]

unfoldable pub timed_out : Rooms → ℕ × AssignRow → Bool
timed_out db (id, a) = is_in assign_taken a && past a.deliver_due_at db.now

unfoldable pub unjudged : Rooms → ℕ × AssignRow → Bool
unjudged db (id, a) = is_in assign_delivered a && past (judge_due (lookup id db.deliveries)) db.now

unfoldable pub select_assigns : (ℕ × AssignRow → Bool) → Table AssignRow → Table AssignRow
select_assigns p [] = []
select_assigns p (r ∷ rows) = let rest = select_assigns p rows in if p r then r ∷ rest else rest

-- the rows that an UPDATE … RETURNING gives: each moves, and both parties are told
unfoldable pub settle_expired : AssignState → AssignState → Table AssignRow → Tx Rooms ℕ
settle_expired from to [] = pure 0
settle_expired from to ((id, a) ∷ rows) = do
  _ ← set_assignment_state id from to
  enqueue_notify a.assignee_id notify_exit 1
  enqueue_notify a.creator_id notify_exit 1
  n ← settle_expired from to rows
  pure (n + 1)

-- `RecoverAssigns`: at most `batch` rows of each kind, on the database's clock
unfoldable pub recover_assigns : ℕ → Tx Rooms ℕ
recover_assigns batch = do
  db ← get_rooms
  n ←
      settle_expired assign_taken assign_timed_out
        (take batch (select_assigns (timed_out db) db.assigns))
  db' ← get_rooms
  m ←
      settle_expired assign_delivered assign_undecided
        (take batch (select_assigns (unjudged db') db'.assigns))
  pure (n + m)
