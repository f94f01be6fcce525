-- ===== src/Thread/Obligations.antt =====
-- internal/repository/thread.go: the receipts that members owe, the closing of assignments when a
-- membership or a room ends, and the queue of notifications.
use kungfu.Base.{
  ℕ, String, Bool, true, false, ◌&&◌, ◌||◌, not, Option, none, some, ◌∷◌, ◌==◌, fresh, count, find,
  update, is_some,
}
use kungfu.Tx.{Tx, ◌>>=◌, ◌>>◌, pure, fail_if, modify, unique_violation}
use kungfu.Tables.{Time}
use kungfu.Thread.{
  Rooms, ReceiptRow, pending, fulfilled, withdrawn, Resolution, is_pending, AssignRow, AssignState,
  assign_open, assign_taken, assign_delivered, assign_voided, assign_adopted, assign_rejected,
  assign_undecided, assign_dropped, assign_timed_out, NotifyKind,
}
use kungfu.Thread.Store.{get_rooms}

unfoldable pub owed_on : ℕ → ℕ → ReceiptRow → Bool
owed_on entry_id account_id r = r.entry_id == entry_id && r.account_id == account_id

abbrev pub pending_row : ℕ → ℕ → ℕ → Time → ReceiptRow
pending_row thread_id entry_id account_id now = record {
  thread_id = thread_id;
  entry_id = entry_id;
  account_id = account_id;
  state = pending;
  resolution = none;
  note = none;
  resolved_at = none;
  created_at = now;
}

-- UNIQUE (entry_id, account_id)
unfoldable pub insert_thread_receipt : ℕ → ℕ → ℕ → Tx Rooms (Unit {0})
insert_thread_receipt thread_id entry_id account_id = do
  db ← get_rooms
  fail_if (is_some (find (owed_on entry_id account_id) db.receipts)) unique_violation
  modify (λ (d : Rooms). record d {
    receipts = pending_row thread_id entry_id account_id d.now ∷ d.receipts;
  })

unfoldable pub is_owed : (ReceiptRow → Bool) → ReceiptRow → Bool
is_owed p r = p r && is_pending r.state

unfoldable pub fulfilled_by : Resolution → Option String → Time → ReceiptRow → ReceiptRow
fulfilled_by resolution note now r = record r {
  state = fulfilled;
  resolution = some resolution;
  note = note;
  resolved_at = some now;
}

unfoldable pub withdrawn_by : Resolution → Time → ReceiptRow → ReceiptRow
withdrawn_by resolution now r = record r {
  state = withdrawn;
  resolution = some resolution;
  resolved_at = some now;
}

-- `FulfillThreadReceipt`: only a pending row moves.
unfoldable pub fulfill_thread_receipt : ℕ → ℕ → Resolution → Option String → Tx Rooms Bool
fulfill_thread_receipt entry_id account_id resolution note = do
  db ← get_rooms
  modify (λ (d : Rooms). record d {
    receipts =
        update (is_owed (owed_on entry_id account_id)) (fulfilled_by resolution note d.now)
          d.receipts;
  })
  pure (count (is_owed (owed_on entry_id account_id)) db.receipts == 1)

-- the number of pending rows that a withdrawal moves
unfoldable pub withdraw_receipts : (ReceiptRow → Bool) → Resolution → Tx Rooms ℕ
withdraw_receipts p resolution = do
  db ← get_rooms
  modify (λ (d : Rooms). record d {
    receipts = update (is_owed p) (withdrawn_by resolution d.now) d.receipts;
  })
  pure (count (is_owed p) db.receipts)

unfoldable pub of_entry : ℕ → ReceiptRow → Bool
of_entry entry_id r = r.entry_id == entry_id

unfoldable pub of_member : ℕ → ℕ → ReceiptRow → Bool
of_member thread_id account_id r = r.thread_id == thread_id && r.account_id == account_id

unfoldable pub of_thread : ℕ → ReceiptRow → Bool
of_thread thread_id r = r.thread_id == thread_id

unfoldable pub withdraw_thread_receipts_by_entry : ℕ → Resolution → Tx Rooms ℕ
withdraw_thread_receipts_by_entry entry_id resolution =
    withdraw_receipts (of_entry entry_id) resolution

unfoldable pub withdraw_thread_receipts_by_member : ℕ → ℕ → Resolution → Tx Rooms ℕ
withdraw_thread_receipts_by_member thread_id account_id resolution =
    withdraw_receipts (of_member thread_id account_id) resolution

unfoldable pub withdraw_all_thread_receipts : ℕ → Resolution → Tx Rooms ℕ
withdraw_all_thread_receipts thread_id resolution =
    withdraw_receipts (of_thread thread_id) resolution

-- state IN ('open', 'taken')
unfoldable pub is_undelivered : AssignState → Bool
is_undelivered assign_open = true
is_undelivered assign_taken = true
is_undelivered _ = false

unfoldable pub same_assign_state : AssignState → AssignState → Bool
same_assign_state assign_open assign_open = true
same_assign_state assign_taken assign_taken = true
same_assign_state assign_delivered assign_delivered = true
same_assign_state assign_adopted assign_adopted = true
same_assign_state assign_rejected assign_rejected = true
same_assign_state assign_undecided assign_undecided = true
same_assign_state assign_dropped assign_dropped = true
same_assign_state assign_timed_out assign_timed_out = true
same_assign_state assign_voided assign_voided = true
same_assign_state _ _ = false

abbrev pub of_assign : (AssignRow → Bool) → ℕ × AssignRow → Bool
of_assign p (id, a) = p a

abbrev pub to_assign : (AssignRow → AssignRow) → ℕ × AssignRow → ℕ × AssignRow
to_assign f (id, a) = (id, f a)

unfoldable pub ended : AssignState → Time → AssignRow → AssignRow
ended to now a = record a { state = to; closed_at = some now }

unfoldable pub void_assigns : (AssignRow → Bool) → Tx Rooms ℕ
void_assigns p = do
  db ← get_rooms
  modify (λ (d : Rooms). record d {
    assigns = update (of_assign p) (to_assign (ended assign_voided d.now)) d.assigns;
  })
  pure (count (of_assign p) db.assigns)

unfoldable pub is_party : ℕ → AssignRow → Bool
is_party account_id a = a.assignee_id == account_id || a.creator_id == account_id

unfoldable pub undelivered_in : ℕ → AssignRow → Bool
undelivered_in thread_id a = a.thread_id == thread_id && is_undelivered a.state

unfoldable pub undelivered_of : ℕ → ℕ → AssignRow → Bool
undelivered_of thread_id account_id a = undelivered_in thread_id a && is_party account_id a

-- The number of rows that `VoidUndeliveredAssignsForMember` returns.
unfoldable pub void_undelivered_assigns_for_member : ℕ → ℕ → Tx Rooms ℕ
void_undelivered_assigns_for_member thread_id account_id =
    void_assigns (undelivered_of thread_id account_id)

unfoldable pub void_undelivered_assigns : ℕ → Tx Rooms ℕ
void_undelivered_assigns thread_id = void_assigns (undelivered_in thread_id)

unfoldable pub awaits_judgment_of : ℕ → ℕ → AssignRow → Bool
awaits_judgment_of thread_id account_id a =
    a.creator_id == account_id
    && (same_assign_state a.state assign_delivered
        && (not (is_some a.judge_forfeited_at) && (thread_id == 0 || a.thread_id == thread_id)))

unfoldable pub forfeited : Time → AssignRow → AssignRow
forfeited now a = record a { judge_forfeited_at = some now }

-- `ForfeitJudgmentsForCreator`: the thread 0 is every thread.
unfoldable pub forfeit_judgments_for_creator : ℕ → ℕ → Tx Rooms (Unit {0})
forfeit_judgments_for_creator thread_id account_id = modify (λ (d : Rooms). record d {
  assigns =
      update (of_assign (awaits_judgment_of thread_id account_id)) (to_assign (forfeited d.now))
        d.assigns;
})

-- `enqueueNotify`, which fails no action, over `InsertNotifyOutbox`
unfoldable pub enqueue_notify : ℕ → NotifyKind → ℕ → Tx Rooms (Unit {0})
enqueue_notify account_id kind n = modify (λ (d : Rooms). record d {
  outbox =
      (
        fresh d.outbox,
        record { account_id = account_id; kind = kind; count = n; sent_at = none; attempts = 0 },
      )
      ∷ d.outbox;
})
