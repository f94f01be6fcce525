-- ===== src/Thread/Laws.antt =====
-- What an invariant of the rooms must allow so that speaking and the work on assignments keep it:
-- one law for each kind of write that those operations make.
use kungfu.Base.{
  ℕ, ◌≡◌, Bool, true, false, Option, none, some, List, ◌∷◌, Table, lookup, put, fresh, find, update,
  String,
}
use kungfu.Tx.{Result, Ensures}
use kungfu.Thread.{
  Rooms, MemberRow, AccountRow, ThreadRow, EntryRow, ReceiptRow, AssignRow, AssignState,
  assign_open, assign_taken, assign_delivered, assign_adopted, assign_rejected, assign_undecided,
  DeliveryRow, NotifyRow, IdempotencyRow, MemoRow, is_pending,
}
use kungfu.Thread.Obligations.{owed_on, is_owed, of_assign, to_assign, same_assign_state}
use kungfu.Thread.Entries.{advanced}

-- every success leaves the database with the property
abbrev pub Keeps : (Rooms → Type 0) → {A : Type 0} → Result (A × Rooms) → Type 0
Keeps I r = Ensures (λ _ s. I s) r

-- what is fixed when an assignment is created
pub record AssignTerms : Type 0 where
  pub thread_id : ℕ
  pub entry_id : ℕ
  pub creator_id : ℕ
  pub assignee_id : ℕ
  pub requirements : String
  pub output_schema : Option String
  pub deliver_due_s : ℕ
  pub judge_due_s : ℕ

abbrev pub terms_of : AssignRow → AssignTerms
terms_of a = record {
  thread_id = a.thread_id;
  entry_id = a.entry_id;
  creator_id = a.creator_id;
  assignee_id = a.assignee_id;
  requirements = a.requirements;
  output_schema = a.output_schema;
  deliver_due_s = a.deliver_due_s;
  judge_due_s = a.judge_due_s;
}

-- The lifecycle: open → taken → delivered → adopted | rejected | undecided, with the exits dropped,
-- timed_out and voided; a state leads to those that come after it.
unfoldable pub leads : AssignState → AssignState → Bool
leads assign_open _ = true
leads assign_taken assign_open = false
leads assign_taken _ = true
leads assign_delivered assign_delivered = true
leads assign_delivered assign_adopted = true
leads assign_delivered assign_rejected = true
leads assign_delivered assign_undecided = true
leads assign_delivered _ = false
leads s s' = same_assign_state s s'

abbrev pub IsFollowedBy : AssignRow → AssignRow → Type 0
IsFollowedBy a b = (leads a.state b.state ≡ true) × (terms_of b ≡ terms_of a)

-- a receipt that ends stays that of its member and entry
abbrev pub IsEndedAs : ReceiptRow → ReceiptRow → Type 0
IsEndedAs r q =
    (is_pending q.state ≡ false)
    × (q.thread_id ≡ r.thread_id)
    × (q.entry_id ≡ r.entry_id)
    × (q.account_id ≡ r.account_id)

pub record Laws (I : Rooms → Type 0) : Type 0 where
  pub requests :
      (db : Rooms) (rows : List IdempotencyRow) → I db → I (record db { idempotency = rows })
  pub queue : (db : Rooms) (rows : Table NotifyRow) → I db → I (record db { outbox = rows })
  pub stores : (db : Rooms) (rows : Table MemoRow) → I db → I (record db { memories = rows })
  pub writes : (db : Rooms) (rows : Table EntryRow) → I db → I (record db { entries = rows })
  pub delivers :
      (db : Rooms) (rows : Table DeliveryRow) → I db → I (record db { deliveries = rows })
  pub waits : (db : Rooms) (now : ℕ) → I db → I (record db { now = now })
  pub advances :
      (db : Rooms) (id : ℕ) (t : ThreadRow)
      → lookup id db.threads ≡ some t
      → I db
      → I (record db { threads = put id (advanced t db.now) db.threads })
  pub asks :
      (db : Rooms) (r : ReceiptRow)
      → find (owed_on r.entry_id r.account_id) db.receipts ≡ none
      → I db
      → I (record db { receipts = r ∷ db.receipts })
  pub ends :
      (db : Rooms) (p : ReceiptRow → Bool) (f : ReceiptRow → ReceiptRow)
      → ((r : ReceiptRow) → IsEndedAs r (f r))
      → I db
      → I (record db { receipts = update (is_owed p) f db.receipts })
  pub offers :
      (db : Rooms) (a : AssignRow)
      → I db
      → I (record db { assigns = (fresh db.assigns, a) ∷ db.assigns })
  pub moves :
      (db : Rooms) (id : ℕ) (a b : AssignRow)
      → lookup id db.assigns ≡ some a
      → IsFollowedBy a b
      → I db
      → I (record db { assigns = put id b db.assigns })

-- An invariant that does not look at rooms, memberships and accounts, and allows what ends with a
-- membership or a room.
pub record FreeLaws (I : Rooms → Type 0) : Type 0 where
  pub laws : Laws I
  pub open laws use *
  pub rooms :
      (db : Rooms) (threads : Table ThreadRow) (members : List MemberRow)
      → I db
      → I (record db { threads = threads; members = members })
  pub enables : (db : Rooms) (rows : Table AccountRow) → I db → I (record db { accounts = rows })
  pub revises :
      (db : Rooms) (p : AssignRow → Bool) (f : AssignRow → AssignRow)
      → ((a : AssignRow) → p a ≡ true → IsFollowedBy a (f a))
      → I db
      → I (record db { assigns = update (of_assign p) (to_assign f) db.assigns })
