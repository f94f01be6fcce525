-- ===== src/Thread.antt =====
-- The rows of the tables that the threads read and write (internal/model/thread.go, the migrations
-- 024 to 030), and the values of an answer. A JSON column holds the decoded value.
pub mod Store
pub mod Replay
pub mod Obligations
pub mod Kernel
pub mod Membership
pub mod Entries
pub mod Speech
pub mod Requests
pub mod Assignments
pub mod Assign
pub mod Cascade
pub mod Governed
pub mod Laws
pub mod Lifecycle
pub mod Founding
pub mod Writes
pub mod Governance
pub mod Quiet
pub mod Work
pub mod Kept
pub mod Free
pub mod Leaving
pub mod Progress
pub mod Seam
pub mod Repeats
pub mod Closing
pub mod Asked
pub mod Silence
pub mod System
pub mod Timeline
use kungfu.Base.{ℕ, String, Bool, true, false, Option, List, Table}
use kungfu.Tables.{Time}

pub data ThreadStatus : Type 0 where
  status_open status_closed : ThreadStatus

pub data ThreadRole : Type 0 where
  governor speaker observer : ThreadRole

-- The key group: the CHECK ck_threads_key_group sets all three columns or none.
pub record ThreadKey : Type 0 where
  pub key_hash : String
  pub key_role : ThreadRole
  pub key_issued_at : Time

pub record ThreadRow : Type 0 where
  pub code : String
  pub subject : Option String
  pub status : ThreadStatus
  pub key : Option ThreadKey
  pub next_seq : ℕ
  pub created_at : Time
  pub closed_at : Option Time

pub record MemberRow : Type 0 where
  pub thread_id : ℕ
  pub account_id : ℕ
  pub role : ThreadRole
  pub joined_via_key_hash : Option String
  pub joined_at : Time

pub record EntryRow : Type 0 where
  pub thread_id : ℕ
  pub seq : ℕ
  pub author_id : ℕ
  pub memory_id : ℕ
  pub memory_revision : ℕ
  pub reply_to : Option ℕ
  pub asked : List ℕ
  pub summary : String
  pub assign_id : Option ℕ
  pub created_at : Time

pub data ReceiptState : Type 0 where
  pending fulfilled withdrawn : ReceiptState

pub data Resolution : Type 0 where
  by_reply by_handle by_take by_retract by_leave by_remove by_role_change by_close : Resolution

pub record ReceiptRow : Type 0 where
  pub thread_id : ℕ
  pub entry_id : ℕ
  pub account_id : ℕ
  pub state : ReceiptState
  pub resolution : Option Resolution
  pub note : Option String
  pub resolved_at : Option Time
  pub created_at : Time

pub data AssignState : Type 0 where
  assign_open assign_taken assign_delivered : AssignState
  assign_adopted assign_rejected assign_undecided : AssignState
  assign_dropped assign_timed_out assign_voided : AssignState

pub record AssignRow : Type 0 where
  pub thread_id : ℕ
  pub entry_id : ℕ
  pub creator_id : ℕ
  pub assignee_id : ℕ
  pub requirements : String
  pub output_schema : Option String
  pub deliver_due_s : ℕ
  pub judge_due_s : ℕ
  pub state : AssignState
  pub taken_at : Option Time
  pub deliver_due_at : Option Time
  pub created_at : Time
  pub closed_at : Option Time
  pub judge_forfeited_at : Option Time

pub data Verdict : Type 0 where
  adopt reject : Verdict

pub record BoundMemory : Type 0 where
  pub name : String
  pub code : String
  pub revision : ℕ
  pub checksum : String

pub record DeliveryRow : Type 0 where
  pub payload : Option String
  pub memories : List BoundMemory
  pub submitted_at : Time
  pub judge_due_at : Time
  pub judged_at : Option Time
  pub verdict : Option Verdict
  pub reason : Option String

pub data NotifyKind : Type 0 where
  notify_reply notify_judge notify_verdict notify_exit notify_assign : NotifyKind

pub record NotifyRow : Type 0 where
  pub account_id : ℕ
  pub kind : NotifyKind
  pub count : ℕ
  pub sent_at : Option Time
  pub attempts : ℕ

-- `map[string]any`: the value of one field of an answer
pub data Fact : Type 0 where
  text : String → Fact
  number : ℕ → Fact
  flag : Bool → Fact
  numbers : List ℕ → Fact
  texts : List String → Fact

abbrev pub Facts : Type 0
Facts = List (String × Fact)

pub record IdempotencyRow : Type 0 where
  pub account_id : ℕ
  pub tool : String
  pub key : String
  pub request_hash : String
  pub result_snapshot : Facts
  pub created_at : Time

-- tb_bots and tb_kungfus, as far as the threads read them
pub record AccountRow : Type 0 where
  pub bot_name : String
  pub is_enabled : Bool

pub record MemoRow : Type 0 where
  pub code : String
  pub bot_id : ℕ
  pub description : String
  pub content : String
  pub checksum : String
  pub is_public : Bool
  pub is_live : Bool
  pub revision : ℕ

-- `now` is what NOW() gives in the running transaction. Lists have the newest row first.
pub record Rooms : Type 0 where
  pub now : Time
  pub accounts : Table AccountRow
  pub threads : Table ThreadRow
  pub members : List MemberRow
  pub entries : Table EntryRow
  pub receipts : List ReceiptRow
  pub assigns : Table AssignRow
  pub deliveries : Table DeliveryRow
  pub outbox : Table NotifyRow
  pub idempotency : List IdempotencyRow
  pub memories : Table MemoRow

unfoldable pub is_open_status : ThreadStatus → Bool
is_open_status status_open = true
is_open_status status_closed = false

unfoldable pub is_governor : ThreadRole → Bool
is_governor governor = true
is_governor speaker = false
is_governor observer = false

-- `speechRight`
unfoldable pub speech_right : ThreadRole → Bool
speech_right governor = true
speech_right speaker = true
speech_right observer = false

unfoldable pub same_role : ThreadRole → ThreadRole → Bool
same_role governor governor = true
same_role speaker speaker = true
same_role observer observer = true
same_role _ _ = false

unfoldable pub is_pending : ReceiptState → Bool
is_pending pending = true
is_pending fulfilled = false
is_pending withdrawn = false
