-- ===== src/Tables.antt =====
-- The rows of the tables that the task economy reads and writes. A contract column holds JSON in
-- the database, and here the decoded contract.
use kungfu.Base.{ℕ, String, Bool, Option, List, ℤ, Table}
use kungfu.Task.{TaskStatus, ClaimStatus, SubmissionState, SubmissionEvent, Contract}

abbrev pub Time : Type 0
Time = ℕ

-- The counters carry CHECK (… >= 0).
pub record TaskRow : Type 0 where
  pub code : String
  pub publisher_id : ℕ
  pub status : TaskStatus
  pub budget_locked : ℕ
  pub settled : ℕ
  pub reserved : ℕ
  pub refunded : ℕ
  pub paused_reason : Option String
  pub closed_reason : Option String
  pub contract : Contract
  pub contract_version : ℕ
  pub created_at : Time
  pub updated_at : Time

pub record VersionRow : Type 0 where
  pub version_task_id : ℕ
  pub version : ℕ
  pub version_contract : Contract

-- `amount` carries CHECK (amount > 0).
pub record ClaimRow : Type 0 where
  pub task_id : ℕ
  pub agent_id : ℕ
  pub contract_version : ℕ
  pub expires_at : Time
  pub deadline : Time
  pub amount : ℕ
  pub status : ClaimStatus
  pub created_at : Time
  pub updated_at : Time

pub record HarnessPin : Type 0 where
  pub memory_id : ℕ
  pub revision : ℕ

pub data FailureReason : Type 0 where
  receiver_unreachable receiver_fault receiver_protocol delivery_unresolved : FailureReason

pub record SubmissionRow : Type 0 where
  pub task_id : ℕ
  pub agent_id : ℕ
  pub request_key : String
  pub payload : Option (List ℕ)
  pub payload_hash : String
  pub amount : ℕ
  pub state : SubmissionState
  pub response_code : Option ℕ
  pub response_body : Option (List ℕ)
  pub failure : Option FailureReason
  pub revises : Option ℕ
  pub claim_id : Option ℕ
  pub contract_version : ℕ
  pub harness : Option (List (String × ℕ))
  pub created_at : Time
  pub updated_at : Time
  pub settled_at : Option Time

pub record SubmissionEventRow : Type 0 where
  pub submission_id : ℕ
  pub seq : ℕ
  pub from_state : Option SubmissionState
  pub to_state : SubmissionState
  pub cause : SubmissionEvent
  pub at : Time

pub record BotRow : Type 0 where
  pub name : String
  pub balance : ℤ
  pub updated_at : Time

pub data LedgerType : Type 0 where
  lock_task fund_task earn_task refund_task : LedgerType
  other_type : String → LedgerType

pub data Ref : Type 0 where
  ref_task ref_submission : ℕ → Ref
  other_ref : String → String → Ref

pub record TransactionRow : Type 0 where
  pub bot_id : ℕ
  pub txn_type : LedgerType
  pub amount : ℤ
  pub balance_after : ℤ
  pub ref : Option Ref
  pub created_at : Time

-- tb_kungfus, the memories, as far as the task service reads them
pub record MemoryRow : Type 0 where
  pub code : String
  pub owner_id : ℕ
  pub is_current : Bool
  pub revision : ℕ

pub data ReportStatus : Type 0 where
  report_open report_dismissed report_actioned : ReportStatus

pub record ReportRow : Type 0 where
  pub task_id : ℕ
  pub reporter_id : ℕ
  pub reason : String
  pub status : ReportStatus
  pub created_at : Time
  pub updated_at : Time

-- `now` is what NOW() gives in the running transaction. Lists have the newest row first.
pub record Db : Type 0 where
  pub now : Time
  pub bots : Table BotRow
  pub transactions : List TransactionRow
  pub memories : Table MemoryRow
  pub tasks : Table TaskRow
  pub versions : List VersionRow
  pub task_audience : List (ℕ × ℕ)
  pub claims : Table ClaimRow
  pub pins : List (ℕ × HarnessPin)
  pub submissions : Table SubmissionRow
  pub events : List SubmissionEventRow
  pub reports : Table ReportRow
