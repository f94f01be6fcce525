-- ===== src/Service/Limits.antt =====
-- The checks that the task operations share: the audience gate of task_audience.go, the rejection
-- limit, the slots and the harness references of task_submit.go and task_claim.go.
use text.Mathlib.Text.{◌==◌ as str_eq}
use kungfu.Base.{
  ℕ, suc, zero, ◌+◌, ◌-◌, ◌*◌, ◌/◌, String, Bool, ◌&&◌, ◌||◌, Option, none, some, List, [], ◌∷◌,
  ◌==◌, if◌then◌else◌, first, ℤ, pos, negsuc, ltb_ℤ,
}
use kungfu.Tx.{Tx, ok, err, ◌>>◌, pure, fail, task_not_found, not_owner, submission_limit}
use kungfu.Task.{Contract, or_default, default_max_rejected_per_agent}
use kungfu.Tables.{Db, Time, TaskRow, MemoryRow, HarnessPin}
use kungfu.Repository.{task_audience_visible, available, positive, AgentSubmissionCounts}

-- time.Time in nanoseconds; the subtraction of a window stops at the zero time
abbrev pub second : ℕ
second = 1_000_000_000

abbrev pub add_seconds : Time → ℤ → Time
add_seconds t (pos n) = t + n * second
add_seconds t (negsuc n) = t - suc n * second

-- `requireTaskAudience`
unfoldable pub require_task_audience : ℕ → TaskRow → ℕ → Tx Db (Unit {0})
require_task_audience task_id t agent_id db =
    if t.publisher_id == agent_id || task_audience_visible task_id agent_id db
    then ok (tt, db)
    else err task_not_found

-- `requireOwnerOrAudience`
unfoldable pub require_owner_or_audience : ℕ → TaskRow → ℕ → Tx Db (Unit {0})
require_owner_or_audience task_id t caller_id =
    if t.publisher_id == caller_id
    then pure tt
    else do require_task_audience task_id t caller_id; fail not_owner

abbrev pub rejection_window : ℕ
rejection_window = 24 * 3600 * second

abbrev pub rejections_since : Time → Time
rejections_since now = now - rejection_window

abbrev pub rejected_cap_for : Contract → ℤ
rejected_cap_for contract =
    or_default contract.max_rejected_per_agent default_max_rejected_per_agent

abbrev pub retry_at : Option Time → Time → Time
retry_at none now = now + rejection_window
retry_at (some oldest) now = oldest + rejection_window

abbrev pub at_least_one : ℕ → ℕ
at_least_one zero = 1
at_least_one (suc n) = suc n

-- whole seconds until `at`, rounded up, at least one
unfoldable pub wait_seconds : Time → Time → ℕ
wait_seconds at now = at_least_one ((at - now + (second - 1)) / second)

-- `checkRejectionLimit`; the error carries retry_after
unfoldable pub check_rejection_limit : AgentSubmissionCounts → Contract → Time → Tx Db (Unit {0})
check_rejection_limit counts contract now db =
    if ltb_ℤ (pos counts.rejected_in_window) (rejected_cap_for contract)
    then ok (tt, db)
    else err (submission_limit (wait_seconds (retry_at counts.oldest_rejected_in_window now) now))

abbrev quotient_of : Option ℕ → ℕ → ℕ
quotient_of none a = 0
quotient_of (some p) a = a / p

-- `slotsFor`
unfoldable pub slots_for : TaskRow → Contract → ℕ
slots_for t contract = quotient_of (positive contract.price) (available t)

unfoldable pub is_owned_current : ℕ → String → MemoryRow → Bool
is_owned_current publisher_id code m =
    str_eq m.code code && m.owner_id == publisher_id && m.is_current

-- `FindOwnedActiveKungfuByCode` (internal/repository/kungfu.go)
unfoldable pub find_owned_active_kungfu : ℕ → String → Db → Option (ℕ × MemoryRow)
unfolding is_owned_current
find_owned_active_kungfu publisher_id code db =
    first (is_owned_current publisher_id code) db.memories

pub record ResolvedHarnessPin : Type 0 where
  pub code : String
  pub memory_id : ℕ
  pub revision : ℕ

abbrev add_pin : Option (ℕ × MemoryRow) → List ResolvedHarnessPin → List ResolvedHarnessPin
add_pin none pins = pins
add_pin (some (id, m)) pins = record { code = m.code; memory_id = id; revision = m.revision } ∷ pins

-- `resolveHarnessRefs`: a reference to no active memory of the publisher resolves to nothing
unfoldable pub resolve_harness_refs : ℕ → List String → Db → List ResolvedHarnessPin
unfolding find_owned_active_kungfu
resolve_harness_refs publisher_id [] db = []
resolve_harness_refs publisher_id (ref ∷ refs) db =
    add_pin (find_owned_active_kungfu publisher_id ref db)
      (resolve_harness_refs publisher_id refs db)

abbrev pub pin_of : ResolvedHarnessPin → HarnessPin
pin_of p = record { memory_id = p.memory_id; revision = p.revision }
