-- ===== src/Thread/Assign/Payload.antt =====
-- internal/service/assign.go: the limits of a delivery, and the checks of its payload and memories.
use kungfu.Base.{
  ℕ, String, Bool, true, false, ◌&&◌, ◌||◌, not, Option, none, some, List, [], ◌∷◌, ◌==◌, ltb,
  if◌then◌else◌, length, lookup,
}
use kungfu.Service.Governance.{trim_space}
use kungfu.Tx.{
  Tx, ◌>>=◌, ◌>>◌, pure, fail_if, or_fail, internal_error, validation_failed, not_member,
  invalid_target, content_too_large, schema_mismatch, assign_not_found,
}
use kungfu.Thread.{
  Rooms, MemoRow, AssignRow, AssignState, assign_open, assign_taken, assign_delivered,
  assign_adopted, assign_rejected, assign_undecided, assign_dropped, assign_timed_out,
  assign_voided, BoundMemory, Verdict, adopt, reject, Facts, text, number,
}
use kungfu.Thread.Store.{get_rooms, find_thread_member}
use kungfu.Thread.Entries.{find_kungfu_by_code}
use package.text.Mathlib.Text.{◌==◌ as str_eq}
use Prim.Native.String.{len}

abbrev pub assign_max_reason_runes : ℕ
assign_max_reason_runes = 4000

abbrev pub assign_max_payload_bytes : ℕ
assign_max_payload_bytes = 262144

abbrev pub assign_max_memories : ℕ
assign_max_memories = 10

pub record MemoryRef : Type 0 where
  pub name : String
  pub code : String

-- json.Valid, task.ValidatePayload finding an error, and json.Unmarshal of memory references
pub record DeliveryChecks : Type 0 where
  pub is_json : String → Bool
  pub breaks_schema : String → String → Bool
  pub parse_refs : String → Option (List MemoryRef)

abbrev pub state_text : AssignState → String
state_text assign_open = "open"
state_text assign_taken = "taken"
state_text assign_delivered = "delivered"
state_text assign_adopted = "adopted"
state_text assign_rejected = "rejected"
state_text assign_undecided = "undecided"
state_text assign_dropped = "dropped"
state_text assign_timed_out = "timed_out"
state_text assign_voided = "voided"

abbrev pub verdict_text : Verdict → String
verdict_text adopt = "adopt"
verdict_text reject = "reject"

-- `loadAssignmentRoom`
unfoldable pub load_assignment_room : ℕ → ℕ → Tx Rooms (AssignRow × String)
load_assignment_room id bot_id = do
  db ← get_rooms
  a ← or_fail (lookup id db.assigns) assign_not_found
  t ← or_fail (lookup a.thread_id db.threads) internal_error
  _ ← or_fail (find_thread_member a.thread_id bot_id db) not_member
  pure (a, t.code)

-- `assignmentFacts`, with the state that the action has led to
abbrev pub assignment_facts : String → ℕ → AssignRow → AssignState → Facts
assignment_facts code id a state =
    ("thread", text code)
    ∷ ("assign", number id)
    ∷ ("entry", number a.entry_id)
    ∷ ("state", text (state_text state))
    ∷ ("creator", number a.creator_id)
    ∷ ("to", number a.assignee_id)
    ∷ []

abbrev pub schema_broken : (String → String → Bool) → Option String → String → Bool
schema_broken breaks none payload = false
schema_broken breaks (some schema) payload =
    not (str_eq (trim_space schema) "") && breaks schema payload

unfoldable pub owned_memory : ℕ → Option (ℕ × MemoRow) → Option MemoRow
owned_memory bot_id none = none
owned_memory bot_id (some (id, k)) = if k.bot_id == bot_id && k.is_live then some k else none

-- each reference is pinned to the memory's current revision
unfoldable pub bind_memories : ℕ → List MemoryRef → Tx Rooms (List BoundMemory)
bind_memories bot_id [] = pure []
bind_memories bot_id (r ∷ refs) = do
  fail_if (str_eq (trim_space r.name) "" || str_eq (trim_space r.code) "") validation_failed
  db ← get_rooms
  k ← or_fail (owned_memory bot_id (find_kungfu_by_code r.code db)) invalid_target
  rest ← bind_memories bot_id refs
  pure
      (record { name = r.name; code = k.code; revision = k.revision; checksum = k.checksum } ∷ rest)

abbrev pub is_empty_list : List BoundMemory → Bool
is_empty_list [] = true
is_empty_list (_ ∷ _) = false

abbrev pub is_empty : List MemoryRef → Bool
is_empty [] = true
is_empty (_ ∷ _) = false

abbrev pub lists_none : String → Bool
lists_none memories = str_eq (trim_space memories) "" || str_eq (trim_space memories) "[]"

module _ (checks : DeliveryChecks) where
  -- `assignPayloadCheck`
  unfoldable pub check_payload : Option String → String → Tx Rooms (Unit {0})
  check_payload schema payload = if str_eq payload "" then pure tt else do
    fail_if (ltb assign_max_payload_bytes (len payload)) content_too_large
    fail_if (not (checks.is_json payload)) validation_failed
    fail_if (schema_broken checks.breaks_schema schema payload) schema_mismatch

  -- `assignMemoriesCheck`: no text and a bare "[]" are no memories
  unfoldable pub check_memories : ℕ → String → Tx Rooms (List BoundMemory)
  check_memories bot_id memories = if lists_none memories then pure [] else do
    refs ← or_fail (checks.parse_refs memories) validation_failed
    fail_if (is_empty refs) validation_failed
    fail_if (ltb assign_max_memories (length refs)) validation_failed
    bind_memories bot_id refs
