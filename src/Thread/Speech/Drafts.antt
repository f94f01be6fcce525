-- ===== src/Thread/Speech/Drafts.antt =====
-- internal/service/thread_state.go: the limits of an entry, what is posted, and the memory it stores
-- or pins.
use kungfu.Base.{ℕ, String, Bool, ◌&&◌, ◌||◌, not, Option, List, ◌==◌, leb, ltb, if◌then◌else◌, ℤ}
use kungfu.Task.{rune_count}
use kungfu.Service.Governance.{trim_space}
use kungfu.Tx.{
  Tx, ◌>>=◌, ◌>>◌, pure, fail_if, or_fail, mask, internal_error, validation_failed, not_found,
  thread_not_found, not_member, thread_closed, invalid_target, content_too_large, summary_required,
  sensitive_content,
}
use kungfu.Thread.{Rooms, ThreadRow, MemberRow, MemoRow, is_open_status}
use kungfu.Thread.Store.{get_rooms, find_thread_by_code, find_thread_member}
use kungfu.Thread.Entries.{find_kungfu_by_code, create_thread_kungfu}
use kungfu.Thread.Replay.{Encoding, require_active_account}
use package.text.Mathlib.Text.{◌==◌ as str_eq}
use Prim.Native.String.{len}

abbrev pub thread_entry_max_content_bytes : ℕ
thread_entry_max_content_bytes = 102400

abbrev pub thread_entry_max_summary_runes : ℕ
thread_entry_max_summary_runes = 500

abbrev pub thread_entry_max_ask : ℕ
thread_entry_max_ask = 50

abbrev pub thread_handle_max_note_runes : ℕ
thread_handle_max_note_runes = 1000

abbrev pub assign_default_due_s : ℕ
assign_default_due_s = 86400

abbrev pub assign_min_due_s : ℕ
assign_min_due_s = 60

abbrev pub assign_max_due_s : ℕ
assign_max_due_s = 604800

abbrev pub assign_max_requirements : ℕ
assign_max_requirements = 16384

-- `AssignSpec`
pub record AssignSpec : Type 0 where
  pub to : ℕ
  pub requirements : String
  pub output_schema : String
  pub deliver_due_s : ℤ
  pub judge_due_s : ℤ

-- The arguments of `ThreadPost`: `ask` may be absent or an explicit list.
pub record Post : Type 0 where
  pub thread_code : String
  pub content : String
  pub memory_code : String
  pub summary : String
  pub reply_to : Option ℕ
  pub ask : Option (List ℕ)
  pub assign : Option AssignSpec

-- security.ContainsCredentialValue of content and summary, and json.Valid
pub record PostChecks : Type 0 where
  pub has_credentials : String → String → Bool
  pub is_json : String → Bool

-- The common beginning: account, room, membership, and the room is open.
unfoldable pub load_open_room : String → ℕ → Tx Rooms (ℕ × ThreadRow × MemberRow)
load_open_room code bot_id = do
  require_active_account bot_id
  db ← get_rooms
  (id, t) ← or_fail (find_thread_by_code code db) thread_not_found
  me ← or_fail (find_thread_member id bot_id db) not_member
  fail_if (not (is_open_status t.status)) thread_closed
  pure (id, t, me)

abbrev pub is_blank : String → Bool
is_blank s = str_eq (trim_space s) ""

-- short content is its own summary
unfoldable pub summary_of : String → String → String
summary_of content summary =
    if not (str_eq content "")
      && (is_blank summary && leb (rune_count content) thread_entry_max_summary_runes)
    then content
    else summary

unfoldable pub pinnable : ℕ → MemoRow → Tx Rooms (Unit {0})
pinnable bot_id k =
    if k.bot_id == bot_id
    then fail_if (not k.is_live) invalid_target
    else fail_if (not k.is_live || not k.is_public) not_found

-- the memory, its revision and its code that the entry pins
module _ (enc : Encoding) (checks : PostChecks) where
  unfoldable pub store_content : ℕ → String → String → List String → Tx Rooms (ℕ × ℕ × String)
  store_content bot_id content summary draws = do
    fail_if (is_blank content) validation_failed
    fail_if (ltb thread_entry_max_content_bytes (len content)) content_too_large
    fail_if (ltb thread_entry_max_summary_runes (rune_count content) && is_blank summary)
        summary_required
    fail_if (ltb thread_entry_max_summary_runes (rune_count summary)) content_too_large
    fail_if (checks.has_credentials content summary) sensitive_content
    (id, code) ←
        mask internal_error
          (create_thread_kungfu bot_id summary content (enc.sha256_hex content) draws)
    pure (id, 1, code)

unfoldable pub pin_memory : ℕ → String → Tx Rooms (ℕ × ℕ × String)
pin_memory bot_id memory_code = do
  db ← get_rooms
  (id, k) ← or_fail (find_kungfu_by_code memory_code db) not_found
  pinnable bot_id k
  pure (id, k.revision, k.code)
