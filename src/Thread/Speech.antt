-- ===== src/Thread/Speech.antt =====
-- internal/service/thread_state.go: posting an entry, handling and retracting.
mod Drafts
mod Asking
unfoldable pub use Drafts.*
unfoldable pub use Asking.*
use kungfu.Base.{
  ℕ, suc, zero, String, Bool, false, ◌&&◌, ◌||◌, not, Option, none, some, List, [], ◌∷◌, ◌++◌, ◌==◌,
  leb, ltb, if◌then◌else◌, ℤ, pos, negsuc,
}
use kungfu.Task.{rune_count}
use kungfu.Tx.{
  Tx, ◌>>=◌, ◌>>◌, pure, fail_if, or_fail, mask, internal_error, validation_failed, invalid_target,
  read_only, content_too_large, not_yours,
}
use kungfu.Thread.{
  Rooms, speech_right, Facts, text, number, flag, numbers, by_reply, by_handle, by_retract,
  notify_reply, notify_assign,
}
use kungfu.Thread.Store.{get_rooms, find_thread_member}
use kungfu.Thread.Entries.{
  next_thread_seq, find_thread_entry, insert_thread_entry, insert_assignment, link_entry_assignment,
}
use kungfu.Thread.Replay.{Encoding, Outcome}
use kungfu.Thread.Obligations.{
  insert_thread_receipt, fulfill_thread_receipt, withdraw_thread_receipts_by_entry, enqueue_notify,
}
use package.text.Mathlib.Text.{◌==◌ as str_eq}
use Prim.Native.String.{len}

unfoldable pub insert_receipts : ℕ → ℕ → List ℕ → Tx Rooms (Unit {0})
insert_receipts thread_id entry_id [] = pure tt
insert_receipts thread_id entry_id (id ∷ ids) = do
  mask internal_error (insert_thread_receipt thread_id entry_id id)
  insert_receipts thread_id entry_id ids

unfoldable pub notify_asked : List ℕ → Tx Rooms (Unit {0})
notify_asked [] = pure tt
notify_asked (id ∷ ids) = do enqueue_notify id notify_reply 1; notify_asked ids

-- 0 is an omitted deadline; any other value out of range is rejected
unfoldable pub due_seconds : ℤ → Option ℕ
due_seconds (pos zero) = some assign_default_due_s
due_seconds (pos (suc n)) =
    if leb assign_min_due_s (suc n) && leb (suc n) assign_max_due_s then some (suc n) else none
due_seconds (negsuc n) = none

abbrev pub notify_assignee : ℕ → ℕ → Tx Rooms (Unit {0})
notify_assignee to bot_id = if to == bot_id then pure tt else enqueue_notify to notify_assign 1

module _ (checks : PostChecks) where
  unfoldable pub create_assignment : ℕ → ℕ → ℕ → Option AssignSpec → Tx Rooms (Option ℕ)
  create_assignment bot_id thread_id entry_id none = pure none
  create_assignment bot_id thread_id entry_id (some spec) = do
    fail_if (is_blank spec.requirements || ltb assign_max_requirements (len spec.requirements))
        validation_failed
    db ← get_rooms
    fail_if (not (spec.to == bot_id) && not (can_speak (find_thread_member thread_id spec.to db)))
        invalid_target
    deliver_due ← or_fail (due_seconds spec.deliver_due_s) validation_failed
    judge_due ← or_fail (due_seconds spec.judge_due_s) validation_failed
    fail_if (not (str_eq spec.output_schema "") && not (checks.is_json spec.output_schema))
        validation_failed
    assign_id ← mask internal_error (
        insert_assignment thread_id entry_id (record {
          creator_id = bot_id;
          assignee_id = spec.to;
          requirements = spec.requirements;
          output_schema = spec.output_schema;
          deliver_due_s = deliver_due;
          judge_due_s = judge_due;
        }))
    mask internal_error (link_entry_assignment entry_id assign_id)
    notify_assignee spec.to bot_id
    pure (some assign_id)

-- a reply ends the author's own pending receipt, if there is one
unfoldable pub end_own_receipt : ℕ → Option ℕ → Tx Rooms Bool
end_own_receipt bot_id none = pure false
end_own_receipt bot_id (some entry_id) =
    mask internal_error (fulfill_thread_receipt entry_id bot_id by_reply none)

abbrev assign_field : Option ℕ → Facts
assign_field none = []
assign_field (some id) = ("assign", number id) ∷ []

abbrev pub facts_only : Facts → Outcome
facts_only facts = record { facts = facts; first_only = []; view = facts }

module _ (enc : Encoding) (checks : PostChecks) where
  abbrev pub resolve_memory : ℕ → Post → List String → Tx Rooms (ℕ × ℕ × String)
  resolve_memory bot_id p draws =
      if str_eq p.content ""
      then pin_memory bot_id p.memory_code
      else store_content enc checks bot_id p.content (summary_of p.content p.summary) draws

  -- The transaction of `ThreadPost`; `draws` are the codes that a new memory would draw.
  unfoldable pub post_entry : ℕ → Post → List String → Tx Rooms Outcome
  post_entry bot_id p draws = do
    (id, t, me) ← load_open_room p.thread_code bot_id
    fail_if (not (speech_right me.role)) read_only
    fail_if (if str_eq p.content "" then str_eq p.memory_code "" else not (str_eq p.memory_code ""))
        validation_failed
    (memory_id, revision, memory_ref) ← resolve_memory bot_id p draws
    author ← replied_author id p.reply_to
    asked ← response_objects id bot_id p.ask author
    seq ← mask internal_error (next_thread_seq id)
    entry_id ← mask internal_error (
        insert_thread_entry id seq (record {
          author_id = bot_id;
          memory_id = memory_id;
          memory_revision = revision;
          reply_to = p.reply_to;
          asked = asked;
          summary = summary_of p.content p.summary;
        }))
    insert_receipts id entry_id asked
    notify_asked asked
    assign_id ← create_assignment checks bot_id id entry_id p.assign
    ended ← end_own_receipt bot_id p.reply_to
    pure (
        facts_only (
          (("thread", text t.code)
            ∷ ("entry", number entry_id)
            ∷ ("seq", number seq)
            ∷ ("memory", text memory_ref)
            ∷ ("revision", number revision)
            ∷ ("asked", numbers asked)
            ∷ ("fulfilled", flag ended)
            ∷ [])
          ++ assign_field assign_id))

abbrev pub note_of : String → Option String
note_of note = if str_eq note "" then none else some note

-- The transaction of `ThreadHandle`.
unfoldable pub handle_receipt : ℕ → String → ℕ → String → Tx Rooms Outcome
handle_receipt bot_id code entry_id note = do
  (id, t, _) ← load_open_room code bot_id
  fail_if (ltb thread_handle_max_note_runes (rune_count note)) content_too_large
  db ← get_rooms
  _ ← or_fail (find_thread_entry id entry_id db) invalid_target
  done ← mask internal_error (fulfill_thread_receipt entry_id bot_id by_handle (note_of note))
  fail_if (not done) invalid_target
  pure (
      facts_only
        (("thread", text t.code) ∷ ("entry", number entry_id) ∷ ("resolution", text "handle") ∷ []))

-- The transaction of `ThreadRetract`.
unfoldable pub retract_entry : ℕ → String → ℕ → Tx Rooms Outcome
retract_entry bot_id code entry_id = do
  (id, t, _) ← load_open_room code bot_id
  db ← get_rooms
  entry ← or_fail (find_thread_entry id entry_id db) invalid_target
  fail_if (not (entry.author_id == bot_id)) not_yours
  n ← mask internal_error (withdraw_thread_receipts_by_entry entry_id by_retract)
  fail_if (n == 0) invalid_target
  pure (
      facts_only
        (("thread", text t.code) ∷ ("entry", number entry_id) ∷ ("withdrawn", number n) ∷ []))
