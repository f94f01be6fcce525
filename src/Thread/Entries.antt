-- ===== src/Thread/Entries.antt =====
-- internal/repository/thread.go: the entries of a room, the memories that they pin, and the
-- creation of an assignment.
use kungfu.Base.{
  ℕ, String, ◌+◌, Bool, true, false, ◌&&◌, Option, none, some, List, ◌∷◌, ◌==◌, if◌then◌else◌,
  Table, lookup, put, first, fresh, count, is_some,
}
use kungfu.Tx.{Tx, ◌>>=◌, ◌>>◌, pure, fail_if, or_fail, modify, no_rows, unique_violation}
use kungfu.Tables.{Time}
use kungfu.Thread.{
  Rooms, AssignRow, ThreadRow, EntryRow, assign_open, MemoRow, MemberRow, speech_right,
}
use kungfu.Thread.Store.{get_rooms, update_thread, generate_unique, in_thread}
use text.Mathlib.Text.{◌==◌ as str_eq}

abbrev pub advanced : ThreadRow → Time → ThreadRow
advanced t now = record t { next_seq = t.next_seq + 1 }

-- `NextThreadSeq`: UPDATE … SET next_seq = next_seq + 1 RETURNING next_seq
unfoldable pub next_thread_seq : ℕ → Tx Rooms ℕ
next_thread_seq id = do
  db ← get_rooms
  t ← or_fail (lookup id db.threads) no_rows
  update_thread id advanced
  pure (t.next_seq + 1)

unfoldable pub find_kungfu_by_code : String → Rooms → Option (ℕ × MemoRow)
find_kungfu_by_code code db = first (λ k. str_eq k.code code) db.memories

-- `CreateThreadKungfu`: a private memory of revision 1
unfoldable pub create_thread_kungfu :
    ℕ → String → String → String → List String → Tx Rooms (ℕ × String)
create_thread_kungfu bot_id description content checksum draws = do
  db ← get_rooms
  code ← generate_unique (λ c. is_some (find_kungfu_by_code c db)) draws
  modify (λ (d : Rooms). record d {
    memories =
        (
          fresh d.memories,
          record {
            code = code;
            bot_id = bot_id;
            description = description;
            content = content;
            checksum = checksum;
            is_public = false;
            is_live = true;
            revision = 1;
          },
        )
        ∷ d.memories;
  })
  pure (fresh db.memories, code)

abbrev in_room : ℕ → Option EntryRow → Option EntryRow
in_room thread_id none = none
in_room thread_id (some e) = if e.thread_id == thread_id then some e else none

-- `FindThreadEntry`: within one thread only
unfoldable pub find_thread_entry : ℕ → ℕ → Rooms → Option EntryRow
find_thread_entry thread_id entry_id db = in_room thread_id (lookup entry_id db.entries)

pub record NewEntry : Type 0 where
  pub author_id : ℕ
  pub memory_id : ℕ
  pub memory_revision : ℕ
  pub reply_to : Option ℕ
  pub asked : List ℕ
  pub summary : String

abbrev pub entry_row : ℕ → ℕ → NewEntry → Time → EntryRow
entry_row thread_id seq e now = record {
  thread_id = thread_id;
  seq = seq;
  author_id = e.author_id;
  memory_id = e.memory_id;
  memory_revision = e.memory_revision;
  reply_to = e.reply_to;
  asked = e.asked;
  summary = e.summary;
  assign_id = none;
  created_at = now;
}

unfoldable pub has_seq : ℕ → ℕ → EntryRow → Bool
has_seq thread_id seq e = e.thread_id == thread_id && e.seq == seq

-- UNIQUE (thread_id, seq)
unfoldable pub insert_thread_entry : ℕ → ℕ → NewEntry → Tx Rooms ℕ
insert_thread_entry thread_id seq e = do
  db ← get_rooms
  fail_if (is_some (first (has_seq thread_id seq) db.entries)) unique_violation
  modify (λ (d : Rooms). record d {
    entries = (fresh d.entries, entry_row thread_id seq e d.now) ∷ d.entries;
  })
  pure (fresh db.entries)

unfoldable pub can_speak_in : ℕ → MemberRow → Bool
can_speak_in thread_id m = in_thread thread_id m && speech_right m.role

-- `CountThreadSpeechCapable`
unfoldable pub count_thread_speech_capable : ℕ → Rooms → ℕ
count_thread_speech_capable thread_id db = count (can_speak_in thread_id) db.members

pub record NewAssignment : Type 0 where
  pub creator_id : ℕ
  pub assignee_id : ℕ
  pub requirements : String
  pub output_schema : String
  pub deliver_due_s : ℕ
  pub judge_due_s : ℕ

-- NULLIF(…, '')
abbrev pub null_if_empty : String → Option String
null_if_empty s = if str_eq s "" then none else some s

abbrev pub assign_row : ℕ → ℕ → NewAssignment → Time → AssignRow
assign_row thread_id entry_id a now = record {
  thread_id = thread_id;
  entry_id = entry_id;
  creator_id = a.creator_id;
  assignee_id = a.assignee_id;
  requirements = a.requirements;
  output_schema = null_if_empty a.output_schema;
  deliver_due_s = a.deliver_due_s;
  judge_due_s = a.judge_due_s;
  state = assign_open;
  taken_at = none;
  deliver_due_at = none;
  created_at = now;
  closed_at = none;
  judge_forfeited_at = none;
}

unfoldable pub insert_assignment : ℕ → ℕ → NewAssignment → Tx Rooms ℕ
insert_assignment thread_id entry_id a = do
  db ← get_rooms
  modify (λ (d : Rooms). record d {
    assigns = (fresh d.assigns, assign_row thread_id entry_id a d.now) ∷ d.assigns;
  })
  pure (fresh db.assigns)

abbrev linked : ℕ → Option EntryRow → ℕ → Table EntryRow → Table EntryRow
linked assign_id none entry_id entries = entries
linked assign_id (some e) entry_id entries =
    put entry_id (record e { assign_id = some assign_id }) entries

unfoldable pub link_entry_assignment : ℕ → ℕ → Tx Rooms (Unit {0})
link_entry_assignment entry_id assign_id = modify (λ (d : Rooms). record d {
  entries = linked assign_id (lookup entry_id d.entries) entry_id d.entries;
})
