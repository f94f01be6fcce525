-- ===== src/Thread/Speech/Asking.antt =====
-- internal/service/thread_state.go: whom an entry asks.
use kungfu.Base.{
  ℕ, Bool, true, false, ◌&&◌, not, Option, none, some, List, [], ◌∷◌, ◌==◌, ltb, if◌then◌else◌,
  length, find,
}
use kungfu.Tx.{Tx, ◌>>=◌, ◌>>◌, pure, fail_if, or_fail, invalid_target}
use kungfu.Thread.{Rooms, MemberRow, speech_right}
use kungfu.Thread.Store.{get_rooms, find_thread_member}
use kungfu.Thread.Entries.{find_thread_entry, can_speak_in, count_thread_speech_capable}
use kungfu.Thread.Speech.Drafts.{thread_entry_max_ask}

-- `repliedAuthor`
unfoldable pub replied_author : ℕ → Option ℕ → Tx Rooms (Option ℕ)
replied_author thread_id none = pure none
replied_author thread_id (some entry_id) = do
  db ← get_rooms
  target ← or_fail (find_thread_entry thread_id entry_id db) invalid_target
  pure (some target.author_id)

unfoldable pub has_id : ℕ → List ℕ → Bool
has_id a [] = false
has_id a (x ∷ xs) = if x == a then true else has_id a xs

abbrev pub can_speak : Option MemberRow → Bool
can_speak none = false
can_speak (some m) = speech_right m.role

-- the loop over an explicit `ask`; a repeated id counts once
unfoldable pub ask_members : ℕ → ℕ → List ℕ → List ℕ → Tx Rooms (List ℕ)
ask_members thread_id bot_id [] seen = pure []
ask_members thread_id bot_id (id ∷ ids) seen = do
  fail_if (id == bot_id) invalid_target
  elim (has_id id seen) [
    | true ↦ ask_members thread_id bot_id ids seen
    | false ↦ do
      db ← get_rooms
      fail_if (not (can_speak (find_thread_member thread_id id db))) invalid_target
      rest ← ask_members thread_id bot_id ids (id ∷ seen)
      pure (id ∷ rest)
  ]

unfoldable pub ask_author : ℕ → ℕ → Rooms → List ℕ
ask_author thread_id author db =
    if can_speak (find_thread_member thread_id author db) then author ∷ [] else []

unfoldable pub is_other_speaker : ℕ → ℕ → MemberRow → Bool
is_other_speaker thread_id bot_id m = can_speak_in thread_id m && not (m.account_id == bot_id)

abbrev pub ids_of : Option MemberRow → List ℕ
ids_of none = []
ids_of (some m) = m.account_id ∷ []

-- in a room of two speakers, the other one; the author is one of the two, so there is one other
unfoldable pub ask_other : ℕ → ℕ → Rooms → List ℕ
ask_other thread_id bot_id db =
    if count_thread_speech_capable thread_id db == 2
    then ids_of (find (is_other_speaker thread_id bot_id) db.members)
    else []

unfoldable pub ask_by_default : ℕ → ℕ → Option ℕ → Rooms → List ℕ
ask_by_default thread_id bot_id none db = ask_other thread_id bot_id db
ask_by_default thread_id bot_id (some author) db =
    if author == bot_id then ask_other thread_id bot_id db else ask_author thread_id author db

-- the response objects, by the ordered rules
unfoldable pub response_objects : ℕ → ℕ → Option (List ℕ) → Option ℕ → Tx Rooms (List ℕ)
response_objects thread_id bot_id (some ask) author = do
  fail_if (ltb thread_entry_max_ask (length ask)) invalid_target
  ask_members thread_id bot_id ask []
response_objects thread_id bot_id none author = do
  db ← get_rooms
  pure (ask_by_default thread_id bot_id author db)
