-- ===== src/Thread/Kernel.antt =====
-- internal/service/thread_kernel.go: rooms, their keys, and who is in them. A drawn key is the hex
-- text of its random bytes, an argument of the operations that issue one.
use kungfu.Base.{
  ℕ, String, Bool, true, not, Option, none, some, List, [], ◌∷◌, ◌++◌, ◌==◌, leb, ltb,
  if◌then◌else◌, is_some,
}
use kungfu.Task.{rune_count}
use kungfu.Service.Governance.{trim_space}
use kungfu.Tx.{
  Tx, ◌>>=◌, ◌>>◌, pure, fail_if, or_fail, mask, internal_error, validation_failed,
  thread_not_found, not_member, not_governor, thread_closed, room_limit, invalid_target,
}
use kungfu.Thread.{
  Rooms, ThreadRow, ThreadRole, governor, speaker, observer, ThreadStatus, status_open,
  status_closed, is_open_status, is_governor, Facts, text, flag, texts,
}
use kungfu.Thread.Store.{
  get_rooms, find_thread_by_code, generate_unique_thread_code, insert_thread, issue_thread_key,
  revoke_thread_key, find_thread_member, insert_thread_member, count_thread_members,
  count_thread_governors, count_open_memberships,
}
use kungfu.Thread.Replay.{Encoding, Outcome, require_active_account, run_thread_action}
use Prim.Native.String.{slice, ◌++◌ as ◌+++◌}

abbrev pub thread_max_subject_runes : ℕ
thread_max_subject_runes = 200

abbrev pub thread_max_members : ℕ
thread_max_members = 50

abbrev pub thread_max_open_rooms_per_account : ℕ
thread_max_open_rooms_per_account = 100

abbrev pub role_text : ThreadRole → String
role_text governor = "governor"
role_text speaker = "speaker"
role_text observer = "observer"

abbrev pub status_text : ThreadStatus → String
status_text status_open = "open"
status_text status_closed = "closed"

-- `generateThreadKey`: the key, its stored digest and the fingerprint
abbrev pub raw_key : String → String
raw_key body = "kf_" +++ body

abbrev pub fingerprint : String → String
fingerprint body = "kf_" +++ (slice body 0 4 +++ ("…" +++ slice body 28 32))

abbrev when : Bool → List String → List String
when b tools = if b then tools else []

unfoldable pub thread_next_actions : ThreadRow → ThreadRole → ℕ → ℕ → List String
thread_next_actions t role members governors = elim t.status [
  | status_closed ↦ "thread_leave" ∷ []
  | status_open ↦ elim role [
    | governor ↦
        "thread_post" ∷ "thread_key" ∷ when (is_some t.key) ("thread_key_revoke" ∷ [])
        ++ when (ltb 1 members) ("thread_remove" ∷ "thread_set_role" ∷ [])
        ++ "thread_close" ∷ when (ltb 1 governors) ("thread_leave" ∷ [])
    | speaker ↦ "thread_post" ∷ "thread_leave" ∷ []
    | observer ↦ "thread_leave" ∷ []
  ]
]

abbrev pub thread_view : List String → Facts
thread_view next = ("next", texts next) ∷ []

-- `threadGovernorNextAfter`
unfoldable pub governor_next_after : ℕ → ThreadRow → Rooms → List String
governor_next_after id t db = elim (find_thread_by_code t.code db) [
  | none ↦
      thread_next_actions t governor (count_thread_members id db) (count_thread_governors id db)
  | some (_, refreshed) ↦
      thread_next_actions refreshed governor (count_thread_members id db)
        (count_thread_governors id db)
]

-- `loadRoomForGovernor`
unfoldable pub load_room_for_governor : String → ℕ → Tx Rooms (ℕ × ThreadRow)
load_room_for_governor code bot_id = do
  db ← get_rooms
  (id, t) ← or_fail (find_thread_by_code code db) thread_not_found
  me ← or_fail (find_thread_member id bot_id db) not_member
  fail_if (not (is_governor me.role)) not_governor
  fail_if (not (is_open_status t.status)) thread_closed
  pure (id, t)

abbrev subject_of : String → Option String
subject_of s = if rune_count s == 0 then none else some s

abbrev subject_field : String → Facts
subject_field s = if rune_count s == 0 then [] else ("subject", text s) ∷ []

module _ (enc : Encoding) where
  open enc use {sha256_hex, quoted, decimal}

  abbrev pub key_digest : String → String
  key_digest body = sha256_hex (raw_key body)

  -- the first key of a new room, bound to the default role: the facts, and what is shown once
  unfoldable pub first_key : Option String → ℕ → Tx Rooms (Facts × Facts)
  first_key none id = pure ([], [])
  first_key (some body) id = do
    mask internal_error (issue_thread_key id (key_digest body) speaker)
    pure (
      ("key_role", text "speaker") ∷ ("key_fingerprint", text (fingerprint body)) ∷ [],
      ("key", text (raw_key body)) ∷ [],
    )

  -- The transaction of `ThreadStart`; `draws` are the codes that it would draw.
  unfoldable pub start_room : ℕ → String → Option String → List String → Tx Rooms Outcome
  start_room bot_id subject key_body draws = do
    require_active_account bot_id
    db ← get_rooms
    fail_if (leb thread_max_open_rooms_per_account (count_open_memberships bot_id db)) room_limit
    code ← mask internal_error (generate_unique_thread_code draws)
    id ← mask internal_error (insert_thread code (subject_of subject))
    mask internal_error (insert_thread_member id bot_id governor none)
    (key_facts, shown) ← first_key key_body id
    after ← get_rooms
    (_, room) ← or_fail (find_thread_by_code code after) internal_error
    pure (record {
      facts =
          (("thread", text code)
            ∷ ("status", text "open")
            ∷ ("role", text "governor")
            ∷ ("key", text "")
            ∷ [])
          ++ key_facts
          ++ subject_field subject;
      first_only = shown;
      view = thread_view (thread_next_actions room governor 1 1);
    })

  -- `ThreadStart`
  unfoldable pub thread_start : ℕ → String → Option String → String → List String → Tx Rooms Facts
  thread_start bot_id subject key_body idem_key draws = do
    fail_if (ltb thread_max_subject_runes (rune_count (trim_space subject))) validation_failed
    run_thread_action bot_id "thread_start" idem_key
        (sha256_hex (
          "{\"key\":"
          +++ ((if is_some key_body then "true" else "false")
              +++ (",\"subject\":" +++ (quoted (trim_space subject) +++ "}")))))
        (start_room bot_id (trim_space subject) key_body draws)

  unfoldable pub issue_key : ℕ → String → ThreadRole → String → Tx Rooms Outcome
  issue_key bot_id code role body = do
    require_active_account bot_id
    (id, t) ← load_room_for_governor code bot_id
    mask internal_error (issue_thread_key id (key_digest body) role)
    db ← get_rooms
    (_, room) ← or_fail (find_thread_by_code code db) internal_error
    pure (record {
      facts =
          ("thread", text t.code)
          ∷ ("key", text "")
          ∷ ("key_role", text (role_text role))
          ∷ ("key_fingerprint", text (fingerprint body))
          ∷ ("previous_key_invalidated", flag (is_some t.key))
          ∷ [];
      first_only = ("key", text (raw_key body)) ∷ [];
      view = thread_view (
          thread_next_actions room governor (count_thread_members id db)
            (count_thread_governors id db));
    })

  -- `ThreadIssueKey`: no role is the speaker's. A role is one of the three here, which
  -- `threadValidRole` checks.
  unfoldable pub thread_issue_key :
      ℕ → String → Option ThreadRole → String → String → Tx Rooms Facts
  thread_issue_key bot_id code role idem_key body =
      let r : ThreadRole = elim role [ none ↦ speaker | some given ↦ given ] in
      run_thread_action bot_id "thread_key" idem_key
        (sha256_hex
          ("{\"role\":" +++ (quoted (role_text r) +++ (",\"thread\":" +++ (quoted code +++ "}")))))
        (issue_key bot_id code r body)

  abbrev pub thread_request : String → String
  thread_request code = sha256_hex ("{\"thread\":" +++ (quoted code +++ "}"))

  unfoldable pub revoke_key : ℕ → String → Tx Rooms Outcome
  revoke_key bot_id code = do
    require_active_account bot_id
    (id, t) ← load_room_for_governor code bot_id
    fail_if (not (is_some t.key)) invalid_target
    mask internal_error (revoke_thread_key id)
    db ← get_rooms
    pure (record {
      facts = ("thread", text t.code) ∷ ("key_revoked", flag true) ∷ [];
      first_only = [];
      view = thread_view (governor_next_after id t db);
    })

  -- `ThreadRevokeKey`
  unfoldable pub thread_revoke_key : ℕ → String → String → Tx Rooms Facts
  thread_revoke_key bot_id code idem_key =
      run_thread_action bot_id "thread_key_revoke" idem_key (thread_request code)
        (revoke_key bot_id code)
