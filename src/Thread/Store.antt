-- ===== src/Thread/Store.antt =====
-- internal/repository/thread.go: rooms, keys, memberships and the receipts of requests.
use kungfu.Base.{
  ℕ, String, Bool, true, false, ◌&&◌, Option, none, some, List, [], ◌∷◌, ◌==◌, if◌then◌else◌, Table,
  lookup, put, first, fresh, take, count, find, update, delete, is_some,
}
use kungfu.Tx.{
  Tx, ◌>>=◌, ◌>>◌, pure, fail_if, or_fail, gets, modify, no_rows, unique_violation,
  code_generation_failed,
}
use kungfu.Tables.{Time}
use kungfu.Thread.{
  Rooms, ThreadRow, ThreadKey, ThreadRole, MemberRow, IdempotencyRow, Facts, status_open,
  status_closed, is_open_status, is_governor,
}
use text.Mathlib.Text.{◌==◌ as str_eq}

abbrev pub get_rooms : Tx Rooms Rooms
get_rooms = gets (λ (db : Rooms). db)

unfoldable pub has_code : String → ThreadRow → Bool
has_code code t = str_eq t.code code

-- `FindThreadByCode`, and `LockThreadByCode`, which reads the same row.
unfoldable pub find_thread_by_code : String → Rooms → Option (ℕ × ThreadRow)
find_thread_by_code code db = first (has_code code) db.threads

unfoldable pub first_unused : (String → Bool) → List String → Option String
first_unused exists [] = none
first_unused exists (c ∷ draws) =
    let rest = first_unused exists draws in if exists c then rest else some c

-- publiccode.GenerateUnique: the first unused code of at most ten that are drawn
unfoldable pub generate_unique : (String → Bool) → List String → Tx Rooms String
generate_unique exists draws = or_fail (first_unused exists (take 10 draws)) code_generation_failed

unfoldable pub generate_unique_thread_code : List String → Tx Rooms String
generate_unique_thread_code draws = do
  db ← get_rooms
  generate_unique (λ c. is_some (find_thread_by_code c db)) draws

abbrev pub new_thread : String → Option String → Time → ThreadRow
new_thread code subject now = record {
  code = code;
  subject = subject;
  status = status_open;
  key = none;
  next_seq = 1;
  created_at = now;
  closed_at = none;
}

-- UNIQUE (code)
unfoldable pub insert_thread : String → Option String → Tx Rooms ℕ
insert_thread code subject = do
  db ← get_rooms
  fail_if (is_some (find_thread_by_code code db)) unique_violation
  modify (λ (d : Rooms). record d {
    threads = (fresh d.threads, new_thread code subject d.now) ∷ d.threads;
  })
  pure (fresh db.threads)

abbrev pub has_hash : String → Option ThreadKey → Bool
has_hash hash none = false
has_hash hash (some k) = str_eq k.key_hash hash

unfoldable pub opens_with : String → ThreadRow → Bool
opens_with hash t = has_hash hash t.key && is_open_status t.status

unfoldable pub find_open_thread_by_key_hash : String → Rooms → Option (ℕ × ThreadRow)
find_open_thread_by_key_hash hash db = first (opens_with hash) db.threads

-- an UPDATE by key that must meet one row
unfoldable pub update_thread : ℕ → (ThreadRow → Time → ThreadRow) → Tx Rooms (Unit {0})
update_thread id f = do
  db ← get_rooms
  t ← or_fail (lookup id db.threads) no_rows
  modify (λ (d : Rooms). record d { threads = put id (f t d.now) d.threads })

abbrev pub with_key : String → ThreadRole → ThreadRow → Time → ThreadRow
with_key hash role t now = record t {
  key = some (record { key_hash = hash; key_role = role; key_issued_at = now });
}

unfoldable pub issue_thread_key : ℕ → String → ThreadRole → Tx Rooms (Unit {0})
issue_thread_key id hash role = update_thread id (with_key hash role)

abbrev pub unkeyed : ThreadRow → Time → ThreadRow
unkeyed t now = record t { key = none }

unfoldable pub revoke_thread_key : ℕ → Tx Rooms (Unit {0})
revoke_thread_key id = update_thread id unkeyed

abbrev pub closed : ThreadRow → Time → ThreadRow
closed t now = record t { status = status_closed; key = none; closed_at = some now }

abbrev pub is_open_row : Option ThreadRow → Bool
is_open_row none = false
is_open_row (some t) = is_open_status t.status

abbrev pub close_if : Bool → ℕ → Tx Rooms Bool
close_if true id = do update_thread id closed; pure true
close_if false id = pure false

-- `CloseThreadByID`: false when no open room has the id
unfoldable pub close_thread_by_id : ℕ → Tx Rooms Bool
close_thread_by_id id = do db ← get_rooms; close_if (is_open_row (lookup id db.threads)) id

-- the primary key of a membership
unfoldable pub is_member : ℕ → ℕ → MemberRow → Bool
is_member thread_id account_id m = m.thread_id == thread_id && m.account_id == account_id

unfoldable pub in_thread : ℕ → MemberRow → Bool
in_thread thread_id m = m.thread_id == thread_id

unfoldable pub governs : ℕ → MemberRow → Bool
governs thread_id m = m.thread_id == thread_id && is_governor m.role

unfoldable pub find_thread_member : ℕ → ℕ → Rooms → Option MemberRow
find_thread_member thread_id account_id db = find (is_member thread_id account_id) db.members

abbrev pub new_member : ℕ → ℕ → ThreadRole → Option String → Time → MemberRow
new_member thread_id account_id role via now = record {
  thread_id = thread_id;
  account_id = account_id;
  role = role;
  joined_via_key_hash = via;
  joined_at = now;
}

unfoldable pub insert_thread_member : ℕ → ℕ → ThreadRole → Option String → Tx Rooms (Unit {0})
insert_thread_member thread_id account_id role via = do
  db ← get_rooms
  fail_if (is_some (find_thread_member thread_id account_id db)) unique_violation
  modify (λ (d : Rooms). record d {
    members = new_member thread_id account_id role via d.now ∷ d.members;
  })

unfoldable pub delete_thread_member : ℕ → ℕ → Tx Rooms Bool
delete_thread_member thread_id account_id = do
  db ← get_rooms
  modify (λ (d : Rooms). record d { members = delete (is_member thread_id account_id) d.members })
  pure (is_some (find_thread_member thread_id account_id db))

unfoldable pub with_role : ThreadRole → MemberRow → MemberRow
with_role role m = record m { role = role }

unfoldable pub set_thread_member_role : ℕ → ℕ → ThreadRole → Tx Rooms (Unit {0})
set_thread_member_role thread_id account_id role = do
  db ← get_rooms
  _ ← or_fail (find_thread_member thread_id account_id db) no_rows
  modify (λ (d : Rooms). record d {
    members = update (is_member thread_id account_id) (with_role role) d.members;
  })

unfoldable pub count_thread_members : ℕ → Rooms → ℕ
count_thread_members thread_id db = count (in_thread thread_id) db.members

unfoldable pub count_thread_governors : ℕ → Rooms → ℕ
count_thread_governors thread_id db = count (governs thread_id) db.members

-- JOIN threads ON … status = 'open'
unfoldable pub in_open_room : Table ThreadRow → ℕ → MemberRow → Bool
in_open_room threads account_id m =
    m.account_id == account_id && is_open_row (lookup m.thread_id threads)

unfoldable pub count_open_memberships : ℕ → Rooms → ℕ
count_open_memberships account_id db = count (in_open_room db.threads account_id) db.members

-- the primary key of thread_idempotency
unfoldable pub answers_request : ℕ → String → String → IdempotencyRow → Bool
answers_request account_id tool key r =
    r.account_id == account_id && (str_eq r.tool tool && str_eq r.key key)

unfoldable pub find_thread_idempotency : ℕ → String → String → Rooms → Option IdempotencyRow
find_thread_idempotency account_id tool key db =
    find (answers_request account_id tool key) db.idempotency

abbrev pub receipt_row : ℕ → String → String → String → Facts → Time → IdempotencyRow
receipt_row account_id tool key request_hash facts now = record {
  account_id = account_id;
  tool = tool;
  key = key;
  request_hash = request_hash;
  result_snapshot = facts;
  created_at = now;
}

unfoldable pub insert_thread_idempotency :
    ℕ → String → String → String → Facts → Tx Rooms (Unit {0})
insert_thread_idempotency account_id tool key request_hash facts = do
  db ← get_rooms
  fail_if (is_some (find_thread_idempotency account_id tool key db)) unique_violation
  modify (λ (d : Rooms). record d {
    idempotency = receipt_row account_id tool key request_hash facts d.now ∷ d.idempotency;
  })
