-- ===== src/Thread/Replay.antt =====
-- internal/service/thread_kernel.go: the idempotency seam that every write of a thread goes through.
-- Transactions follow each other, as the lock on the account's row makes those of one account do.
use kungfu.Base.{
  ℕ, String, Bool, true, false, ◌&&◌, ◌||◌, not, Option, none, some, [], ◌∷◌, if◌then◌else◌, lookup,
}
use kungfu.Tx.{
  Tx, Result, ok, err, Err, ◌>>=◌, ◌>>◌, pure, fail, fail_if, unauthorized, internal_error,
  idempotency_conflict, unique_violation,
}
use kungfu.Thread.{Rooms, AccountRow, IdempotencyRow, Fact, Facts}
use kungfu.Thread.Store.{get_rooms, find_thread_idempotency, insert_thread_idempotency}
use text.Mathlib.Text.{◌==◌ as str_eq}

-- What the requests' identities are made of: SHA-256 in hex, and the printing of a text (%q) and of
-- a number.
pub record Encoding : Type 0 where
  pub sha256_hex : String → String
  pub quoted : String → String
  pub decimal : ℕ → String

-- `threadActionOutcome`
pub record Outcome : Type 0 where
  pub facts : Facts
  pub first_only : Facts
  pub view : Facts

-- m[k] = v
unfoldable pub set_field : String → Fact → Facts → Facts
set_field k v [] = (k, v) ∷ []
set_field k v ((j, w) ∷ m) = if str_eq j k then (k, v) ∷ m else (j, w) ∷ set_field k v m

-- for k, v := range fields { m[k] = v }
unfoldable pub set_fields : Facts → Facts → Facts
set_fields m [] = m
set_fields m ((k, v) ∷ fields) = set_fields (set_field k v m) fields

unfoldable pub first_response : Outcome → Facts
first_response out = set_fields (set_fields (set_fields [] out.facts) out.first_only) out.view

abbrev pub is_enabled_account : Option AccountRow → Bool
is_enabled_account none = false
is_enabled_account (some a) = a.is_enabled

-- `requireActiveAccount`
unfoldable pub require_active_account : ℕ → Tx Rooms (Unit {0})
require_active_account bot_id = do
  db ← get_rooms
  fail_if (not (is_enabled_account (lookup bot_id db.accounts))) unauthorized

unfoldable pub same_request : String → String → String → Bool
same_request request_hash legacy_hash stored =
    str_eq stored request_hash || (not (str_eq legacy_hash "") && str_eq stored legacy_hash)

-- the receipt that stands, or a conflict
unfoldable pub answer_stored : Bool → IdempotencyRow → Tx Rooms Facts
answer_stored same r = if same then pure r.result_snapshot else fail idempotency_conflict

-- `IsUniqueViolation`
unfoldable pub is_unique_violation : Err → Bool
is_unique_violation unique_violation = true
is_unique_violation _ = false

-- A request of the same key that committed first answers after a rollback to `before`.
unfoldable pub resolve : Bool → Option IdempotencyRow → (String → Bool) → Tx Rooms Facts
resolve true (some r) same = answer_stored (same r.request_hash) r
resolve true none same = fail internal_error
resolve false stored same = fail internal_error

unfoldable pub settle :
    (String → Bool)
    → Option IdempotencyRow
    → Facts
    → Rooms
    → Result ((Unit {0}) × Rooms)
    → Result (Facts × Rooms)
settle same stored response before (ok (_, db)) = ok (response, db)
settle same stored response before (err e) = resolve (is_unique_violation e) stored same before

unfoldable pub store_receipt :
    ℕ → String → String → String → (String → Bool) → Rooms → Outcome → Tx Rooms Facts
store_receipt bot_id tool key request_hash same before out db =
    if str_eq key ""
    then ok (first_response out, db)
    else settle same (find_thread_idempotency bot_id tool key before) (first_response out) before
        (insert_thread_idempotency bot_id tool key request_hash out.facts db)

unfoldable pub answer :
    Option IdempotencyRow
    → ℕ
    → String
    → String
    → String
    → (String → Bool)
    → Tx Rooms Outcome
    → Tx Rooms Facts
answer (some r) bot_id tool key request_hash same work = answer_stored (same r.request_hash) r
answer none bot_id tool key request_hash same work = do
  before ← get_rooms
  out ← work
  store_receipt bot_id tool key request_hash same before out

-- `runThreadActionCompat`
unfoldable pub run_thread_action_compat :
    ℕ → String → String → String → String → Tx Rooms Outcome → Tx Rooms Facts
run_thread_action_compat bot_id tool key request_hash legacy_hash work = do
  require_active_account bot_id
  db ← get_rooms
  answer (if str_eq key "" then none else find_thread_idempotency bot_id tool key db) bot_id tool
      key request_hash (same_request request_hash legacy_hash) work

-- `runThreadAction`
unfoldable pub run_thread_action : ℕ → String → String → String → Tx Rooms Outcome → Tx Rooms Facts
run_thread_action bot_id tool key request_hash work =
    run_thread_action_compat bot_id tool key request_hash "" work
