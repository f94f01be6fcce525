-- ===== src/Service/Publisher.antt =====
-- internal/service/task_publisher.go: the publisher's operations, and the status core that the
-- platform close of task_governance.go shares.
use text.Mathlib.Text.{◌==◌ as str_eq}
use Prim.Native.Nat.{Ordering}
use Prim.Native.String
use kungfu.Base.{
  ℕ, String, Bool, true, false, ◌&&◌, not, Option, none, some, List, [], ◌∷◌, ◌==◌, ltb,
  if◌then◌else◌, lookup, first, is_some, ℤ, pos, leb_ℤ, ltb_ℤ, ◌+ℤ◌,
}
use kungfu.Task.{
  task_paused, task_closed, TaskEvent, event_open, event_pause, event_close, task_transition,
  same_task_status, Contract, Audience, AudienceType, audience_open, audience_restricted,
  with_defaults, validate_contract, ContractChecks, max_amount, Field,
}
use kungfu.Tx.{
  Tx, Err, Result, ok, err, ◌>>=◌, ◌>>◌, pure, fail_if, or_fail, mask, internal_error,
  task_not_found, validation_failed, invalid_state, insufficient_credits, has_reservations,
  nothing_to_refund,
}
use kungfu.Tables.{Db, TaskRow, BotRow}
use kungfu.Repository.{
  find_task_by_code, insert_task, insert_task_audience, replace_task_contract, apply_task_status,
  lock_task_budget, fund_task_budget, refund_task_available, available,
}
use kungfu.Service.Limits.{require_owner_or_audience, find_owned_active_kungfu}
use kungfu.Service.Claim.{get_db}

-- `lockOwnedTask`
unfoldable pub lock_owned_task : ℕ → String → Tx Db (ℕ × TaskRow)
lock_owned_task publisher_id code = do
  db ← get_db
  (task_id, t) ← or_fail (find_task_by_code code db) task_not_found
  require_owner_or_audience task_id t publisher_id
  pure (task_id, t)

-- `lockAnyTask`
unfoldable pub lock_any_task : String → Tx Db (ℕ × TaskRow)
lock_any_task code = do db ← get_db; or_fail (find_task_by_code code db) task_not_found

-- `validateHarnessRefs`
unfoldable pub all_owned : ℕ → List String → Db → Bool
all_owned publisher_id [] db = true
all_owned publisher_id (ref ∷ refs) db =
    is_some (find_owned_active_kungfu publisher_id ref db) && all_owned publisher_id refs db

abbrev has_errors : List Field → Bool
has_errors [] = false
has_errors (_ ∷ _) = true

abbrev has_name : String → BotRow → Bool
has_name name b = str_eq b.name name

unfoldable pub find_bot_id_by_name : String → Db → Option (ℕ × BotRow)
find_bot_id_by_name name db = first (has_name name) db.bots

-- a name's account, unless it is unknown or the publisher
abbrev seat : ℕ → Option (ℕ × BotRow) → Option ℕ
seat publisher_id none = none
seat publisher_id (some (id, b)) = if id == publisher_id then none else some id

abbrev add_seat : Option ℕ → Option (List ℕ) → Option (List ℕ)
add_seat none o = none
add_seat (some id) none = none
add_seat (some id) (some ids) = some (id ∷ ids)

unfoldable pub resolve_names : ℕ → List String → Db → Option (List ℕ)
unfolding find_bot_id_by_name
resolve_names publisher_id [] db = some []
resolve_names publisher_id (n ∷ ns) db =
    add_seat (seat publisher_id (find_bot_id_by_name n db)) (resolve_names publisher_id ns db)

abbrev resolve_shape : ℕ → AudienceType → List String → Db → Option (List ℕ)
resolve_shape publisher_id audience_open names db = some []
resolve_shape publisher_id audience_restricted names db = resolve_names publisher_id names db

-- `resolveAudience`; `none` is a validation error
unfoldable pub resolve_audience : ℕ → Option Audience → Db → Option (List ℕ)
unfolding resolve_names
resolve_audience publisher_id none db = some []
resolve_audience publisher_id (some a) db = resolve_shape publisher_id a.audience_type a.agents db

abbrev not_after : String → String → Bool
not_after a b = elim (String.compare a b) [ Ordering.gt ↦ false | _ ↦ true ]

unfoldable pub insert_sorted : String → List String → List String
insert_sorted x [] = x ∷ []
insert_sorted x (y ∷ ys) = if not_after x y then x ∷ y ∷ ys else y ∷ insert_sorted x ys

-- sort.Strings
unfoldable pub sort_strings : List String → List String
unfolding insert_sorted
sort_strings [] = []
sort_strings (x ∷ xs) = insert_sorted x (sort_strings xs)

-- `NormalizedAudience`
unfoldable pub normalized_audience : Option Audience → Audience
unfolding sort_strings
normalized_audience none = record { audience_type = audience_open; agents = [] }
normalized_audience (some a) = record {
  audience_type = a.audience_type;
  agents = sort_strings a.agents;
}

-- `marshalContract`
unfoldable pub stored_contract : Contract → Contract
unfolding normalized_audience
stored_contract c =
    let stored = with_defaults c in
    record stored { contract_audience = some (normalized_audience stored.contract_audience) }

abbrev same_names : List String → List String → Bool
same_names [] [] = true
same_names (x ∷ xs) (y ∷ ys) = str_eq x y && same_names xs ys
same_names _ _ = false

abbrev audience_equal_shape : AudienceType → AudienceType → List String → List String → Bool
audience_equal_shape audience_open audience_open xs ys = true
audience_equal_shape audience_restricted audience_restricted xs ys =
    same_names (sort_strings xs) (sort_strings ys)
audience_equal_shape _ _ xs ys = false

-- `AudienceEqual`
unfoldable pub audience_equal : Audience → Audience → Bool
unfolding sort_strings
audience_equal a b = audience_equal_shape a.audience_type b.audience_type a.agents b.agents

-- `isInsufficientCreditsErr`: a type assertion, which does not look into a wrapped error
abbrev is_insufficient_credits_err : Err → Bool
is_insufficient_credits_err insufficient_credits = true
is_insufficient_credits_err _ = false

abbrev pub money_failed : Result (Unit {0} × Db) → Result (Unit {0} × Db)
money_failed (ok p) = ok p
money_failed (err e) =
    if is_insufficient_credits_err e then err insufficient_credits else err internal_error

abbrev money_checked : Tx Db (Unit {0}) → Tx Db (Unit {0})
money_checked m db = money_failed (m db)

-- `applyStatusChange` with no extra writes; no publisher is the platform
abbrev pub lock_for : Option ℕ → String → Tx Db (ℕ × TaskRow)
lock_for none code = lock_any_task code
lock_for (some publisher_id) code = lock_owned_task publisher_id code

unfoldable pub apply_status_change :
    String → Option ℕ → TaskEvent → Option String → Tx Db (Unit {0})
apply_status_change code publisher event reason = do
  (task_id, t) ← lock_for publisher code
  _ ← or_fail (task_transition t.status event) (invalid_state t.status)
  mask internal_error (apply_task_status task_id t.status event reason)

unfoldable pub pause_task : ℕ → String → Tx Db (Unit {0})
pause_task publisher_id code = apply_status_change code (some publisher_id) event_pause none

unfoldable pub close_task : ℕ → String → Tx Db (Unit {0})
close_task publisher_id code = apply_status_change code (some publisher_id) event_close none

unfoldable pub fund_task : ℕ → String → ℤ → Tx Db (Unit {0})
fund_task publisher_id code amount = do
  fail_if (leb_ℤ amount (pos 0)) validation_failed
  fail_if (ltb_ℤ (pos max_amount) amount) validation_failed
  (task_id, t) ← lock_owned_task publisher_id code
  fail_if (same_task_status t.status task_closed) (invalid_state t.status)
  fail_if (ltb_ℤ (pos max_amount) (pos t.budget_locked +ℤ amount)) validation_failed
  money_checked (fund_task_budget task_id publisher_id amount)

unfoldable pub refund_task : ℕ → String → Tx Db (Unit {0})
refund_task publisher_id code = do
  (task_id, t) ← lock_owned_task publisher_id code
  fail_if (not (same_task_status t.status task_closed)) (invalid_state t.status)
  fail_if (ltb 0 t.reserved) (has_reservations t.reserved)
  fail_if (available t == 0) nothing_to_refund
  _ ← mask internal_error (refund_task_available task_id publisher_id)
  pure tt

module _ (checks : ContractChecks) where
  unfoldable pub open_task : ℕ → String → Tx Db (Unit {0})
  open_task publisher_id code = do
    (task_id, t) ← lock_owned_task publisher_id code
    let defaults = with_defaults t.contract
    fail_if (has_errors (validate_contract checks defaults)) validation_failed
    db ← get_db
    fail_if (not (all_owned publisher_id defaults.harness_refs db)) validation_failed
    mask (invalid_state t.status) (apply_task_status task_id t.status event_open none)

  unfoldable pub update_task : ℕ → String → Contract → Tx Db (Unit {0})
  update_task publisher_id code contract = do
    let defaults = with_defaults contract
    fail_if (has_errors (validate_contract checks defaults)) validation_failed
    db ← get_db
    fail_if (not (all_owned publisher_id defaults.harness_refs db)) validation_failed
    (task_id, t) ← lock_owned_task publisher_id code
    fail_if (not (same_task_status t.status task_paused)) (invalid_state t.status)
    fail_if
        (not (
          audience_equal (normalized_audience t.contract.contract_audience)
            (normalized_audience defaults.contract_audience)))
        validation_failed
    _ ←
        mask internal_error
          (replace_task_contract task_id t.contract_version (stored_contract defaults))
    pure tt

  -- `code` is the fresh public code that publiccode.GenerateUnique drew.
  unfoldable pub create_task : ℕ → String → Contract → ℤ → Tx Db ℕ
  create_task publisher_id code contract budget = do
    let defaults = with_defaults contract
    fail_if (has_errors (validate_contract checks defaults)) validation_failed
    fail_if (ltb_ℤ budget defaults.price) validation_failed
    fail_if (ltb_ℤ (pos max_amount) budget) validation_failed
    db ← get_db
    bot ← or_fail (lookup publisher_id db.bots) internal_error
    fail_if (ltb_ℤ bot.balance budget) insufficient_credits
    fail_if (not (all_owned publisher_id defaults.harness_refs db)) validation_failed
    ids ← or_fail (resolve_audience publisher_id defaults.contract_audience db) validation_failed
    task_id ← mask internal_error (insert_task code publisher_id (stored_contract defaults))
    mask internal_error (insert_task_audience task_id ids)
    money_checked (lock_task_budget task_id publisher_id budget)
    pure task_id
