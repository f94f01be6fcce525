-- ===== src/Thread/Repeats.antt =====
-- A request that comes again: internal/service/thread_kernel.go, `runThreadActionCompat`.
use kungfu.Base.{
  ℕ, String, ◌≡◌, refl, ◌∙◌, Bool, true, false, none, some, if◌then◌else◌, lookup, find, Bool-cases,
  Option-cases, inl, inr, eq_refl as ℕ_eq_refl,
}
use kungfu.Tx.{
  Tx, ok, err, idempotency_conflict, Ensures, holds, failed, Ensures-call, Ensures-fail_if,
  Ensures_elim, after, running,
}
use kungfu.Thread.{Rooms, Facts, IdempotencyRow}
use kungfu.Thread.Store.{
  insert_thread_idempotency, find_thread_idempotency, answers_request, receipt_row,
}
use kungfu.Thread.Replay.{
  Outcome, run_thread_action_compat, answer, answer_stored, settle, resolve, store_receipt,
  require_active_account, is_unique_violation, first_response, same_request, is_enabled_account,
}
use package.text.Mathlib.Text.{◌==◌ as str_eq}
use package.text.Mathlib.TextPositions.{eq_refl}

abbrev pub account_active : ℕ → Rooms → Bool
account_active bot_id db = is_enabled_account (lookup bot_id db.accounts)

-- A receipt that stands answers: the same request by its facts, another one by a conflict.
pub answer_repeated :
    (bot_id : ℕ) (tool key request_hash legacy_hash : String) (work : Tx Rooms Outcome) (db : Rooms)
    (r : IdempotencyRow)
    → account_active bot_id db ≡ true
    → str_eq key "" ≡ false
    → find_thread_idempotency bot_id tool key db ≡ some r
    → run_thread_action_compat bot_id tool key request_hash legacy_hash work db ≡ (
        if same_request request_hash legacy_hash r.request_hash
        then ok (r.result_snapshot, db)
        else err idempotency_conflict)
unfolding run_thread_action_compat require_active_account answer answer_stored running
answer_repeated bot_id tool key request_hash legacy_hash work db r a k f =
    elim (Bool-cases (same_request request_hash legacy_hash r.request_hash)) [
      | inl y ↦ rw (a, k, f, y) refl
      | inr n ↦ rw (a, k, f, n) refl
    ]

-- what a first success leaves: the work's outcome, and its receipt
abbrev IsReceipted :
    ℕ → String → String → String → Tx Rooms Outcome → Rooms → Facts → Rooms → Type 0
IsReceipted bot_id tool key request_hash work db response s =
    (out : Outcome) × (s' : Rooms) × (work db ≡ ok (out, s'))
    × (response ≡ first_response out)
    × (r : IdempotencyRow) × (find_thread_idempotency bot_id tool key s ≡ some r)
    × (r.request_hash ≡ request_hash)
    × (r.result_snapshot ≡ out.facts)

module _ (bot_id : ℕ) (tool key request_hash : String) (work : Tx Rooms Outcome)
    (k : str_eq key "" ≡ false) where
  settle-IsReceipted :
      (legacy_hash : String) (before s' : Rooms) (out : Outcome)
      → work before ≡ ok (out, s')
      → Ensures (IsReceipted bot_id tool key request_hash work before) (
          settle
            (same_request request_hash legacy_hash)
            none
            (first_response out)
            before
            (insert_thread_idempotency bot_id tool key request_hash out.facts s'))
  unfolding insert_thread_idempotency find_thread_idempotency settle resolve is_unique_violation
      running find answers_request
  settle-IsReceipted legacy_hash before s' out w =
      elim (Option-cases (find (answers_request bot_id tool key) s'.idempotency)) [
        | inl e ↦ rw e (
            holds (
              out,
              s',
              w,
              refl,
              receipt_row bot_id tool key request_hash out.facts s'.now,
              rw (ℕ_eq_refl bot_id, eq_refl tool, eq_refl key) refl,
              refl,
              refl,
            ))
        | inr (r, e) ↦ rw e failed
      ]

  stored :
      (legacy_hash : String) (db s' : Rooms) (out : Outcome)
      → work db ≡ ok (out, s')
      → find_thread_idempotency bot_id tool key db ≡ none
      → Ensures (IsReceipted bot_id tool key request_hash work db) (
          store_receipt bot_id tool key request_hash
            (same_request request_hash legacy_hash)
            db
            out
            s')
  unfolding store_receipt
  stored legacy_hash db s' out w f = rw (k, f) (settle-IsReceipted legacy_hash db s' out w)

  pub first-IsReceipted :
      (legacy_hash : String) (db : Rooms)
      → find_thread_idempotency bot_id tool key db ≡ none
      → Ensures
          (IsReceipted bot_id tool key request_hash work db)
          (run_thread_action_compat bot_id tool key request_hash legacy_hash work db)
  unfolding run_thread_action_compat require_active_account answer after
  first-IsReceipted legacy_hash db f =
      Ensures-fail_if _ _ _ _
        λ g. rw (k, f) (Ensures-call (work db) _ λ out s' w. stored legacy_hash db s' out w f)

same_request_refl :
    (request_hash legacy : String) → same_request request_hash legacy request_hash ≡ true
unfolding same_request
same_request_refl request_hash legacy = rw (eq_refl request_hash) refl

-- the first call ran the work, and every later one with the key is answered from its receipt
abbrev pub IsAnsweredAlike :
    ℕ → String → String → String → String → Tx Rooms Outcome → Rooms → Rooms → Facts → Type 0
IsAnsweredAlike bot_id tool key request_hash legacy_hash work db db₁ response =
    (out : Outcome) × (s : Rooms) × (work db ≡ ok (out, s))
    × (response ≡ first_response out)
    × ((again : Tx Rooms Outcome) (legacy : String)
        → run_thread_action_compat bot_id tool key request_hash legacy again db₁
          ≡ ok (out.facts, db₁))
    × ((again : Tx Rooms Outcome) (other legacy : String)
        → same_request other legacy request_hash ≡ false
        → run_thread_action_compat bot_id tool key other legacy again db₁
          ≡ err idempotency_conflict)

-- If a keyed request succeeds and left no receipt before, its work ran once and succeeded, and its
-- answer is the first response of that work's outcome. Whoever then, while the account is active,
-- calls the same tool again with that key and the same request gets the stored facts of the first
-- outcome, and the database stays as it is, whatever work the second call carries; with a request
-- that has another identity the second call is IDEMPOTENCY_CONFLICT.
pub run_thread_action-twice :
    (bot_id : ℕ) (tool key request_hash legacy_hash : String) (work : Tx Rooms Outcome)
    (db db₁ : Rooms) (response : Facts)
    → str_eq key "" ≡ false
    → find_thread_idempotency bot_id tool key db ≡ none
    → run_thread_action_compat bot_id tool key request_hash legacy_hash work db ≡ ok (response, db₁)
    → account_active bot_id db₁ ≡ true
    → IsAnsweredAlike bot_id tool key request_hash legacy_hash work db db₁ response
run_thread_action-twice bot_id tool key request_hash legacy_hash work db db₁ response k f h a =
    let (out, s, w, e, r, g, x, y) =
      Ensures_elim _ (first-IsReceipted bot_id tool key request_hash work k legacy_hash db f) h in
    (
      out,
      s,
      w,
      e,
      (λ again legacy.
          answer_repeated bot_id tool key request_hash legacy again db₁ r a k g
          ∙ rw (x, y, same_request_refl request_hash legacy) refl),
      (λ again other legacy n.
          answer_repeated bot_id tool key other legacy again db₁ r a k g ∙ rw (x, n) refl),
    )
