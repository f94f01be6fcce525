-- ===== src/Thread/Seam.antt =====
-- The idempotency seam of internal/service/thread_kernel.go, around any work: it keeps what the work
-- keeps, and a repeated request is answered from the receipt.
use kungfu.Base.{ℕ, String, refl, Bool, true, false, Option, none, some, List, Bool-cases, inl, inr}
use kungfu.Tx.{
  Tx, Result, ok, err, Ensures, holds, failed, Ensures-after, Ensures-fail_if, Ensures_elim, after,
}
use kungfu.Thread.{Rooms, Facts, IdempotencyRow}
use kungfu.Thread.Store.{insert_thread_idempotency}
use kungfu.Thread.Replay.{
  Outcome, run_thread_action_compat, answer, answer_stored, settle, resolve, store_receipt,
  require_active_account, is_unique_violation,
}
use package.text.Mathlib.Text.{◌==◌ as str_eq}

-- A property of the database that the receipts of requests do not touch.
module _ (I : Rooms → Type 0)
    (stable : (db : Rooms) (rows : List IdempotencyRow)
      → I db
      → I (record db { idempotency = rows })) where
  answer_stored-Keeps :
      (same : Bool) (r : IdempotencyRow) (db : Rooms)
      → I db
      → Ensures (λ _ s. I s) (answer_stored same r db)
  unfolding answer_stored
  answer_stored-Keeps true r db v = holds v
  answer_stored-Keeps false r db v = failed

  resolve-Keeps :
      (lost : Bool) (stored : Option IdempotencyRow) (same : String → Bool) (db : Rooms)
      → I db
      → Ensures (λ _ s. I s) (resolve lost stored same db)
  unfolding resolve
  resolve-Keeps true (some r) same db v = answer_stored-Keeps _ r db v
  resolve-Keeps true none same db v = failed
  resolve-Keeps false stored same db v = failed

  settle-Keeps :
      (same : String → Bool) (stored : Option IdempotencyRow) (response : Facts) (before : Rooms)
      (r : Result ((Unit {0}) × Rooms))
      → I before
      → Ensures (λ _ s. I s) r
      → Ensures (λ _ s. I s) (settle same stored response before r)
  unfolding settle
  settle-Keeps same stored response before (ok (_, db)) v k =
      holds (Ensures_elim (ok (_, db)) k refl)
  settle-Keeps same stored response before (err e) v k =
      resolve-Keeps (is_unique_violation e) stored same before v

  store_receipt-Keeps :
      (bot_id : ℕ) (tool key request_hash : String) (same : String → Bool) (before : Rooms)
      (out : Outcome) (db : Rooms)
      → I before
      → I db
      → Ensures (λ _ s. I s) (store_receipt bot_id tool key request_hash same before out db)
  unfolding store_receipt insert_thread_idempotency after
  store_receipt-Keeps bot_id tool key request_hash same before out db v w =
      elim (Bool-cases (str_eq key "")) [
        | inl y ↦ rw y (holds w)
        | inr n ↦
            rw n (
              settle-Keeps same _ _ before _ v (Ensures-fail_if _ _ _ _ λ g. holds (stable db _ w)))
      ]

  answer-Keeps :
      (stored : Option IdempotencyRow) (bot_id : ℕ) (tool key request_hash : String)
      (same : String → Bool) (work : Tx Rooms Outcome)
      → ((db : Rooms) → I db → Ensures (λ _ s. I s) (work db))
      → (db : Rooms) → I db
      → Ensures (λ _ s. I s) (answer stored bot_id tool key request_hash same work db)
  unfolding answer after
  answer-Keeps (some r) bot_id tool key request_hash same work works db v =
      answer_stored-Keeps _ r db v
  answer-Keeps none bot_id tool key request_hash same work works db v =
      Ensures-after _ _ (works db v)
        λ out s w. store_receipt-Keeps bot_id tool key request_hash same db out s v w

  pub run_thread_action-Keeps :
      (bot_id : ℕ) (tool key request_hash legacy_hash : String) (work : Tx Rooms Outcome)
      → ((db : Rooms) → I db → Ensures (λ _ s. I s) (work db))
      → (db : Rooms) → I db
      → Ensures
          (λ _ s. I s)
          (run_thread_action_compat bot_id tool key request_hash legacy_hash work db)
  unfolding run_thread_action_compat require_active_account after
  run_thread_action-Keeps bot_id tool key request_hash legacy_hash work works db v =
      Ensures-fail_if _ _ _ _ λ g. answer-Keeps _ bot_id tool key request_hash _ work works db v
