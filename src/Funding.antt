-- ===== src/Funding.antt =====
-- internal/service/task_publisher.go: what adding funds reports.
use kungfu.Base.{
  ℕ, ◌≡◌, refl, Bool, true, false, ◌||◌, Option, none, some, arith, String, lookup, ◌==◌,
  Bool-cases, inl, inr, ℤ,
}
use kungfu.Tx.{
  Tx, Err, Result, ok, err, after, or_fail, fail_if, insufficient_credits, wrap_error, bad_amount,
  no_rows, out_of_range, task_not_found, validation_failed, invalid_state,
}
use kungfu.Tables.{Db, TaskRow}
use kungfu.Repository.{
  find_task_by_code, task_audience_visible, fund_task_budget, add_budget, bump_budget_locked,
  positive,
}
use kungfu.Service.Limits.{require_owner_or_audience, require_task_audience}
use kungfu.Service.Publisher.{lock_owned_task, fund_task, money_failed}

abbrev is_short : Err → Bool
is_short insufficient_credits = true
is_short _ = false

-- whether a result is the error INSUFFICIENT_CREDITS
abbrev pub is_short_result {ℓ} : {A : Type ℓ} → Result A → Bool
is_short_result (ok a) = false
is_short_result (err e) = is_short e

after-not_short :
    {A B S : Type 0} (r : Result (A × S)) (f : A → Tx S B)
    → is_short_result r ≡ false
    → ((a : A) (s : S) → is_short_result (f a s) ≡ false)
    → is_short_result (after r f) ≡ false
unfolding after
after-not_short (ok (a, s)) f h k = k a s
after-not_short (err e) f h k = h

fail_if-not_short :
    {S : Type 0} (b : Bool) (e : Err) (s : S)
    → is_short e ≡ false
    → is_short_result (fail_if b e s) ≡ false
unfolding fail_if
fail_if-not_short true e s h = h
fail_if-not_short false e s h = refl

or_fail-not_short :
    {A S : Type 0} (o : Option A) (e : Err) (s : S)
    → is_short e ≡ false
    → is_short_result (or_fail o e s) ≡ false
unfolding or_fail
or_fail-not_short none e s h = h
or_fail-not_short (some a) e s h = refl

wrap_error-not_short : {A S : Type 0} (r : Result (A × S)) → is_short_result (wrap_error r) ≡ false
unfolding wrap_error
wrap_error-not_short (ok p) = refl
wrap_error-not_short (err e) = refl

money_failed-not_short :
    (r : Result (Unit {0} × Db))
    → is_short_result r ≡ false
    → is_short_result (money_failed r) ≡ false
money_failed-not_short (ok p) h = refl
money_failed-not_short (err x) h = ground arith

fund_task_budget-not_short :
    (task_id publisher_id : ℕ) (amount : ℤ) (db : Db)
    → is_short_result (fund_task_budget task_id publisher_id amount db) ≡ false
unfolding fund_task_budget add_budget bump_budget_locked
fund_task_budget-not_short task_id publisher_id amount db =
    after-not_short _ _ (or_fail-not_short (positive amount) bad_amount db refl) λ n s₁.
      after-not_short _ _
        (after-not_short _ _ refl λ db₂ s₂.
          after-not_short _ _ (or_fail-not_short (lookup task_id db₂.tasks) no_rows s₂ refl)
            λ t s₃. after-not_short _ _ (fail_if-not_short _ out_of_range s₃ refl) λ u s₄. refl)
        λ u s₅. after-not_short _ _ (wrap_error-not_short _) λ v s₆. refl

audience-not_short :
    (task_id : ℕ) (t : TaskRow) (caller_id : ℕ) (db : Db)
    → is_short_result (require_task_audience task_id t caller_id db) ≡ false
unfolding require_task_audience
audience-not_short task_id t caller_id db =
    elim (Bool-cases (t.publisher_id == caller_id || task_audience_visible task_id caller_id db)) [
      | inl y ↦ rw y refl
      | inr n ↦ rw n refl
    ]

owner-not_short :
    (task_id : ℕ) (t : TaskRow) (caller_id : ℕ) (db : Db)
    → is_short_result (require_owner_or_audience task_id t caller_id db) ≡ false
unfolding require_owner_or_audience
owner-not_short task_id t caller_id db = elim (Bool-cases (t.publisher_id == caller_id)) [
  | inl y ↦ rw y refl
  | inr n ↦ rw n (after-not_short _ _ (audience-not_short task_id t caller_id db) λ u s. refl)
]

lock_owned_task-not_short :
    (publisher_id : ℕ) (code : String) (db : Db)
    → is_short_result (lock_owned_task publisher_id code db) ≡ false
unfolding lock_owned_task
lock_owned_task-not_short publisher_id code db = after-not_short _ _ refl λ db₁ s₁.
    after-not_short _ _ (or_fail-not_short (find_task_by_code code db₁) task_not_found s₁ refl)
      λ (task_id, t) s₂.
        after-not_short _ _ (owner-not_short task_id t publisher_id s₂) λ u s₃. refl

-- Adding funds never reports INSUFFICIENT_CREDITS, whatever the publisher's balance: the ledger's
-- error arrives wrapped, and its test does not look inside.
pub fund_task-not_short :
    (publisher_id : ℕ) (code : String) (amount : ℤ) (db : Db)
    → is_short_result (fund_task publisher_id code amount db) ≡ false
unfolding fund_task
fund_task-not_short publisher_id code amount db =
    after-not_short _ _ (fail_if-not_short _ validation_failed db refl) λ u₁ s₁.
      after-not_short _ _ (fail_if-not_short _ validation_failed s₁ refl) λ u₂ s₂.
        after-not_short _ _ (lock_owned_task-not_short publisher_id code s₂) λ (task_id, t) s₃.
          after-not_short _ _ (fail_if-not_short _ (invalid_state t.status) s₃ refl) λ u₄ s₄.
            after-not_short _ _ (fail_if-not_short _ validation_failed s₄ refl) λ u₅ s₅.
              money_failed-not_short _ (fund_task_budget-not_short task_id publisher_id amount s₅)
