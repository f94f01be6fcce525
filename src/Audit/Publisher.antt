-- ===== src/Audit/Publisher.antt =====
-- internal/service/task_publisher.go: the operations on a task and the audit's equations.
use kungfu.Base.{ℕ, zero, suc, ◌≤◌, ◌≡◌, refl, Option, none, some, arith, ◌==◌, ℤ, pos_part, String}
use kungfu.Task.{TaskEvent, Contract, ContractChecks}
use kungfu.Tx.{
  Result, ok, err, Ensures, holds, failed, Ensures-ok, Ensures-or_fail, Ensures-fail_if,
  Ensures-call, Ensures-mask, Ensures-if, Ensures_elim, Ensures-last, Ensures-last_masked,
  or_fail-same,
}
use kungfu.Tables.{Db, TaskRow}
use kungfu.Repository.{find_task_by_code, lock_task_budget, fund_task_budget}
use kungfu.Service.Limits.{require_owner_or_audience}
use kungfu.Service.Publisher.{
  lock_owned_task, lock_any_task, apply_status_change, fund_task, refund_task, open_task,
  update_task, create_task, money_failed, lock_for,
}
use kungfu.Audit.Sums.{IsBalanced, share_zero}
use kungfu.Audit.Moves.{Effect, Effect-Untouched, task_change}
use kungfu.Audit.Primitives.{HasRoom, add_budget-Effect, refund_task_available-Effect}
use kungfu.Audit.Rows.{
  apply_task_status-Effect, replace_task_contract-Effect, insert_task-Effect,
  insert_task_audience-Untouched,
}
use kungfu.Audit.Balance.{Effect-IsBalanced, HasRoom-share, zero-IsBalanced, still-IsBalanced}

require_owner-same :
    (task_id : ℕ) (t : TaskRow) (caller_id : ℕ) (db : Db)
    → Ensures (λ _ db'. db' ≡ db) (require_owner_or_audience task_id t caller_id db)
unfolding require_owner_or_audience
require_owner-same task_id t caller_id db =
    Ensures-if (t.publisher_id == caller_id) _ _ _ (λ _. holds refl)
      λ _. Ensures-call _ _ λ u s e. failed

-- A lock writes nothing, and answers with the row that the code finds.
pub lock_owned_task-same :
    (publisher_id : ℕ) (code : String) (db : Db)
    → Ensures
        (λ r db'. (db' ≡ db) × (find_task_by_code code db ≡ some r))
        (lock_owned_task publisher_id code db)
unfolding lock_owned_task
lock_owned_task-same publisher_id code db = Ensures-ok _ _ _ (
    Ensures-or_fail _ _ _ _ λ (task_id, t) found.
      Ensures-call _ _
        λ u db' e. holds (Ensures_elim _ (require_owner-same task_id t publisher_id db) e, found))

pub lock_for-same :
    (publisher : Option ℕ) (code : String) (db : Db)
    → Ensures
        (λ r db'. (db' ≡ db) × (find_task_by_code code db ≡ some r))
        (lock_for publisher code db)
unfolding lock_any_task
lock_for-same (some id) code db = lock_owned_task-same id code db
lock_for-same none code db =
    Ensures-ok _ _ _ (Ensures-last _ λ r db' e. or_fail-same _ _ db r db' e)

pub apply_status_change-IsBalanced :
    (code : String) (publisher : Option ℕ) (event : TaskEvent) (reason : Option String) (db : Db)
    → IsBalanced db
    → Ensures (λ _ db'. IsBalanced db') (apply_status_change code publisher event reason db)
unfolding apply_status_change
apply_status_change-IsBalanced code publisher event reason db b =
    Ensures-call _ _ λ (task_id, t) db₁ e₁.
      let (same, found) = Ensures_elim _ (lock_for-same publisher code db) e₁ in
      let b₁ : IsBalanced db₁ = rw same b in
      Ensures-or_fail _ _ _ _ λ to st. Ensures-last_masked _ _ λ u db₂ e₂.
        zero-IsBalanced task_id b₁
          (Ensures_elim _ (apply_task_status-Effect task_id t.status event reason db₁) e₂)

-- Budget is added.
added-IsBalanced :
    (task_id n : ℕ) {db db' : Db}
    → IsBalanced db
    → Effect (task_change task_id n 0 0 0 0) db db'
    → IsBalanced db'
added-IsBalanced task_id n b e =
    Effect-IsBalanced b e (λ k. omega (arith, share_zero k task_id))
      (λ k. omega (arith, b.within k, share_zero k task_id))

money_ok :
    (r : Result (Unit {0} × Db)) (db : Db) (u : Unit {0})
    → money_failed r ≡ ok (u, db)
    → r ≡ ok (u, db)
money_ok (ok p) db u e = e
money_ok (err x) db u e = absurd (ground arith)

pub fund_task-IsBalanced :
    (publisher_id : ℕ) (code : String) (amount : ℤ) (db : Db)
    → IsBalanced db
    → Ensures (λ _ db'. IsBalanced db') (fund_task publisher_id code amount db)
unfolding fund_task fund_task_budget
fund_task-IsBalanced publisher_id code amount db b = Ensures-fail_if _ _ _ _ λ g.
    Ensures-fail_if _ _ _ _ λ m. Ensures-call _ _ λ (task_id, t) db₁ e₁.
      let (same, found) = Ensures_elim _ (lock_owned_task-same publisher_id code db) e₁ in
      let b₁ : IsBalanced db₁ = rw same b in
      Ensures-fail_if _ _ _ _ λ c. Ensures-fail_if _ _ _ _ λ l. Ensures-last _ λ u db₂ e₂.
        added-IsBalanced task_id (pos_part amount) b₁ (
          Ensures_elim _ (add_budget-Effect _ task_id publisher_id amount db₁)
            (money_ok _ db₂ u e₂))

refunded-IsBalanced :
    (task_id n : ℕ) {db db' : Db}
    → IsBalanced db
    → Effect (task_change task_id 0 0 0 0 n) db db'
    → (1 ≤ n → HasRoom task_id n db)
    → IsBalanced db'
refunded-IsBalanced task_id zero b e room = zero-IsBalanced task_id b e
refunded-IsBalanced task_id (suc n) {db} b e room =
    Effect-IsBalanced b e (λ k. omega (arith, share_zero k task_id))
      (λ k.
        omega
          (arith, HasRoom-share task_id (suc n) k db b (room (omega arith)), share_zero k task_id))

pub refund_task-IsBalanced :
    (publisher_id : ℕ) (code : String) (db : Db)
    → IsBalanced db
    → Ensures (λ _ db'. IsBalanced db') (refund_task publisher_id code db)
unfolding refund_task
refund_task-IsBalanced publisher_id code db b = Ensures-call _ _ λ (task_id, t) db₁ e₁.
    let (same, found) = Ensures_elim _ (lock_owned_task-same publisher_id code db) e₁ in
    let b₁ : IsBalanced db₁ = rw same b in
    Ensures-fail_if _ _ _ _ λ c. Ensures-fail_if _ _ _ _ λ r. Ensures-fail_if _ _ _ _ λ z.
      Ensures-mask _ _ _ λ n db₂ e₂.
        let (e, room) = Ensures_elim _ (refund_task_available-Effect task_id publisher_id db₁) e₂ in
        holds (refunded-IsBalanced task_id n b₁ e room)

module _ (checks : ContractChecks) where
  pub open_task-IsBalanced :
      (publisher_id : ℕ) (code : String) (db : Db)
      → IsBalanced db
      → Ensures (λ _ db'. IsBalanced db') (open_task checks publisher_id code db)
  unfolding open_task
  open_task-IsBalanced publisher_id code db b = Ensures-call _ _ λ (task_id, t) db₁ e₁.
      let (same, found) = Ensures_elim _ (lock_owned_task-same publisher_id code db) e₁ in
      let b₁ : IsBalanced db₁ = rw same b in
      Ensures-fail_if _ _ _ _ λ c. Ensures-ok _ _ _ (
        Ensures-fail_if _ _ _ _ λ h. Ensures-last_masked _ _ λ u db₂ e₂.
          zero-IsBalanced task_id b₁
            (Ensures_elim _ (apply_task_status-Effect task_id t.status _ none db₁) e₂))

  pub update_task-IsBalanced :
      (publisher_id : ℕ) (code : String) (contract : Contract) (db : Db)
      → IsBalanced db
      → Ensures (λ _ db'. IsBalanced db') (update_task checks publisher_id code contract db)
  unfolding update_task
  update_task-IsBalanced publisher_id code contract db b = Ensures-fail_if _ _ _ _ λ c.
      Ensures-ok _ _ _ (
        Ensures-fail_if _ _ _ _ λ h. Ensures-call _ _ λ (task_id, t) db₁ e₁.
          let (same, found) = Ensures_elim _ (lock_owned_task-same publisher_id code db) e₁ in
          let b₁ : IsBalanced db₁ = rw same b in
          Ensures-fail_if _ _ _ _ λ p. Ensures-fail_if _ _ _ _ λ a. Ensures-mask _ _ _ λ v db₂ e₂.
            holds (
              zero-IsBalanced task_id b₁ (
                Ensures_elim _ (replace_task_contract-Effect task_id t.contract_version _ db₁) e₂)))

  pub create_task-IsBalanced :
      (publisher_id : ℕ) (code : String) (contract : Contract) (budget : ℤ) (db : Db)
      → IsBalanced db
      → Ensures (λ _ db'. IsBalanced db') (create_task checks publisher_id code contract budget db)
  unfolding create_task lock_task_budget
  create_task-IsBalanced publisher_id code contract budget db b = Ensures-fail_if _ _ _ _ λ c.
      Ensures-fail_if _ _ _ _ λ p. Ensures-fail_if _ _ _ _ λ m. Ensures-ok _ _ _ (
        Ensures-or_fail _ _ _ _ λ bot e. Ensures-fail_if _ _ _ _ λ i. Ensures-fail_if _ _ _ _ λ h.
          Ensures-or_fail _ _ _ _ λ ids a. Ensures-mask _ _ _ λ task_id db₁ e₁.
            Ensures-mask _ _ _ λ u db₂ e₂. Ensures-call _ _ λ v db₃ e₃.
              let born =
                Effect-Untouched db₂ (Ensures_elim _ (insert_task-Effect code publisher_id _ db) e₁)
                  (Ensures_elim _ (insert_task_audience-Untouched task_id ids db₁) e₂) in
              let paid =
                Ensures_elim _ (add_budget-Effect _ task_id publisher_id budget db₂)
                  (money_ok _ db₃ v e₃) in
              holds (added-IsBalanced task_id (pos_part budget) (still-IsBalanced b born) paid))
