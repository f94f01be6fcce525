-- ===== src/Audit/Primitives.antt =====
-- The effect of each primitive of the repository and of the ledger on what the audit reads.
use kungfu.Base.{
  ℕ, ◌+◌, ◌≤◌, ◌≡◌, refl, Bool, true, false, Option, some, ◌==◌, lookup, arith, ℤ, pos, pos_part,
  ltb_ℤ,
}
use kungfu.Tx.{
  Ensures, holds, Ensures-ok, Ensures-or_fail, Ensures-fail_if, Ensures-call, Ensures-if,
  Ensures-wrap, Ensures_elim,
}
use kungfu.Tables.{Db, TaskRow, LedgerType, Ref}
use kungfu.Credits.{record_entry, record_credits}
use kungfu.Repository.{
  positive, available, release_task_reservation, reserve_task_amount, settle_task_submission,
  refund_task_available, bump_budget_locked, add_budget,
}
use kungfu.Audit.Sums.{counter_at, counter_at_self}
use kungfu.Audit.Moves.{
  Effect, positive_part, positive_pos, positive-pos, Effect-zero, task_change, task_update-Effect,
  Untouched, Effect-Untouched,
}

-- Room for `n` more in the budget of a task.
pub record HasRoom (task_id n : ℕ) (db : Db) : Type 0 where
  pub fits :
      counter_at (λ t. t.settled) task_id db.tasks
        + counter_at (λ t. t.reserved) task_id db.tasks
        + counter_at (λ t. t.refunded) task_id db.tasks
        + n
      ≤ counter_at (λ t. t.budget_locked) task_id db.tasks

pub record_entry-Untouched :
    (bot_id : ℕ) (ty : LedgerType) (amount : ℤ) (ref : Option Ref) (b : Bool) (db : Db)
    → Ensures (λ _ db'. Untouched db db') (record_entry bot_id ty amount ref b db)
unfolding record_entry
record_entry-Untouched bot_id ty amount ref b db = Ensures-ok _ _ _ (
    Ensures-or_fail _ _ _ _ λ bot e. Ensures-or_fail _ _ _ _ λ v e'. Ensures-fail_if _ _ _ _ λ g.
      Ensures-ok _ _ _
        (holds (record { same_tasks = refl; same_claims = refl; same_submissions = refl })))

pub record_credits-Untouched :
    (bot_id : ℕ) (ty : LedgerType) (amount : ℤ) (ref : Option Ref) (db : Db)
    → Ensures (λ _ db'. Untouched db db') (record_credits bot_id ty amount ref db)
unfolding record_credits
record_credits-Untouched bot_id ty amount ref db =
    Ensures-if (ltb_ℤ amount (pos 0)) _ _ _
      (λ _. record_entry-Untouched bot_id ty amount ref false db)
      (λ _. record_entry-Untouched bot_id ty amount ref true db)

pub release_task_reservation-Effect :
    (task_id : ℕ) (amount : ℤ) (db : Db)
    → Ensures
        (λ _ db'. Effect (task_change task_id 0 0 0 (pos_part amount) 0) db db')
        (release_task_reservation task_id amount db)
unfolding release_task_reservation
release_task_reservation-Effect task_id amount db = Ensures-or_fail _ _ _ _ λ n p.
    Ensures-ok _ _ _ (
      Ensures-or_fail _ _ _ _ λ t e. Ensures-fail_if _ _ _ _ λ g. holds (
        task_update-Effect task_id _ t db e 0 0 0 (pos_part amount) 0 (omega arith) (omega arith)
          (ground (arith, positive_part amount n p)) (omega arith)))

room_of :
    (task_id n : ℕ) (amount : ℤ) (t : TaskRow) (db : Db)
    → positive amount ≡ some n
    → lookup task_id db.tasks ≡ some t
    → n ≤ available t
    → HasRoom task_id (pos_part amount) db
room_of task_id n amount t db p e h = record {
  fits = omega (
    arith,
    positive_part amount n p,
    positive_pos amount n p,
    counter_at_self (λ t. t.settled) task_id t db.tasks e,
    counter_at_self (λ t. t.reserved) task_id t db.tasks e,
    counter_at_self (λ t. t.refunded) task_id t db.tasks e,
    counter_at_self (λ t. t.budget_locked) task_id t db.tasks e,
  );
}

pub reserve_task_amount-Effect :
    (task_id : ℕ) (amount : ℤ) (db : Db)
    → Ensures
        (λ _ db'.
          Effect (task_change task_id 0 0 (pos_part amount) 0 0) db db'
          × HasRoom task_id (pos_part amount) db)
        (reserve_task_amount task_id amount db)
unfolding reserve_task_amount
reserve_task_amount-Effect task_id amount db = Ensures-or_fail _ _ _ _ λ n p. Ensures-ok _ _ _ (
    Ensures-or_fail _ _ _ _ λ t e. Ensures-fail_if _ _ _ _ λ g. holds (
      task_update-Effect task_id _ t db e 0 0 (pos_part amount) 0 0 (omega arith) (omega arith)
          (ground (arith, positive_part amount n p)) (omega arith),
      room_of task_id n amount t db p e (ground arith),
    ))

pub settle_task_submission-Effect :
    (task_id submission_id agent_id : ℕ) (amount : ℤ) (db : Db)
    → Ensures
        (λ _ db'. Effect (task_change task_id 0 (pos_part amount) 0 (pos_part amount) 0) db db')
        (settle_task_submission task_id submission_id agent_id amount db)
unfolding settle_task_submission
settle_task_submission-Effect task_id submission_id agent_id amount db =
    Ensures-or_fail _ _ _ _ λ n p. Ensures-ok _ _ _ (
      Ensures-or_fail _ _ _ _ λ t e. Ensures-fail_if _ _ _ _ λ g. Ensures-ok _ _ _ (
        Ensures-wrap _ _ λ v db' r. holds (
          Effect-Untouched _
            (task_update-Effect task_id _ t db e 0 (pos_part amount) 0 (pos_part amount) 0
              (omega arith) (ground (arith, positive_part amount n p))
              (ground (arith, positive_part amount n p)) (omega arith))
            (Ensures_elim _ (record_credits-Untouched agent_id _ (pos n) _ _) r))))

pub add_budget-Effect :
    (ty : LedgerType) (task_id publisher_id : ℕ) (amount : ℤ) (db : Db)
    → Ensures
        (λ _ db'. Effect (task_change task_id (pos_part amount) 0 0 0 0) db db')
        (add_budget ty task_id publisher_id amount db)
unfolding add_budget bump_budget_locked
add_budget-Effect ty task_id publisher_id amount db = Ensures-or_fail _ _ _ _ λ n p.
    Ensures-call _ _ λ _ db₁ b. Ensures-wrap _ _ λ v db' r. holds (
      Effect-Untouched _ (Ensures_elim _ (bumped n p) b)
        (Ensures_elim _ (record_credits-Untouched publisher_id _ _ _ _) r))
  where
    bumped :
        (n : ℕ)
        → positive amount ≡ some n
        → Ensures
            (λ _ db'. Effect (task_change task_id (pos_part amount) 0 0 0 0) db db')
            (bump_budget_locked task_id n db)
    bumped n p = Ensures-ok _ _ _ (
        Ensures-or_fail _ _ _ _ λ t e. Ensures-fail_if _ _ _ _ λ g. holds (
          task_update-Effect task_id _ t db e (pos_part amount) 0 0 0 0
            (ground (arith, positive_part amount n p)) (omega arith) (omega arith) (omega arith)))

-- Nothing is refunded beyond what the budget has left.
pub refund_task_available-Effect :
    (task_id publisher_id : ℕ) (db : Db)
    → Ensures
        (λ n db'. Effect (task_change task_id 0 0 0 0 n) db db' × (1 ≤ n → HasRoom task_id n db))
        (refund_task_available task_id publisher_id db)
unfolding refund_task_available
refund_task_available-Effect task_id publisher_id db = Ensures-ok _ _ _ (
    Ensures-or_fail _ _ _ _ λ t e.
      Ensures-if (available t == 0) _ _ _
        (λ z. holds (Effect-zero task_id db, λ h. absurd (omega arith)))
        λ z. Ensures-ok _ _ _ (
          Ensures-wrap _ _ λ v db' r. holds (
            Effect-Untouched _
                (task_update-Effect task_id _ t db e 0 0 0 0 (available t) (omega arith)
                  (omega arith) (omega arith) (omega arith))
                (Ensures_elim _ (record_credits-Untouched publisher_id _ _ _ _) r),
            λ h.
                room_of task_id (available t) (pos (available t)) t db (positive-pos _ h) e
                  (omega arith),
          )))
