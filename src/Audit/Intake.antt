-- ===== src/Audit/Intake.antt =====
-- internal/service/task_submit.go: the intake and the audit's equations.
use kungfu.Base.{
  ℕ, ◌+◌, ◌≤◌, ◌≡◌, refl, Bool, true, false, Option, none, some, arith, ltb, lookup, ℤ, pos_part,
  inl, inr, Keyed,
}
use kungfu.Task.{is_active, claim_active, claim_transition, ClaimStatus, event_claim_use, Contract}
use kungfu.Tx.{
  Result, Result-cases, ok, err, Ensures, holds, Ensures-ok, Ensures-or_fail, Ensures-fail_if,
  Ensures-call, Ensures-mask, Ensures_elim, Ensures-last, fail_if-same,
}
use kungfu.Tables.{Db, Time, TaskRow, ClaimRow}
use kungfu.Repository.{positive}
use kungfu.Service.Accept.{accept, accept_claimless, accept_claimed, check_claim, reserving}
use kungfu.Service.Submit.{
  PayloadChecks, SubmitInput, submit_write, submit_new, submit_work, submit_check, recheck_contract,
  replayed, checked,
}
use kungfu.Service.Deliver.{PostResult, deliver_submission}
use kungfu.Audit.Submissions.{deliver_submission-IsBalanced}
use kungfu.Audit.Sums.{
  share, counter_at, claim_weight, claim_sum, submission_sum, IsBalanced, share_zero,
}
use kungfu.Audit.Moves.{
  Change, still, Effect, Effect-plus, Effect-Untouched, task_change, positive_part,
}
use kungfu.Audit.Primitives.{HasRoom, reserve_task_amount-Effect}
use kungfu.Audit.Rows.{
  claim_change, apply_claim_status-Effect, insert_claim-Effect,
  insert_claim_harness_revisions-Untouched, insert_submission-Effect,
}
use kungfu.Audit.Balance.{HasRoom-share}
use kungfu.Audit.Claims.{check_rejection_limit-same}

-- The intake hands `amount` of the reservation over to a submission of the task.
pub record Hands (task_id amount : ℕ) (db : Db) : Type 0 where
  pub tasks_keyed : Keyed db.tasks
  pub claims_keyed : Keyed db.claims
  pub submissions_keyed : Keyed db.submissions
  pub within :
      (k : ℕ)
      → counter_at (λ t. t.settled) k db.tasks
          + counter_at (λ t. t.reserved) k db.tasks
          + counter_at (λ t. t.refunded) k db.tasks
        ≤ counter_at (λ t. t.budget_locked) k db.tasks
  pub owed :
      (k : ℕ)
      → counter_at (λ t. t.reserved) k db.tasks
        ≡ claim_sum k db.claims + submission_sum k db.submissions + share k task_id amount

Effect-Hands :
    (task_id amount : ℕ) {c : ℕ → Change} {db db' : Db}
    → IsBalanced db
    → Effect c db db'
    → ((k : ℕ)
        → (c k).reserved_up + (c k).claims_down + (c k).submissions_down
          ≡ (c k).reserved_down + (c k).claims_up + (c k).submissions_up + share k task_id amount)
    → ((k : ℕ)
        → counter_at (λ t. t.settled) k db.tasks
            + counter_at (λ t. t.reserved) k db.tasks
            + counter_at (λ t. t.refunded) k db.tasks
            + (c k).settled
            + (c k).reserved_up
            + (c k).refunded
          ≤ counter_at (λ t. t.budget_locked) k db.tasks + (c k).budget + (c k).reserved_down)
    → Hands task_id amount db'
Effect-Hands task_id amount b e even fits = record {
  tasks_keyed = e.keys.tasks_kept b.tasks_keyed;
  claims_keyed = e.keys.claims_kept b.claims_keyed;
  submissions_keyed = e.keys.submissions_kept b.submissions_keyed;
  within = λ k. omega (arith, e.moves k, fits k, b.within k);
  owed = λ k. omega (arith, e.moves k, even k, b.backed k);
}

Hands-IsBalanced :
    (task_id amount : ℕ) {db db' : Db}
    → Hands task_id amount db
    → Effect (λ k. record still { submissions_up = share k task_id amount }) db db'
    → IsBalanced db'
Hands-IsBalanced task_id amount h e = record {
  tasks_keyed = e.keys.tasks_kept h.tasks_keyed;
  claims_keyed = e.keys.claims_kept h.claims_keyed;
  submissions_keyed = e.keys.submissions_kept h.submissions_keyed;
  within = λ k. omega (arith, e.moves k, h.within k);
  backed = λ k. omega (arith, e.moves k, h.owed k);
}

price-Hands :
    (task_id n : ℕ) (price : ℤ) {db db' db'' : Db}
    → positive price ≡ some n
    → IsBalanced db
    → Effect (task_change task_id 0 0 (pos_part price) 0 0) db db'
    → HasRoom task_id (pos_part price) db
    → Effect (λ k. still) db' db''
    → Hands task_id n db''
price-Hands task_id n price {db} p b e room f =
    let same : n ≡ pos_part price = positive_part price n p in
    rw same (
      Effect-Hands task_id (pos_part price) b (Effect-plus e f)
        (λ k. omega (arith, share_zero k task_id))
        (λ k.
          omega (arith, HasRoom-share task_id (pos_part price) k db b room, share_zero k task_id)))

reserving_ok :
    (r : Result (Unit {0} × Db)) (db : Db) (u : Unit {0})
    → reserving r ≡ ok (u, db)
    → r ≡ ok (u, db)
reserving_ok (ok p) db u e = e
reserving_ok (err x) db u e = absurd (ground arith)

accept_claimless-Hands :
    (agent_id task_id : ℕ) (t : TaskRow) (now : Time) (db : Db)
    → IsBalanced db
    → Ensures (λ a db'. Hands task_id a.0 db') (accept_claimless agent_id task_id t now db)
unfolding accept_claimless
accept_claimless-Hands agent_id task_id t now db b = Ensures-fail_if _ _ _ _ λ o.
    Ensures-call _ _ λ u db₁ e₁. Ensures-or_fail _ _ _ _ λ n p. Ensures-ok _ _ _ (
      Ensures-mask _ _ _ λ fact_id db₂ e₂. Ensures-mask _ _ _ λ v db₃ e₃.
        let (reserved, room) =
          Ensures_elim _ (reserve_task_amount-Effect task_id t.contract.price db)
            (reserving_ok _ db₁ u e₁) in
        let born = Ensures_elim _ (insert_claim-Effect _ db₁) e₂ in
        let pinned = Ensures_elim _ (insert_claim_harness_revisions-Untouched fact_id _ db₂) e₃ in
        holds (
          price-Hands task_id n t.contract.price p b reserved room
            (Effect-Untouched db₃ born pinned)))

claimed-Hands :
    (task_id : ℕ) (c d : ClaimRow) {db db' : Db}
    → c.task_id ≡ task_id
    → is_active c.status ≡ true
    → is_active d.status ≡ false
    → IsBalanced db
    → Effect (claim_change c d) db db'
    → Hands task_id c.amount db'
unfolding claim_weight
claimed-Hands task_id c d same active ended b e =
    Effect-Hands task_id c.amount b e (λ k. rw (active, ended, same) (omega arith))
      (λ k. omega (arith, b.within k))

used_inactive :
    (to : ClaimStatus)
    → claim_transition claim_active event_claim_use ≡ some to
    → is_active to ≡ false
unfolding claim_transition
used_inactive to h = ground arith

pub check_claim-same :
    (claim_id agent_id task_id : ℕ) (now : Time) (db : Db)
    → Ensures
        (λ c db'.
          (db' ≡ db)
          × (lookup claim_id db.claims ≡ some c)
          × (c.agent_id ≡ agent_id)
          × (c.task_id ≡ task_id)
          × (is_active c.status ≡ true)
          × (ltb now c.expires_at ≡ true))
        (check_claim claim_id agent_id task_id now db)
unfolding check_claim
check_claim-same claim_id agent_id task_id now db = Ensures-ok _ _ _ (
    Ensures-or_fail _ _ _ _ λ c e.
      Ensures-fail_if _ _ _ _
        λ g. holds (refl, e, ground arith, ground arith, ground arith, ground arith))

accept_claimed-Hands :
    (claim_id agent_id task_id : ℕ) (now : Time) (db : Db)
    → IsBalanced db
    → Ensures (λ a db'. Hands task_id a.0 db') (accept_claimed claim_id agent_id task_id now db)
unfolding accept_claimed
accept_claimed-Hands claim_id agent_id task_id now db b = Ensures-call _ _ λ c db₁ e₁.
    let (unchanged, found, of_agent, of_task, active, live) =
      Ensures_elim _ (check_claim-same claim_id agent_id task_id now db) e₁ in
    let found₁ : lookup claim_id db₁.claims ≡ some c = rw unchanged found in
    let b₁ : IsBalanced db₁ = rw unchanged b in
    Ensures-mask _ _ _ λ u db₂ e₂.
      let (to, st, used) =
        Ensures_elim _
          (apply_claim_status-Effect claim_id claim_active event_claim_use c db₁ found₁) e₂ in
      holds (claimed-Hands task_id c _ of_task active (used_inactive to st) b₁ used)

pub accept-Hands :
    (claim : Option ℕ) (agent_id task_id : ℕ) (t : TaskRow) (now : Time) (db : Db)
    → IsBalanced db
    → Ensures (λ a db'. Hands task_id a.0 db') (accept claim agent_id task_id t now db)
accept-Hands none agent_id task_id t now db b = accept_claimless-Hands agent_id task_id t now db b
accept-Hands (some id) agent_id task_id t now db b =
    accept_claimed-Hands id agent_id task_id now db b

recheck_contract-same :
    (checks : PayloadChecks) (skip : Bool) (input : SubmitInput) (contract : Contract) (db : Db)
    → Ensures (λ _ db'. db' ≡ db) (recheck_contract checks skip input contract db)
recheck_contract-same checks true input contract db = holds refl
recheck_contract-same checks false input contract db =
    Ensures-fail_if _ _ _ _ λ g. Ensures-last _ λ u s e. fail_if-same _ _ db u s e

pub submit_write-IsBalanced :
    (checks : PayloadChecks) (agent_id : ℕ) (input : SubmitInput) (pre : Contract) (now : Time)
    (db : Db)
    → IsBalanced db
    → Ensures (λ _ db'. IsBalanced db') (submit_write checks agent_id input pre now db)
unfolding submit_write
submit_write-IsBalanced checks agent_id input pre now db b = Ensures-ok _ _ _ (
    Ensures-or_fail _ _ _ _ λ (task_id, t) found. Ensures-fail_if _ _ _ _ λ own.
      Ensures-call _ _ λ u db₁ e₁. Ensures-call _ _ λ v db₂ e₂.
        let same₁ = Ensures_elim _ (recheck_contract-same checks _ input t.contract db) e₁ in
        let same₂ = Ensures_elim _ (check_rejection_limit-same _ t.contract now db₁) e₂ in
        let b₂ : IsBalanced db₂ = rw (same₂, same₁) b in
        Ensures-call _ _ λ a db₃ e₃. Ensures-last _ λ id db₄ e₄.
          Hands-IsBalanced task_id a.0
            (Ensures_elim _ (accept-Hands input.claim_id agent_id task_id t now db₂ b₂) e₃)
            (Ensures_elim _ (insert_submission-Effect _ db₃) e₄))

-- The write phase and the delivery keep the audit's equations.
pub submit_new-IsBalanced :
    (checks : PayloadChecks) (agent_id : ℕ) (input : SubmitInput) (pre : Contract)
    (res : PostResult) (now : Time) (db : Db)
    → IsBalanced db
    → IsBalanced (submit_new checks agent_id input pre res now db).1
unfolding submit_new
submit_new-IsBalanced checks agent_id input pre res now db b =
    elim (Result-cases (submit_write checks agent_id input pre now db)) [
      | inr (e, failing) ↦ rw (submit_new, failing) b
      | inl ((id, db'), e) ↦
          let b' = Ensures_elim _ (submit_write-IsBalanced checks agent_id input pre now db b) e in
          elim (Result-cases (deliver_submission id res db')) [
            | inr (e', failing) ↦ rw (submit_new, e, failing) b'
            | inl ((_, db''), e') ↦
                rw (submit_new, e, e')
                  (Ensures_elim _ (deliver_submission-IsBalanced id res db' b') e')
          ]
    ]

-- A submission keeps the audit's equations, whatever its input and the receiver's reply, and
-- whichever of its transactions fail.
pub submit_work-IsBalanced :
    (checks : PayloadChecks) (agent_id : ℕ) (input : SubmitInput) (res : PostResult) (now : Time)
    (db : Db)
    → IsBalanced db
    → IsBalanced (submit_work checks agent_id input res now db).1
unfolding submit_work
submit_work-IsBalanced checks agent_id input res now db b =
    elim (Result-cases (submit_check checks agent_id input now db)) [
      | inr (e, failing) ↦ rw (submit_work, failing) b
      | inl ((replayed id s, db'), e) ↦ rw (submit_work, e) b
      | inl ((checked contract, db'), e) ↦
          rw (submit_work, e) (submit_new-IsBalanced checks agent_id input contract res now db b)
    ]
