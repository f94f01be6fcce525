-- ===== src/Audit/Exits.antt =====
-- internal/repository/task_v1.go and internal/service/task_claim.go: the release of what a claim or a
-- submission holds.
use kungfu.Base.{
  ℕ, suc, zero, ◌-◌, ◌≤◌, ◌≡◌, refl, true, false, some, arith, lookup, put, ltb, leb, pos,
  Option-cases, inl, inr, le-total,
}
use kungfu.Task.{
  is_active, claim_active, claim_expired, event_claim_expire, submission_terminal, claim_transition,
}
use kungfu.Tx.{ok, running, after, or_fail}
use kungfu.Tables.{Db, Time, TaskRow, ClaimRow, SubmissionRow}
use kungfu.Repository.{release_task_reservation, apply_claim_status}
use kungfu.Service.Claim.{expire_one}
use kungfu.Audit.Sums.{
  counter_at, claim_weight, submission_weight, claim_sum, submission_sum, IsBalanced, share_self,
}

pub le_true : (a b : ℕ) → a ≤ b → leb a b ≡ true
le_true a b h = ground arith

own_weight : (c : ClaimRow) → is_active c.status ≡ true → claim_weight c.task_id c ≡ c.amount
unfolding claim_weight
own_weight c active = rw active (share_self c.task_id c.amount)

own_submission_weight :
    (s : SubmissionRow)
    → submission_terminal s.state ≡ false
    → submission_weight s.task_id s ≡ s.amount
unfolding submission_weight
own_submission_weight s live = rw live (share_self s.task_id s.amount)

claim_backed :
    (claim_id : ℕ) (c : ClaimRow) (db : Db)
    → IsBalanced db
    → lookup claim_id db.claims ≡ some c
    → is_active c.status ≡ true
    → c.amount ≤ counter_at (λ t. t.reserved) c.task_id db.tasks
unfolding claim_sum
claim_backed claim_id c db b e active = omega (
  arith,
  b.backed c.task_id,
  le-total (claim_weight c.task_id) claim_id c db.claims e,
  own_weight c active,
)

pub submission_backed :
    (submission_id : ℕ) (s : SubmissionRow) (db : Db)
    → IsBalanced db
    → lookup submission_id db.submissions ≡ some s
    → submission_terminal s.state ≡ false
    → s.amount ≤ counter_at (λ t. t.reserved) s.task_id db.tasks
unfolding submission_sum
submission_backed submission_id s db b e live = omega (
  arith,
  b.backed s.task_id,
  le-total (submission_weight s.task_id) submission_id s db.submissions e,
  own_submission_weight s live,
)

abbrev pub released_from : ℕ → TaskRow → ℕ → Db → Db
released_from task_id t n db = record db {
  tasks = put task_id (record t { reserved = t.reserved - n; updated_at = db.now }) db.tasks;
}

pub release-succeeds :
    (task_id n : ℕ) (db : Db)
    → 1 ≤ n
    → n ≤ counter_at (λ t. t.reserved) task_id db.tasks
    → (t : TaskRow) × (lookup task_id db.tasks ≡ some t)
      × (n ≤ t.reserved)
      × (release_task_reservation task_id (pos n) db ≡ ok (tt, released_from task_id t n db))
unfolding counter_at release_task_reservation running
release-succeeds task_id zero db p h = absurd (omega arith)
release-succeeds task_id (suc n) db p h = elim (Option-cases (lookup task_id db.tasks)) [
  | inl gone ↦ absurd (ground arith)
  | inr (t, e) ↦
      let enough : suc n ≤ t.reserved = ground arith in
      (t, e, enough, rw (e, le_true (suc n) t.reserved enough) refl)
]

abbrev pub expired_claim : ℕ → ClaimRow → Db → Db
expired_claim claim_id c db = record db {
  claims = put claim_id (record c { status = claim_expired; updated_at = db.now }) db.claims;
}

apply_expire :
    (claim_id : ℕ) (c : ClaimRow) (db : Db)
    → lookup claim_id db.claims ≡ some c
    → is_active c.status ≡ true
    → apply_claim_status claim_id claim_active event_claim_expire db
      ≡ ok (tt, expired_claim claim_id c db)
unfolding apply_claim_status running claim_transition
apply_expire claim_id c db e active =
    let st : c.status ≡ claim_active = ground arith in rw (e, st) refl

-- Where the audit's equations hold, the reclaimer's transaction for an active claim with a positive
-- amount whose time is over succeeds: the claim is expired, and the task's reservation, which holds
-- that much, is smaller by the claim's amount.
pub expire_one-succeeds :
    (now : Time) (claim_id : ℕ) (c : ClaimRow) (db : Db)
    → IsBalanced db
    → lookup claim_id db.claims ≡ some c
    → is_active c.status ≡ true
    → c.expires_at ≤ now
    → 1 ≤ c.amount
    → (t : TaskRow) × (lookup c.task_id db.tasks ≡ some t)
      × (c.amount ≤ t.reserved)
      × (expire_one now claim_id db
          ≡ ok (true, released_from c.task_id t c.amount (expired_claim claim_id c db)))
unfolding expire_one after or_fail
expire_one-succeeds now claim_id c db b e active over p =
    let (t, et, enough, released) =
      release-succeeds c.task_id c.amount (expired_claim claim_id c db) p
        (claim_backed claim_id c db b e active) in
    let late : ltb now c.expires_at ≡ false = ground arith in
    (t, et, enough, rw (e, et, active, late, apply_expire claim_id c db e active, released) refl)
