-- ===== src/Audit/Claims.antt =====
-- internal/service/task_claim.go: the claim operations and the audit's equations.
use kungfu.Base.{
  ℕ, ◌≡◌, refl, sym, Bool, true, false, not, ◌||◌, Option, none, some, List, [], ◌∷◌, arith, ltb,
  lookup, pos, String, Option-cases, inl, inr, first-lookup, first_fits,
}
use kungfu.Task.{
  is_active, claim_active, ClaimEvent, ClaimStatus, claim_transition, event_claim_expire,
  event_claim_release, event_claim_renew, Contract,
}
use kungfu.Tx.{
  Result-cases, ok, Ensures, holds, Ensures-ok, Ensures-or_fail, Ensures-fail_if, Ensures-call,
  Ensures-mask, Ensures-if, Ensures_elim, Ensures-last, Ensures-last_masked,
}
use kungfu.Tables.{Db, Time, TaskRow, ClaimRow}
use kungfu.Repository.{
  find_active_claim, holds_active_claim, AgentSubmissionCounts, release_task_reservation,
  apply_claim_status,
}
use kungfu.Service.Limits.{check_rejection_limit, require_task_audience}
use kungfu.Service.Claim.{
  issue_claim, expire_claim, claim_task, renew_claim, release_claim, expire_one, claim_or_issue,
  expire_all, expire_claims,
}
use kungfu.Audit.Sums.{share, claim_weight, IsBalanced, share_zero}
use kungfu.Audit.Moves.{still, Effect, Effect-plus, Effect-Untouched, task_change}
use kungfu.Audit.Primitives.{HasRoom, reserve_task_amount-Effect, release_task_reservation-Effect}
use kungfu.Audit.Rows.{
  claim_change, apply_claim_status-Effect, insert_claim-Effect, renew_claim_row-Effect,
  insert_claim_harness_revisions-Untouched,
}
use kungfu.Audit.Balance.{Effect-IsBalanced, HasRoom-share}

pub check_rejection_limit-same :
    (counts : AgentSubmissionCounts) (contract : Contract) (now : Time) (db : Db)
    → Ensures (λ _ db'. db' ≡ db) (check_rejection_limit counts contract now db)
unfolding check_rejection_limit
check_rejection_limit-same counts contract now db = Ensures-last _ λ u s e. ground arith

pub require_task_audience-same :
    (task_id : ℕ) (t : TaskRow) (agent_id : ℕ) (db : Db)
    → Ensures (λ _ db'. db' ≡ db) (require_task_audience task_id t agent_id db)
unfolding require_task_audience
require_task_audience-same task_id t agent_id db = Ensures-last _ λ u s e. ground arith

-- A claim is released, in whatever way: its amount leaves the reservation and the active claims.
pub ended_claim-IsBalanced :
    (claim_id : ℕ) (c d : ClaimRow) (task_id : ℕ) {db db' db'' : Db}
    → c.task_id ≡ task_id
    → is_active c.status ≡ true
    → is_active d.status ≡ false
    → IsBalanced db
    → Effect (claim_change c d) db db'
    → Effect (task_change task_id 0 0 0 c.amount 0) db' db''
    → IsBalanced db''
unfolding claim_weight
ended_claim-IsBalanced claim_id c d task_id same active ended b e f =
    Effect-IsBalanced b (Effect-plus e f)
      (λ k. rw (active, ended, same) (omega (arith, share_zero k task_id)))
      (λ k. omega (arith, b.within k, share_zero k task_id))

-- an event that ends a claim: all but `renew`
abbrev pub ends : ClaimEvent → Bool
ends event_claim_renew = false
ends _ = true

ends_inactive :
    (event : ClaimEvent) (to : ClaimStatus)
    → ends event ≡ true
    → claim_transition claim_active event ≡ some to
    → is_active to ≡ false
unfolding claim_transition
ends_inactive event to h st = ground arith

-- A claim ends and its reservation is released, as all of claim expiry, release and re-claim do.
module _ (claim_id : ℕ) (event : ClaimEvent) (c : ClaimRow) (db : Db)
    (found : lookup claim_id db.claims ≡ some c) (active : is_active c.status ≡ true)
    (ending : ends event ≡ true) (b : IsBalanced db) where
  pub end_claim-IsBalanced :
      (db' db'' : Db) (u v : Unit {0})
      → apply_claim_status claim_id claim_active event db ≡ ok (u, db')
      → release_task_reservation c.task_id (pos c.amount) db' ≡ ok (v, db'')
      → IsBalanced db''
  end_claim-IsBalanced db' db'' u v e₁ e₂ =
      let (to, st, eff) =
        Ensures_elim _ (apply_claim_status-Effect claim_id claim_active event c db found) e₁ in
      ended_claim-IsBalanced claim_id c (record c { status = to }) c.task_id refl active
        (ends_inactive event to ending st) b eff
        (Ensures_elim _ (release_task_reservation-Effect c.task_id (pos c.amount) db') e₂)

pub expire_claim-IsBalanced :
    (claim_id : ℕ) (c : ClaimRow) (db : Db)
    → lookup claim_id db.claims ≡ some c
    → is_active c.status ≡ true
    → IsBalanced db
    → Ensures (λ _ db'. IsBalanced db') (expire_claim claim_id c c.task_id db)
unfolding expire_claim
expire_claim-IsBalanced claim_id c db found active b = Ensures-mask _ _ _ λ u db₁ e₁.
    Ensures-last_masked _ _ λ v db₂ e₂.
      end_claim-IsBalanced claim_id event_claim_expire c db found active refl b db₁ db₂ u v e₁ e₂

pub release_claim-IsBalanced :
    (agent_id claim_id : ℕ) (db : Db)
    → IsBalanced db
    → Ensures (λ _ db'. IsBalanced db') (release_claim agent_id claim_id db)
unfolding release_claim
release_claim-IsBalanced agent_id claim_id db b = Ensures-ok _ _ _ (
    Ensures-or_fail _ _ _ _ λ c e. Ensures-or_fail _ _ _ _ λ t et. Ensures-fail_if _ _ _ _ λ g.
      Ensures-mask _ _ _ λ u db₁ e₁. Ensures-mask _ _ _ λ v db₂ e₂. Ensures-ok _ _ _ (
        Ensures-or_fail _ _ _ _ λ c' e'. holds (
          end_claim-IsBalanced claim_id event_claim_release c db e (ground arith) refl b db₁ db₂ u v
            e₁ e₂)))

pub expire_one-IsBalanced :
    (now : Time) (claim_id : ℕ) (db : Db)
    → IsBalanced db
    → Ensures (λ _ db'. IsBalanced db') (expire_one now claim_id db)
unfolding expire_one
expire_one-IsBalanced now claim_id db b = elim (Option-cases (lookup claim_id db.claims)) [
  | inl gone ↦ Ensures-ok _ _ _ (rw gone (holds b))
  | inr (c, e) ↦ Ensures-ok _ _ _ (
      rw e (
        Ensures-ok _ _ _ (
          Ensures-or_fail _ _ _ _ λ t et.
            Ensures-if (not (is_active c.status) || ltb now c.expires_at) _ _ _ (λ skip. holds b)
              λ g. Ensures-call _ _ λ u db₁ e₁. Ensures-call _ _ λ v db₂ e₂. holds (
                end_claim-IsBalanced claim_id event_claim_expire c db e (ground arith) refl b db₁
                  db₂ u v e₁ e₂))))
]

pub expire_all-IsBalanced :
    (now : Time) (ids : List ℕ) (n : ℕ) (db : Db)
    → IsBalanced db
    → IsBalanced (expire_all now ids n db).2
unfolding expire_all
expire_all-IsBalanced now [] n db b = b
expire_all-IsBalanced now (id ∷ ids) n db b = elim (Result-cases (expire_one now id db)) [
  | inl ((done, db'), e) ↦
      rw (expire_all, e)
        (expire_all-IsBalanced now ids _ db' (Ensures_elim _ (expire_one-IsBalanced now id db b) e))
  | inr (e, failing) ↦ rw (expire_all, failing) b
]

pub expire_claims-IsBalanced :
    (now : Time) (batch : ℕ) (db : Db) → IsBalanced db → IsBalanced (expire_claims now batch db).2
unfolding expire_claims
expire_claims-IsBalanced now batch db b = expire_all-IsBalanced now _ 0 db b

pub renew_claim-IsBalanced :
    (agent_id claim_id : ℕ) (now : Time) (db : Db)
    → IsBalanced db
    → Ensures (λ _ db'. IsBalanced db') (renew_claim agent_id claim_id now db)
unfolding renew_claim
renew_claim-IsBalanced agent_id claim_id now db b = Ensures-ok _ _ _ (
    Ensures-or_fail _ _ _ _ λ c e. Ensures-or_fail _ _ _ _ λ t et. Ensures-fail_if _ _ _ _ λ g.
      Ensures-fail_if _ _ _ _ λ o. Ensures-fail_if _ _ _ _ λ d. Ensures-mask _ _ _ λ u db₁ e₁.
        Ensures-ok _ _ _ (
          Ensures-or_fail _ _ _ _ λ c' e'. holds (
            Effect-IsBalanced b (Ensures_elim _ (renew_claim_row-Effect claim_id _ _ db) e₁)
              (λ k. omega arith) (λ k. omega (arith, b.within k)))))

-- A claim is born active, and its price reserved.
reserved_claim-IsBalanced :
    (task_id n : ℕ) {db db' db'' : Db}
    → IsBalanced db
    → Effect (λ k. record still { claims_up = share k task_id n }) db db'
    → Effect (task_change task_id 0 0 n 0 0) db' db''
    → HasRoom task_id n db'
    → IsBalanced db''
reserved_claim-IsBalanced task_id n {db} b born reserved room =
    let room' : HasRoom task_id n db = record {
      fits = omega (arith, room.fits, born.moves task_id);
    } in
    Effect-IsBalanced b (Effect-plus born reserved) (λ k. omega (arith, share_zero k task_id))
      (λ k. omega (arith, HasRoom-share task_id n k db b room', share_zero k task_id))

pub issue_claim-IsBalanced :
    (agent_id task_id : ℕ) (t : TaskRow) (now : Time) (db : Db)
    → IsBalanced db
    → Ensures (λ _ db'. IsBalanced db') (issue_claim agent_id task_id t now db)
unfolding issue_claim
issue_claim-IsBalanced agent_id task_id t now db b = Ensures-ok _ _ _ (
    Ensures-call _ _ λ u db₀ same.
      let unchanged = Ensures_elim _ (check_rejection_limit-same _ t.contract now db) same in
      Ensures-fail_if _ _ _ _ λ g. Ensures-mask _ _ _ λ claim_id db₁ e₁.
        Ensures-mask _ _ _ λ v db₂ e₂. Ensures-mask _ _ _ λ w db₃ e₃. Ensures-ok _ _ _ (
          Ensures-or_fail _ _ _ _ λ c found.
            let born = Ensures_elim _ (insert_claim-Effect _ db₀) e₁ in
            let pinned =
              Ensures_elim _ (insert_claim_harness_revisions-Untouched claim_id _ db₁) e₂ in
            let (reserved, room) =
              Ensures_elim _ (reserve_task_amount-Effect task_id t.contract.price db₂) e₃ in
            let b₀ : IsBalanced db₀ = rw unchanged b in
            holds (
              reserved_claim-IsBalanced task_id _ b₀ (Effect-Untouched db₂ born pinned) reserved
                room)))

-- `t` is the task's row as it was locked; the claim found is an active one.
pub claim_or_issue-IsBalanced :
    (found : Option (ℕ × ClaimRow)) (agent_id task_id : ℕ) (t : TaskRow) (now : Time) (db : Db)
    → ((id : ℕ) (c : ClaimRow)
        → found ≡ some (id, c)
        → (lookup id db.claims ≡ some c) × (c.task_id ≡ task_id) × (is_active c.status ≡ true))
    → IsBalanced db
    → Ensures (λ _ db'. IsBalanced db') (claim_or_issue found agent_id task_id t now db)
claim_or_issue-IsBalanced none agent_id task_id t now db h b =
    issue_claim-IsBalanced agent_id task_id t now db b
claim_or_issue-IsBalanced (some (id, c)) agent_id task_id t now db h b =
    let (row, same, active) = h id c refl in
    let ended : Ensures (λ _ d. IsBalanced d) (expire_claim id c task_id db) =
      rw (sym same) (expire_claim-IsBalanced id c db row active b) in
    Ensures-if (ltb now c.expires_at) _ _ _ (λ _. holds b)
      λ _.
        Ensures-call _ _
          λ u db₁ e. issue_claim-IsBalanced agent_id task_id t now db₁ (Ensures_elim _ ended e)

found_claim :
    (task_id agent_id : ℕ) (db : Db) (id : ℕ) (c : ClaimRow)
    → IsBalanced db
    → find_active_claim task_id agent_id db ≡ some (id, c)
    → (lookup id db.claims ≡ some c) × (c.task_id ≡ task_id) × (is_active c.status ≡ true)
unfolding find_active_claim holds_active_claim
found_claim task_id agent_id db id c b e =
    let fits = first_fits _ id c db.claims e in
    (first-lookup _ id c db.claims b.claims_keyed e, ground arith, ground arith)

pub claim_task-IsBalanced :
    (agent_id : ℕ) (code : String) (now : Time) (db : Db)
    → IsBalanced db
    → Ensures (λ _ db'. IsBalanced db') (claim_task agent_id code now db)
unfolding claim_task
claim_task-IsBalanced agent_id code now db b = Ensures-ok _ _ _ (
    Ensures-or_fail _ _ _ _ λ (task_id, t) e. Ensures-call _ _ λ u db₁ same.
      let unchanged = Ensures_elim _ (require_task_audience-same task_id t agent_id db) same in
      let b₁ : IsBalanced db₁ = rw unchanged b in
      Ensures-fail_if _ _ _ _ λ o. Ensures-fail_if _ _ _ _ λ p.
        claim_or_issue-IsBalanced (find_active_claim task_id agent_id db) agent_id task_id t now db₁
          (λ id c f. found_claim task_id agent_id db₁ id c b₁ (rw unchanged f)) b₁)
