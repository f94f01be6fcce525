-- ===== src/Claiming.antt =====
-- internal/service/task_claim.go: the expiry that a renewal sets, the slots, and a claim after an
-- expired one.
use kungfu.Base.{
  ℕ, ◌≤◌, ◌<◌, ◌≡◌, refl, true, some, arith, String, lookup, lookup-put_self, ltb, if◌then◌else◌,
}
use kungfu.Task.{is_active, or_default, default_claim_ttl_seconds, ClaimStatus, claim_active}
use kungfu.Tx.{
  ok, Ensures, holds, Ensures-ok, Ensures-or_fail, Ensures-fail_if, Ensures-call, Ensures-mask,
  Ensures-if, Ensures_elim, committed, committed_of,
}
use kungfu.Tables.{Db, Time, TaskRow, ClaimRow}
use kungfu.Repository.{find_task_by_code, find_active_claim, renew_claim_row}
use kungfu.Service.Limits.{slots_for, add_seconds}
use kungfu.Service.Claim.{renew_claim, claim_task, issue_claim, claim_or_issue}

renewed_row :
    (claim_id : ℕ) (from : ClaimStatus) (at : Time) (db : Db)
    → Ensures
        (λ _ db'.
          (c : ClaimRow) × (lookup claim_id db.claims ≡ some c)
          × (lookup claim_id db'.claims ≡ some (record c { expires_at = at; updated_at = db.now }))
          × (at ≤ c.deadline)
          × (is_active c.status ≡ true))
        (renew_claim_row claim_id from at db)
unfolding renew_claim_row
renewed_row claim_id from at db = Ensures-or_fail _ _ _ _ λ to st. Ensures-ok _ _ _ (
    Ensures-or_fail _ _ _ _ λ c e.
      Ensures-fail_if _ _ _ _
        λ g. holds (c, e, lookup-put_self claim_id _ c db.claims e, ground arith, ground arith))

expiry_of :
    (claim_id : ℕ) (c : ClaimRow) (limit : Time) (db db' : Db) {u : Unit {0}} (r : ClaimRow)
    → lookup claim_id db.claims ≡ some c
    → renew_claim_row claim_id claim_active (if ltb c.deadline limit then c.deadline else limit) db
      ≡ ok (u, db')
    → lookup claim_id db'.claims ≡ some r
    → (at : Time) × (r ≡ record c { expires_at = at; updated_at = db.now })
      × (at ≤ c.deadline)
      × (at ≤ limit)
expiry_of claim_id c limit db db' r e moved er =
    let at : Time = if ltb c.deadline limit then c.deadline else limit in
    let (c', ec, new, within, active) =
      Ensures_elim _ (renewed_row claim_id claim_active at db) moved in
    let same : c' ≡ c = cc (ec, e) in
    let made : r ≡ record c' { expires_at = at; updated_at = db.now } = cc (new, er) in
    (at, rw (made, same) refl, ground arith, ground arith)

-- A claim whose renewal succeeds was the agent's own, active and unexpired; only its expiry moves,
-- to a time within the claim's deadline and no later than a lifetime from now.
pub renew_claim-bounds :
    (agent_id claim_id : ℕ) (now : Time) (db : Db)
    → Ensures
        (λ r db'.
          (c : ClaimRow) × (t : TaskRow) × (lookup claim_id db.claims ≡ some c)
          × (lookup c.task_id db.tasks ≡ some t)
          × (c.agent_id ≡ agent_id)
          × (is_active c.status ≡ true)
          × (now < c.expires_at)
          × (at : Time) × (r.0 ≡ claim_id)
          × (r.1 ≡ record c { expires_at = at; updated_at = db.now })
          × (at ≤ c.deadline)
          × (at ≤ add_seconds now (or_default t.contract.claim_ttl default_claim_ttl_seconds)))
        (renew_claim agent_id claim_id now db)
unfolding renew_claim
renew_claim-bounds agent_id claim_id now db = Ensures-ok _ _ _ (
    Ensures-or_fail _ _ _ _ λ c e. Ensures-or_fail _ _ _ _ λ t et. Ensures-fail_if _ _ _ _ λ g.
      Ensures-fail_if _ _ _ _ λ o. Ensures-fail_if _ _ _ _ λ d. Ensures-mask _ _ _ λ u db₁ e₁.
        Ensures-ok _ _ _ (
          Ensures-or_fail _ _ _ _ λ r er.
            let (at, same, within, early) = expiry_of claim_id c _ db db₁ r e e₁ er in
            holds (
              c,
              t,
              e,
              et,
              ground arith,
              ground arith,
              ground arith,
              at,
              refl,
              same,
              within,
              early,
            )))

-- with no slot in the row as it was locked, no claim is issued
issue_claim-no_slot :
    {P : ℕ × ClaimRow → Db → Type 0} (agent_id task_id : ℕ) (t : TaskRow) (now : Time) (db : Db)
    → slots_for t t.contract ≡ 0
    → Ensures P (issue_claim agent_id task_id t now db)
unfolding issue_claim
issue_claim-no_slot agent_id task_id t now db none_left =
    Ensures-ok _ _ _
      (Ensures-call _ _ λ u db' e. Ensures-fail_if _ _ _ _ λ slot. absurd (ground arith))

reclaim-no_slot :
    {P : ℕ × ClaimRow → Db → Type 0} (claim_id agent_id task_id : ℕ) (c : ClaimRow) (t : TaskRow)
    (now : Time) (db : Db)
    → c.expires_at ≤ now
    → slots_for t t.contract ≡ 0
    → Ensures P (claim_or_issue (some (claim_id, c)) agent_id task_id t now db)
reclaim-no_slot claim_id agent_id task_id c t now db over none_left =
    Ensures-if (ltb now c.expires_at) _ _ _ (λ y. absurd (ground arith))
      λ n. Ensures-call _ _ λ u db' e. issue_claim-no_slot agent_id task_id t now db' none_left

-- Where an agent's own active claim on the task has run out and the row as it was locked has no
-- slot, claiming again writes nothing: not a new claim, and not the expiry of the old one, whatever
-- its amount.
pub claim_task-stale :
    (agent_id : ℕ) (code : String) (now : Time) (task_id claim_id : ℕ) (t : TaskRow) (c : ClaimRow)
    (db : Db)
    → find_task_by_code code db ≡ some (task_id, t)
    → find_active_claim task_id agent_id db ≡ some (claim_id, c)
    → c.expires_at ≤ now
    → slots_for t t.contract ≡ 0
    → committed db (claim_task agent_id code now db) ≡ db
unfolding claim_task
claim_task-stale agent_id code now task_id claim_id t c db found own over none_left =
    committed_of (λ d. d ≡ db) db _ refl
      (Ensures-ok _ _ _ (
        Ensures-or_fail _ _ _ _ λ (task_id', t') e. Ensures-call _ _ λ u db₁ same.
          Ensures-fail_if _ _ _ _ λ o. Ensures-fail_if _ _ _ _ λ p. reclaimed (task_id', t') db₁ e))
  where
    reclaimed :
        (r : ℕ × TaskRow) (db₁ : Db)
        → find_task_by_code code db ≡ some r
        → Ensures
            (λ _ d. d ≡ db)
            (claim_or_issue (find_active_claim r.0 agent_id db) agent_id r.0 r.1 now db₁)
    reclaimed r db₁ e =
        let same : r ≡ (task_id, t) = cc (e, found) in
        rw (same, own) (reclaim-no_slot claim_id agent_id task_id c t now db₁ over none_left)
