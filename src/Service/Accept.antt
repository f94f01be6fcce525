-- ===== src/Service/Accept.antt =====
-- internal/service/task_submit.go: on what a submission is accepted. Either a claim is used, or the
-- price is reserved and a claim born used records the engagement.
use kungfu.Base.{ℕ, String, ◌&&◌, not, Option, none, some, List, [], ◌∷◌, map, ◌==◌, ltb, lookup}
use kungfu.Task.{claim_active, claim_used, event_claim_use, is_open, is_active}
use kungfu.Tx.{
  Tx, Err, Result, ok, err, ◌>>=◌, ◌>>◌, pure, fail_if, or_fail, mask, internal_error,
  task_not_open, slots_exhausted, claim_invalid, no_available_budget,
}
use kungfu.Tables.{Db, Time, TaskRow, ClaimRow}
use kungfu.Repository.{
  insert_claim, insert_claim_harness_revisions, apply_claim_status, reserve_task_amount, positive,
}
use kungfu.Service.Limits.{resolve_harness_refs, ResolvedHarnessPin, pin_of}
use kungfu.Service.Claim.{get_db}

-- `checkClaim`, also the re-check under the lock
unfoldable pub check_claim : ℕ → ℕ → ℕ → Time → Tx Db ClaimRow
check_claim claim_id agent_id task_id now = do
  db ← get_db
  claim ← or_fail (lookup claim_id db.claims) claim_invalid
  fail_if
      (not (
        claim.agent_id == agent_id
        && claim.task_id == task_id
        && is_active claim.status
        && ltb now claim.expires_at))
      claim_invalid
  pure claim

abbrev snapshot : List ResolvedHarnessPin → Option (List (String × ℕ))
snapshot [] = none
snapshot (p ∷ ps) = some (map (λ (r : ResolvedHarnessPin). (r.code, r.revision)) (p ∷ ps))

abbrev exhausted_or_internal : Err → Err
exhausted_or_internal no_available_budget = slots_exhausted
exhausted_or_internal _ = internal_error

abbrev pub reserving : Result (Unit {0} × Db) → Result (Unit {0} × Db)
reserving (ok p) = ok p
reserving (err e) = err (exhausted_or_internal e)

-- Without a claim: the price is reserved, and the acceptance fact, a claim born used, recorded.
unfoldable pub accept_claimless :
    ℕ → ℕ → TaskRow → Time → Tx Db (ℕ × ℕ × ℕ × Option (List (String × ℕ)))
accept_claimless agent_id task_id t now = do
  fail_if (not (is_open t.status)) (task_not_open t.status)
  (λ (db : Db). reserving (reserve_task_amount task_id t.contract.price db))
  amount ← or_fail (positive t.contract.price) internal_error
  db ← get_db
  let resolved = resolve_harness_refs t.publisher_id t.contract.harness_refs db
  fact_id ← mask internal_error (
      insert_claim (record {
        task_id = task_id;
        agent_id = agent_id;
        contract_version = t.contract_version;
        expires_at = now;
        deadline = now;
        amount = t.contract.price;
        status = some claim_used;
      }))
  mask internal_error (insert_claim_harness_revisions fact_id (map pin_of resolved))
  pure (amount, t.contract_version, fact_id, snapshot resolved)

-- With a claim: it is used, and hands its amount and its version over.
unfoldable pub accept_claimed : ℕ → ℕ → ℕ → Time → Tx Db (ℕ × ℕ × ℕ × Option (List (String × ℕ)))
accept_claimed claim_id agent_id task_id now = do
  claim ← check_claim claim_id agent_id task_id now
  mask internal_error (apply_claim_status claim_id claim_active event_claim_use)
  pure (claim.amount, claim.contract_version, claim_id, none)

abbrev pub accept :
    Option ℕ → ℕ → ℕ → TaskRow → Time → Tx Db (ℕ × ℕ × ℕ × Option (List (String × ℕ)))
accept none agent_id task_id t now = accept_claimless agent_id task_id t now
accept (some claim_id) agent_id task_id t now = accept_claimed claim_id agent_id task_id now
