-- ===== src/Service/Claim.antt =====
-- internal/service/task_claim.go: claim, renew, release and the expiry reclaimer.
use kungfu.Base.{
  ℕ, suc, String, Bool, true, false, ◌&&◌, ◌||◌, not, Option, none, some, List, [], ◌∷◌, map, ◌==◌,
  ltb, if◌then◌else◌, lookup, pos,
}
use kungfu.Task.{claim_active, event_claim_expire, event_claim_release, is_open, is_active}
use kungfu.Task.{default_claim_ttl_seconds, default_claim_max_duration, or_default}
use kungfu.Tx.{
  Tx, ok, err, ◌>>=◌, ◌>>◌, pure, fail_if, or_fail, gets, mask, internal_error, no_rows,
  task_not_found, task_not_open, own_task, slots_exhausted, claim_invalid,
}
use kungfu.Tables.{Db, Time, TaskRow, ClaimRow}
use kungfu.Repository.{
  find_task_by_code, find_active_claim, insert_claim, renew_claim_row, apply_claim_status,
  insert_claim_harness_revisions, list_expired_active_claims, reserve_task_amount,
  release_task_reservation, count_agent_submissions,
}
use kungfu.Service.Limits.{
  add_seconds, require_task_audience, rejections_since, check_rejection_limit, slots_for,
  resolve_harness_refs, pin_of,
}

abbrev pub get_db : Tx Db Db
get_db = gets (λ (db : Db). db)

-- An expired claim that the reclaimer has not swept yet is expired, its reservation released.
unfoldable pub expire_claim : ℕ → ClaimRow → ℕ → Tx Db (Unit {0})
expire_claim claim_id claim task_id = do
  mask internal_error (apply_claim_status claim_id claim_active event_claim_expire)
  mask internal_error (release_task_reservation task_id (pos claim.amount))

-- `ClaimTask` from the rejection cap on: `t` is the row as it was locked at the start.
unfoldable pub issue_claim : ℕ → ℕ → TaskRow → Time → Tx Db (ℕ × ClaimRow)
issue_claim agent_id task_id t now = do
  db ← get_db
  check_rejection_limit
      (count_agent_submissions task_id agent_id (rejections_since now) db.submissions db.events)
      t.contract now
  fail_if (ltb (slots_for t t.contract) 1) slots_exhausted
  claim_id ← mask internal_error (
      insert_claim (record {
        task_id = task_id;
        agent_id = agent_id;
        contract_version = t.contract_version;
        expires_at = add_seconds now (or_default t.contract.claim_ttl default_claim_ttl_seconds);
        deadline =
            add_seconds now (or_default t.contract.claim_max_duration default_claim_max_duration);
        amount = t.contract.price;
        status = none;
      }))
  mask internal_error (
      insert_claim_harness_revisions claim_id
        (map pin_of (resolve_harness_refs t.publisher_id t.contract.harness_refs db)))
  mask internal_error (reserve_task_amount task_id t.contract.price)
  db' ← get_db
  claim ← or_fail (lookup claim_id db'.claims) internal_error
  pure (claim_id, claim)

abbrev pub claim_or_issue : Option (ℕ × ClaimRow) → ℕ → ℕ → TaskRow → Time → Tx Db (ℕ × ClaimRow)
claim_or_issue none agent_id task_id t now = issue_claim agent_id task_id t now
claim_or_issue (some (id, c)) agent_id task_id t now =
    if ltb now c.expires_at
    then pure (id, c)
    else do expire_claim id c task_id; issue_claim agent_id task_id t now

-- `ClaimTask`
unfoldable pub claim_task : ℕ → String → Time → Tx Db (ℕ × ClaimRow)
claim_task agent_id code now = do
  db ← get_db
  (task_id, t) ← or_fail (find_task_by_code code db) task_not_found
  require_task_audience task_id t agent_id
  fail_if (not (is_open t.status)) (task_not_open t.status)
  fail_if (t.publisher_id == agent_id) own_task
  claim_or_issue (find_active_claim task_id agent_id db) agent_id task_id t now

-- `RenewClaim`: expires_at = min(now + ttl, deadline). The unlocked read of the claim gives its
-- task only, which no write changes.
unfoldable pub renew_claim : ℕ → ℕ → Time → Tx Db (ℕ × ClaimRow)
renew_claim agent_id claim_id now = do
  db ← get_db
  claim ← or_fail (lookup claim_id db.claims) claim_invalid
  t ← or_fail (lookup claim.task_id db.tasks) internal_error
  fail_if (not (claim.agent_id == agent_id && is_active claim.status && ltb now claim.expires_at))
      claim_invalid
  fail_if (not (is_open t.status)) (task_not_open t.status)
  fail_if (not (ltb now claim.deadline)) claim_invalid
  let expires = add_seconds now (or_default t.contract.claim_ttl default_claim_ttl_seconds)
  mask internal_error (
      renew_claim_row claim_id claim_active
        (if ltb claim.deadline expires then claim.deadline else expires))
  db' ← get_db
  renewed ← or_fail (lookup claim_id db'.claims) internal_error
  pure (claim_id, renewed)

-- `ReleaseClaim`
unfoldable pub release_claim : ℕ → ℕ → Tx Db (ℕ × ClaimRow)
release_claim agent_id claim_id = do
  db ← get_db
  claim ← or_fail (lookup claim_id db.claims) claim_invalid
  _ ← or_fail (lookup claim.task_id db.tasks) internal_error
  fail_if (not (claim.agent_id == agent_id && is_active claim.status)) claim_invalid
  mask internal_error (apply_claim_status claim_id claim_active event_claim_release)
  mask internal_error (release_task_reservation claim.task_id (pos claim.amount))
  db' ← get_db
  released ← or_fail (lookup claim_id db'.claims) internal_error
  pure (claim_id, released)

-- One round of `ExpireClaims`: the transaction of one claim of the work list. `false` is a claim
-- that is gone, active no more or unexpired, which is passed over.
abbrev pub expire_found : Time → ℕ → Option ClaimRow → Tx Db Bool
expire_found now claim_id none = pure false
expire_found now claim_id (some claim) = do
  db ← get_db
  _ ← or_fail (lookup claim.task_id db.tasks) no_rows
  if not (is_active claim.status) || ltb now claim.expires_at then pure false else do
    apply_claim_status claim_id claim_active event_claim_expire
    release_task_reservation claim.task_id (pos claim.amount)
    pure true

unfoldable pub expire_one : Time → ℕ → Tx Db Bool
expire_one now claim_id = do db ← get_db; expire_found now claim_id (lookup claim_id db.claims)

abbrev pub counted : Bool → ℕ → ℕ
counted true n = suc n
counted false n = n

-- The loop of `ExpireClaims`: the number expired, and whether an error ended it early.
unfoldable pub expire_all : Time → List ℕ → ℕ → Db → ℕ × Bool × Db
expire_all now [] expired db = (expired, true, db)
expire_all now (id ∷ ids) expired db = elim (expire_one now id db) [
  | ok (done, db') ↦ expire_all now ids (counted done expired) db'
  | err e ↦ (expired, false, db)
]

-- `ExpireClaims`; a batch that is not positive is 100
unfoldable pub expire_claims : Time → ℕ → Db → ℕ × Bool × Db
unfolding expire_all
expire_claims now batch db =
    expire_all now (list_expired_active_claims now (if batch == 0 then 100 else batch) db) 0 db
