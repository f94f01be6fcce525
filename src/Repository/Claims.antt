-- ===== src/Repository/Claims.antt =====
-- internal/repository/task_v1.go, the claims: tb_task_claim and claim_harness_revisions.
use kungfu.Base.{
  ℕ, suc, zero, Bool, true, false, ◌&&◌, ◌||◌, not, Option, none, some, List, [], ◌∷◌, map, ◌==◌,
  leb, ltb, if◌then◌else◌, lookup, put, first, fresh, is_some, Table, ℤ, pos, negsuc, select, take,
}
use kungfu.Task.{
  ClaimStatus, claim_active, ClaimEvent, event_claim_renew, same_claim_status, is_active,
  claim_transition,
}
use kungfu.Tx.{
  Tx, ◌>>=◌, ◌>>◌, pure, fail_if, or_fail, gets, modify, state_conflict, illegal_transition,
  constraint_violation, unique_violation,
}
use kungfu.Tables.{Db, ClaimRow, HarnessPin, Time}

-- CHECK (amount > 0), and the `amount <= 0` guards
abbrev pub positive : ℤ → Option ℕ
positive (pos zero) = none
positive (pos (suc n)) = some (suc n)
positive (negsuc n) = none

unfoldable pub holds_active_claim : ℕ → ℕ → ClaimRow → Bool
holds_active_claim task_id agent_id c =
    c.task_id == task_id && c.agent_id == agent_id && is_active c.status

unfoldable pub find_active_claim : ℕ → ℕ → Db → Option (ℕ × ClaimRow)
unfolding holds_active_claim
find_active_claim task_id agent_id db = first (holds_active_claim task_id agent_id) db.claims

pub record NewClaimRow : Type 0 where
  pub task_id : ℕ
  pub agent_id : ℕ
  pub contract_version : ℕ
  pub expires_at : Time
  pub deadline : Time
  pub amount : ℤ
  pub status : Option ClaimStatus

abbrev pub or_active : Option ClaimStatus → ClaimStatus
or_active none = claim_active
or_active (some s) = s

-- Foreign keys on the task and the agent, CHECK (amount > 0), and the unique index on the active
-- claims of an agent on a task.
unfoldable pub insert_claim : NewClaimRow → Tx Db ℕ
insert_claim input = do
  db ← gets (λ (db : Db). db)
  fail_if (not (is_some (lookup input.task_id db.tasks))) constraint_violation
  fail_if (not (is_some (lookup input.agent_id db.bots))) constraint_violation
  amount ← or_fail (positive input.amount) constraint_violation
  fail_if
      (is_active (or_active input.status)
        && is_some (find_active_claim input.task_id input.agent_id db))
      unique_violation
  modify (λ (d : Db). record d {
    claims =
        (
          fresh d.claims,
          record {
            task_id = input.task_id;
            agent_id = input.agent_id;
            contract_version = input.contract_version;
            expires_at = input.expires_at;
            deadline = input.deadline;
            amount = amount;
            status = or_active input.status;
            created_at = d.now;
            updated_at = d.now;
          },
        )
        ∷ d.claims;
  })
  pure (fresh db.claims)

unfoldable pub renew_claim_row : ℕ → ClaimStatus → Time → Tx Db (Unit {0})
renew_claim_row claim_id from expires_at = do
  _ ← or_fail (claim_transition from event_claim_renew) illegal_transition
  db ← gets (λ (db : Db). db)
  c ← or_fail (lookup claim_id db.claims) state_conflict
  fail_if (not (is_active c.status && leb expires_at c.deadline)) state_conflict
  modify (λ (d : Db). record d {
    claims = put claim_id (record c { expires_at = expires_at; updated_at = d.now }) d.claims;
  })

unfoldable pub apply_claim_status : ℕ → ClaimStatus → ClaimEvent → Tx Db (Unit {0})
apply_claim_status claim_id from event = do
  to ← or_fail (claim_transition from event) illegal_transition
  db ← gets (λ (db : Db). db)
  c ← or_fail (lookup claim_id db.claims) state_conflict
  fail_if (not (same_claim_status c.status from)) state_conflict
  modify (λ (d : Db). record d {
    claims = put claim_id (record c { status = to; updated_at = d.now }) d.claims;
  })

unfoldable pub is_pinned : ℕ → ℕ → List (ℕ × HarnessPin) → Bool
is_pinned claim_id memory_id [] = false
is_pinned claim_id memory_id ((c, p) ∷ rows) =
    if c == claim_id && p.memory_id == memory_id then true else is_pinned claim_id memory_id rows

-- One INSERT of all rows: a pair that stands already, or twice in the list, violates the key.
unfoldable pub insert_claim_harness_revisions : ℕ → List HarnessPin → Tx Db (Unit {0})
insert_claim_harness_revisions claim_id [] = pure tt
insert_claim_harness_revisions claim_id (p ∷ ps) = do
  db ← gets (λ (db : Db). db)
  fail_if (is_pinned claim_id p.memory_id db.pins) unique_violation
  modify (λ (d : Db). record d { pins = (claim_id, p) ∷ d.pins })
  insert_claim_harness_revisions claim_id ps

unfoldable pub claim_harness_revision : ℕ → ℕ → List (ℕ × HarnessPin) → Option ℕ
claim_harness_revision claim_id memory_id [] = none
claim_harness_revision claim_id memory_id ((c, p) ∷ rows) =
    if c == claim_id && p.memory_id == memory_id
    then some p.revision
    else claim_harness_revision claim_id memory_id rows

unfoldable pub is_expired_active : Time → ClaimRow → Bool
is_expired_active now c = is_active c.status && leb c.expires_at now

-- ORDER BY expires_at, claim_id
unfoldable pub insert_by_expiry : ℕ × ClaimRow → Table ClaimRow → Table ClaimRow
insert_by_expiry x [] = x ∷ []
insert_by_expiry x (y ∷ ys) =
    if ltb x.1.expires_at y.1.expires_at || x.1.expires_at == y.1.expires_at && leb x.0 y.0
    then x ∷ y ∷ ys
    else y ∷ insert_by_expiry x ys

unfoldable pub sort_by_expiry : Table ClaimRow → Table ClaimRow
unfolding insert_by_expiry
sort_by_expiry [] = []
sort_by_expiry (x ∷ xs) = insert_by_expiry x (sort_by_expiry xs)

unfoldable pub list_expired_active_claims : Time → ℕ → Db → List ℕ
unfolding is_expired_active sort_by_expiry
list_expired_active_claims now limit db =
    map (λ (r : ℕ × ClaimRow). r.0)
      (take limit (sort_by_expiry (select (is_expired_active now) db.claims)))
