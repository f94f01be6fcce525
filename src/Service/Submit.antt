-- ===== src/Service/Submit.antt =====
-- internal/service/task_submit.go: the intake of a submission. The hash, the JSON and schema
-- checks and the credential scan (internal/task/payload.go and the jsonschema package) are the
-- fields of `PayloadChecks`.
use text.Mathlib.Text.{◌==◌ as str_eq}
use text.Mathlib.TextEquality.{eq_iff}
use mathlib.Core.Bool.{decide}
use native.Mathlib.Decide.{ℕ_discrete}
use Prim.Native.Char.{code}
use kungfu.Base.{
  ℕ, ◌*◌, String, Bool, true, false, ◌&&◌, ◌||◌, not, Option, none, some, List, [], ◌∷◌, ◌==◌, leb,
  ltb, if◌then◌else◌, lookup, length, is_some, Bool-cases, inl, inr, ◌≡◌, refl,
}
use kungfu.Task.{sub_rejected, is_open, same_submission_state, Contract}
use kungfu.Tx.{
  Tx, Err, Result, ok, err, ◌>>=◌, ◌>>◌, pure, fail, fail_if, or_fail, internal_error,
  task_not_found, own_task, task_not_open, slots_exhausted, claim_required, invalid_revises,
  schema_mismatch, credential_in_payload, idempotency_conflict, invalid_request_key,
  payload_too_large, unique_violation, constraint_violation,
}
use kungfu.Tables.{Db, Time, TaskRow, SubmissionRow}
use kungfu.Repository.{
  find_task_by_code, find_task_contract_version, find_submission_by_identity, insert_submission,
  count_agent_submissions,
}
use kungfu.Service.Limits.{
  require_task_audience, rejections_since, check_rejection_limit, slots_for,
}
use kungfu.Service.Claim.{get_db}
use kungfu.Service.Deliver.{PostResult, deliver_submission}
use kungfu.Service.Accept.{check_claim, accept}

pub record SubmitInput : Type 0 where
  pub code : String
  pub request_key : String
  pub payload : List ℕ
  pub claim_id : Option ℕ
  pub revises : Option ℕ

pub record PayloadChecks : Type 0 where
  pub payload_hash : List ℕ → String
  pub is_json_object : List ℕ → Bool
  pub matches_schema : Option (List ℕ) → List ℕ → Bool
  pub has_credentials : List ℕ → Bool

abbrev pub max_payload_bytes : ℕ
max_payload_bytes = 512 * 1024

abbrev codes : String → List ℕ
codes String.[] = []
codes (String.◌∷◌ c s) = code c ∷ codes s

-- [A-Za-z0-9._~-]
unfoldable pub is_key_char : ℕ → Bool
is_key_char c =
    leb b'A' c && leb c b'Z'
    || leb b'a' c && leb c b'z'
    || leb b'0' c && leb c b'9'
    || c == b'.'
    || c == b'_'
    || c == b'~'
    || c == b'-'

unfoldable pub all_key_chars : List ℕ → Bool
unfolding is_key_char
all_key_chars [] = true
all_key_chars (c ∷ cs) = if is_key_char c then all_key_chars cs else false

-- `requestKeyPattern`
unfoldable pub is_request_key : String → Bool
unfolding all_key_chars
is_request_key key =
    leb 1 (length (codes key)) && leb (length (codes key)) 128 && all_key_chars (codes key)

-- `checkRevises`
unfoldable pub check_revises : Option ℕ → ℕ → ℕ → Tx Db (Unit {0})
check_revises none agent_id task_id = pure tt
check_revises (some target_id) agent_id task_id = do
  db ← get_db
  target ← or_fail (lookup target_id db.submissions) invalid_revises
  fail_if
      (not (
        target.agent_id == agent_id
        && target.task_id == task_id
        && same_submission_state target.state sub_rejected))
      invalid_revises

-- What the intake goes on with: the stored submission of a repeated request, or the task and the
-- contract that the pre-check read.
pub data Intake : Type 0 where
  replayed : ℕ → SubmissionRow → Intake
  checked : Contract → Intake

String-discrete : Discrete String
String-discrete a b = elim (Bool-cases (str_eq a b)) [
  | inl e ↦ yes ((eq_iff a b).0 e)
  | inr e ↦ no (λ p. cc (e, (eq_iff a b).1 p))
]

Contract-discrete : Discrete Contract
Contract-discrete = hlevel (ℕ_discrete, String-discrete)

-- `bytes.Equal` on the stored JSON of two contracts
unfoldable pub same_contract : Contract → Contract → Bool
unfolding Contract-discrete String-discrete
same_contract a b = decide (Contract-discrete a b)

pub same_contract_refl : (c : Contract) → same_contract c c ≡ true
unfolding same_contract decide
same_contract_refl c = elim (Contract-discrete c c) as (λ d. decide d ≡ true) [
  | yes p ↦ refl
  | no n ↦ absurd (n refl)
]

module _ (checks : PayloadChecks) where
  open checks use {payload_hash, is_json_object, matches_schema, has_credentials}

  abbrev replay : Option (ℕ × SubmissionRow) → String → Option (Result Intake)
  replay none hash = none
  replay (some (id, s)) hash =
      if str_eq s.payload_hash hash
      then some (ok (replayed id s))
      else some (err idempotency_conflict)

  -- the contract whose schema governs the payload: the claim's bound version, or the current one
  abbrev governing : Option ℕ → ℕ → ℕ → Contract → Time → Tx Db Contract
  governing none agent_id task_id contract now = do
    fail_if contract.claim_required claim_required
    pure contract
  governing (some id) agent_id task_id contract now = do
    claim ← check_claim id agent_id task_id now
    db ← get_db
    or_fail (find_task_contract_version task_id claim.contract_version db.versions) internal_error

  -- Steps (c) to (h) of `SubmitWork`, which only read.
  unfoldable pub check_new : ℕ → SubmitInput → ℕ → TaskRow → Time → Tx Db Intake
  check_new agent_id input task_id t now = do
    require_task_audience task_id t agent_id
    fail_if (t.publisher_id == agent_id) own_task
    fail_if (not (is_some input.claim_id) && not (is_open t.status)) (task_not_open t.status)
    fail_if (not (is_some input.claim_id) && ltb (slots_for t t.contract) 1) slots_exhausted
    db ← get_db
    check_rejection_limit
        (count_agent_submissions task_id agent_id (rejections_since now) db.submissions db.events)
        t.contract now
    bound ← governing input.claim_id agent_id task_id t.contract now
    check_revises input.revises agent_id task_id
    fail_if (not (is_json_object input.payload)) schema_mismatch
    fail_if (not (matches_schema bound.schema input.payload)) schema_mismatch
    fail_if (has_credentials input.payload) credential_in_payload
    pure (checked t.contract)

  abbrev check_found : Option (Result Intake) → Tx Db Intake → Tx Db Intake
  check_found none rest = rest
  check_found (some (ok i)) rest = pure i
  check_found (some (err e)) rest = fail e

  -- Steps (a) to (h): a repeated request is answered before any other check of the task.
  unfoldable pub submit_check : ℕ → SubmitInput → Time → Tx Db Intake
  submit_check agent_id input now = do
    fail_if (not (is_request_key input.request_key)) invalid_request_key
    fail_if (ltb max_payload_bytes (length input.payload)) payload_too_large
    db ← get_db
    (task_id, t) ← or_fail (find_task_by_code input.code db) task_not_found
    check_found
        (replay (find_submission_by_identity task_id agent_id input.request_key db)
          (payload_hash input.payload))
        (check_new agent_id input task_id t now)

  -- The contract-dependent checks once more, where an edit has come in between.
  abbrev pub recheck_contract : Bool → SubmitInput → Contract → Tx Db (Unit {0})
  recheck_contract true input contract = pure tt
  recheck_contract false input contract = do
    fail_if contract.claim_required claim_required
    fail_if (not (matches_schema contract.schema input.payload)) schema_mismatch

  -- The write phase: one transaction under the task's row lock. `pre_contract` is what the
  -- pre-check read, perhaps from an earlier state of the database.
  unfoldable pub submit_write : ℕ → SubmitInput → Contract → Time → Tx Db ℕ
  submit_write agent_id input pre_contract now = do
    db ← get_db
    (task_id, t) ← or_fail (find_task_by_code input.code db) internal_error
    fail_if (t.publisher_id == agent_id) own_task
    recheck_contract (is_some input.claim_id || same_contract t.contract pre_contract) input
        t.contract
    check_rejection_limit
        (count_agent_submissions task_id agent_id (rejections_since now) db.submissions db.events)
        t.contract now
    (amount, version, fact_id, harness) ← accept input.claim_id agent_id task_id t now
    insert_submission (record {
      task_id = task_id;
      agent_id = agent_id;
      request_key = input.request_key;
      payload = input.payload;
      payload_hash = payload_hash input.payload;
      amount = amount;
      revises = input.revises;
      claim_id = some fact_id;
      contract_version = version;
      harness = harness;
    })

-- The row that a submission's identity finds, for the caller that lost a race on the unique key.
abbrev raced : PayloadChecks → Option (ℕ × SubmissionRow) → SubmitInput → Result ℕ
raced checks none input = err internal_error
raced checks (some (id, s)) input =
    if str_eq s.payload_hash (checks.payload_hash input.payload)
    then ok id
    else err idempotency_conflict

abbrev identity_of : PayloadChecks → ℕ → SubmitInput → Option (ℕ × TaskRow) → Db → Result ℕ
identity_of checks agent_id input none db = err internal_error
identity_of checks agent_id input (some (task_id, t)) db =
    raced checks (find_submission_by_identity task_id agent_id input.request_key db) input

abbrev submit_failed : PayloadChecks → ℕ → SubmitInput → Err → Db → Result ℕ
submit_failed checks agent_id input unique_violation db =
    identity_of checks agent_id input (find_task_by_code input.code db) db
submit_failed checks agent_id input constraint_violation db = err internal_error
submit_failed checks agent_id input e db = err e

abbrev with_db : Db → Result ℕ → Result ℕ × Db
with_db db r = (r, db)

-- `SubmitWork` from the write phase on: the intake's commit and then the delivery, whose reply is
-- `res`. The result is the id of the submission to show.
unfoldable pub submit_new :
    PayloadChecks → ℕ → SubmitInput → Contract → PostResult → Time → Db → Result ℕ × Db
submit_new checks agent_id input pre_contract res now db =
    elim (submit_write checks agent_id input pre_contract now db) [
      | err e ↦ with_db db (submit_failed checks agent_id input e db)
      | ok (id, db') ↦ elim (deliver_submission id res db') [
        | err e ↦ (err e, db')
        | ok (_, db'') ↦ (ok id, db'')
      ]
    ]

-- `SubmitWork` with no other transaction in between
unfoldable pub submit_work :
    PayloadChecks → ℕ → SubmitInput → PostResult → Time → Db → Result ℕ × Db
submit_work checks agent_id input res now db = elim (submit_check checks agent_id input now db) [
  | err e ↦ (err e, db)
  | ok (replayed id s, _) ↦ (ok id, db)
  | ok (checked contract, _) ↦ submit_new checks agent_id input contract res now db
]
