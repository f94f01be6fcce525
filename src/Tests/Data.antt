-- ===== src/Tests/Data.antt =====
-- The concrete databases of the tests.
use kungfu.Base.{ℕ, refl, true, false, none, some, List, [], ◌∷◌, arith, lookup, total, Table, pos}
use kungfu.Task.{
  task_open, claim_active, sub_delivering, event_submit, Contract, ContractChecks, TaskStatus,
  SubmissionState,
}
use kungfu.Tables.{Db, TaskRow, ClaimRow, SubmissionRow, SubmissionEventRow, BotRow}
use kungfu.Audit.Sums.{
  IsBalanced, counter_at, claim_sum, submission_sum, claim_weight, submission_weight, share,
}
use kungfu.Service.Deliver.{PostResult}
use kungfu.Service.Submit.{PayloadChecks}

abbrev pub contract : Contract
contract = record {
  title = "Review";
  requirements = "Read it.";
  harness_refs = [];
  schema = none;
  receiver_url = "https://r.example";
  price = pos 10;
  max_rejected_per_agent = none;
  claim_required = false;
  claim_ttl = some (pos 600);
  claim_max_duration = none;
  contract_audience = none;
}

abbrev pub task : TaskStatus → (budget settled reserved refunded : ℕ) → TaskRow
task status budget settled reserved refunded = record {
  code = "t1";
  publisher_id = 1;
  status = status;
  budget_locked = budget;
  settled = settled;
  reserved = reserved;
  refunded = refunded;
  paused_reason = none;
  closed_reason = none;
  contract = contract;
  contract_version = 1;
  created_at = 0;
  updated_at = 0;
}

abbrev pub claim : ClaimRow
claim = record {
  task_id = 1;
  agent_id = 2;
  contract_version = 1;
  expires_at = 600;
  deadline = 900;
  amount = 10;
  status = claim_active;
  created_at = 0;
  updated_at = 0;
}

abbrev pub submission : SubmissionState → SubmissionRow
submission state = record {
  task_id = 1;
  agent_id = 2;
  request_key = "k1";
  payload = some (123 ∷ 125 ∷ []);
  payload_hash = "h";
  amount = 20;
  state = state;
  response_code = none;
  response_body = none;
  failure = none;
  revises = none;
  claim_id = none;
  contract_version = 1;
  harness = none;
  created_at = 0;
  updated_at = 0;
  settled_at = none;
}

abbrev pub bots : Table BotRow
bots =
    (1, record { name = "publisher"; balance = pos 1000; updated_at = 0 })
    ∷ (2, record { name = "agent"; balance = pos 5; updated_at = 0 })
    ∷ []

-- A task with one active claim and one submission under way.
abbrev pub db_of : TaskRow → Table ClaimRow → Table SubmissionRow → List SubmissionEventRow → Db
db_of t claims submissions events = record {
  now = 100;
  bots = bots;
  transactions = [];
  memories = (7, record { code = "m7"; owner_id = 1; is_current = true; revision = 3 }) ∷ [];
  tasks = (1, t) ∷ [];
  versions = record { version_task_id = 1; version = 1; version_contract = contract } ∷ [];
  task_audience = [];
  claims = claims;
  pins = [];
  submissions = submissions;
  events = events;
  reports = [];
}

abbrev pub submitted : SubmissionEventRow
submitted = record {
  submission_id = 1;
  seq = 1;
  from_state = none;
  to_state = sub_delivering;
  cause = event_submit;
  at = 0;
}

abbrev pub db : Db
db =
    db_of (task task_open 100 0 30 0) ((1, claim) ∷ []) ((1, submission sub_delivering) ∷ [])
      (submitted ∷ [])

pub db-IsBalanced : IsBalanced db
unfolding counter_at lookup claim_sum submission_sum claim_weight submission_weight share total
db-IsBalanced = record {
  tasks_keyed = (refl, tt);
  claims_keyed = (refl, tt);
  submissions_keyed = (refl, tt);
  within = λ k. ground arith;
  backed = λ k. ground arith;
}

abbrev pub reply : ℕ → PostResult
reply code = record { success = true; response_code = some code; response_body = none; sent = true }

abbrev pub payloads : PayloadChecks
payloads = record {
  payload_hash = λ p. "h";
  is_json_object = λ p. true;
  matches_schema = λ schema p. true;
  has_credentials = λ p. false;
}

abbrev pub contract_checks : ContractChecks
contract_checks = record {
  schema_problems = λ raw. 0;
  is_https_url = λ url. true;
  credential_hits = λ c. 0;
}
