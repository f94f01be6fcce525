-- ===== src/Audit/System.antt =====
-- The transactions of the task economy as one step relation: a run is any sequence of them that
-- commit, those of concurrent requests interleaved.
use kungfu.Base.{ℕ, ◌≤◌, ◌≡◌, refl, String, Bool, Option, [], ℤ, arith, lookup, total}
use kungfu.Task.{Contract, ContractChecks, TaskEvent}
use kungfu.Tx.{ok, Ensures_elim}
use kungfu.Tables.{Db, Time, BotRow, MemoryRow, SubmissionRow, LedgerType, Ref}
use kungfu.Base.{Table}
use kungfu.Credits.{record_entry}
use kungfu.Service.Claim.{claim_task, renew_claim, release_claim, expire_claims}
use kungfu.Service.Deliver.{
  PostResult, finish_delivery, maybe_pause_for_receiver_fault, recover_one,
}
use kungfu.Service.Submit.{PayloadChecks, SubmitInput, submit_write}
use kungfu.Service.Publisher.{
  apply_status_change, fund_task, refund_task, open_task, update_task, create_task,
}
use kungfu.Audit.Sums.{IsBalanced, counter_at, claim_sum, submission_sum}
use kungfu.Audit.Moves.{Effect-still, Effect-Untouched}
use kungfu.Audit.Primitives.{record_entry-Untouched}
use kungfu.Audit.Balance.{still-IsBalanced}
use kungfu.Audit.Claims.{
  claim_task-IsBalanced, renew_claim-IsBalanced, release_claim-IsBalanced, expire_claims-IsBalanced,
}
use kungfu.Audit.Submissions.{
  IsReadOf, finish_delivery-IsBalanced, maybe_pause_for_receiver_fault-IsBalanced,
  recover_one-IsBalanced,
}
use kungfu.Service.Governance.{report_task, platform_close, dismiss_report, close_reported}
use kungfu.Audit.Governance.{
  report_task-IsBalanced, platform_close-IsBalanced, dismiss_report-IsBalanced,
  close_reported-IsBalanced,
}
use kungfu.Audit.Intake.{submit_write-IsBalanced}
use kungfu.Audit.Publisher.{
  apply_status_change-IsBalanced, fund_task-IsBalanced, refund_task-IsBalanced,
  open_task-IsBalanced, update_task-IsBalanced, create_task-IsBalanced,
}

abbrev pub empty_db : Time → Table BotRow → Table MemoryRow → Db
empty_db now bots memories = record {
  now = now;
  bots = bots;
  transactions = [];
  memories = memories;
  tasks = [];
  versions = [];
  task_audience = [];
  claims = [];
  pins = [];
  submissions = [];
  events = [];
  reports = [];
}

empty-IsBalanced :
    (now : Time) (bots : Table BotRow) (memories : Table MemoryRow)
    → IsBalanced (empty_db now bots memories)
unfolding counter_at lookup claim_sum submission_sum total
empty-IsBalanced now bots memories = record {
  tasks_keyed = tt;
  claims_keyed = tt;
  submissions_keyed = tt;
  within = λ k. omega arith;
  backed = λ k. refl;
}

module _ (payloads : PayloadChecks) (contracts : ContractChecks) where
  -- One committed transaction, or the passing of time. An outcome is written for a row that was
  -- read before other transactions may have come in between.
  pub data Step : Db → Db → Type 0 where
    time_passes : (db : Db) (now : Time) → db.now ≤ now → Step db (record db { now = now })
    claims_task :
        (agent_id : ℕ) (code : String) (now : Time) (db db' : Db) {r : _}
        → claim_task agent_id code now db ≡ ok (r, db')
        → Step db db'
    renews :
        (agent_id claim_id : ℕ) (now : Time) (db db' : Db) {r : _}
        → renew_claim agent_id claim_id now db ≡ ok (r, db')
        → Step db db'
    releases :
        (agent_id claim_id : ℕ) (db db' : Db) {r : _}
        → release_claim agent_id claim_id db ≡ ok (r, db')
        → Step db db'
    expires : (now : Time) (batch : ℕ) (db : Db) → Step db (expire_claims now batch db).2
    submits :
        (agent_id : ℕ) (input : SubmitInput) (pre : Contract) (now : Time) (db db' : Db) {r : _}
        → submit_write payloads agent_id input pre now db ≡ ok (r, db')
        → Step db db'
    delivers :
        (submission_id : ℕ) (pre : SubmissionRow) (res : PostResult) (db db' : Db) {r : _}
        → IsReadOf pre submission_id db
        → finish_delivery submission_id pre res db ≡ ok (r, db')
        → Step db db'
    pauses_for_fault :
        (task_id : ℕ) (db db' : Db) {r : _}
        → maybe_pause_for_receiver_fault task_id db ≡ ok (r, db')
        → Step db db'
    recovers :
        (now : Time) (submission_id : ℕ) (res : PostResult) (db db' : Db) {r : _}
        → recover_one now submission_id res db ≡ ok (r, db')
        → Step db db'
    creates :
        (publisher_id : ℕ) (code : String) (contract : Contract) (budget : ℤ) (db db' : Db) {r : _}
        → create_task contracts publisher_id code contract budget db ≡ ok (r, db')
        → Step db db'
    updates :
        (publisher_id : ℕ) (code : String) (contract : Contract) (db db' : Db) {r : _}
        → update_task contracts publisher_id code contract db ≡ ok (r, db')
        → Step db db'
    opens :
        (publisher_id : ℕ) (code : String) (db db' : Db) {r : _}
        → open_task contracts publisher_id code db ≡ ok (r, db')
        → Step db db'
    changes_status :
        (code : String) (publisher : Option ℕ) (event : TaskEvent) (reason : Option String)
        (db db' : Db) {r : _}
        → apply_status_change code publisher event reason db ≡ ok (r, db')
        → Step db db'
    funds :
        (publisher_id : ℕ) (code : String) (amount : ℤ) (db db' : Db) {r : _}
        → fund_task publisher_id code amount db ≡ ok (r, db')
        → Step db db'
    refunds :
        (publisher_id : ℕ) (code : String) (db db' : Db) {r : _}
        → refund_task publisher_id code db ≡ ok (r, db')
        → Step db db'
    reports :
        (agent_id : ℕ) (code reason : String) (db db' : Db) {r : _}
        → report_task agent_id code reason db ≡ ok (r, db')
        → Step db db'
    closes_as_platform :
        (is_admin : Bool) (code reason : String) (db db' : Db) {r : _}
        → platform_close is_admin code reason db ≡ ok (r, db')
        → Step db db'
    dismisses :
        (is_admin : Bool) (report_id : ℕ) (db db' : Db) {r : _}
        → dismiss_report is_admin report_id db ≡ ok (r, db')
        → Step db db'
    closes_reported :
        (is_admin : Bool) (report_id : ℕ) (message : String) (db db' : Db) {r : _}
        → close_reported is_admin report_id message db ≡ ok (r, db')
        → Step db db'
    moves_credits :
        (bot_id : ℕ) (ty : LedgerType) (amount : ℤ) (ref : Option Ref) (allow : Bool) (db db' : Db)
        {r : _}
        → record_entry bot_id ty amount ref allow db ≡ ok (r, db')
        → Step db db'

  pub data Reachable : Db → Type 0 where
    start :
        (now : Time) (bots : Table BotRow) (memories : Table MemoryRow)
        → Reachable (empty_db now bots memories)
    next : {db db' : Db} → Reachable db → Step db db' → Reachable db'

  pub step-IsBalanced : {db db' : Db} → Step db db' → IsBalanced db → IsBalanced db'
  step-IsBalanced (time_passes db now h) b = still-IsBalanced b (
      Effect-Untouched _ (Effect-still db)
        (record { same_tasks = refl; same_claims = refl; same_submissions = refl }))
  step-IsBalanced (claims_task a code now db db' e) b =
      Ensures_elim _ (claim_task-IsBalanced a code now db b) e
  step-IsBalanced (renews a id now db db' e) b =
      Ensures_elim _ (renew_claim-IsBalanced a id now db b) e
  step-IsBalanced (releases a id db db' e) b = Ensures_elim _ (release_claim-IsBalanced a id db b) e
  step-IsBalanced (expires now n db) b = expire_claims-IsBalanced now n db b
  step-IsBalanced (submits a i pre now db db' e) b =
      Ensures_elim _ (submit_write-IsBalanced payloads a i pre now db b) e
  step-IsBalanced (delivers id pre res db db' read e) b =
      Ensures_elim _ (finish_delivery-IsBalanced id pre res db read b) e
  step-IsBalanced (pauses_for_fault id db db' e) b =
      Ensures_elim _ (maybe_pause_for_receiver_fault-IsBalanced id db b) e
  step-IsBalanced (recovers now id res db db' e) b =
      Ensures_elim _ (recover_one-IsBalanced now id res db b) e
  step-IsBalanced (creates p code c n db db' e) b =
      Ensures_elim _ (create_task-IsBalanced contracts p code c n db b) e
  step-IsBalanced (updates p code c db db' e) b =
      Ensures_elim _ (update_task-IsBalanced contracts p code c db b) e
  step-IsBalanced (opens p code db db' e) b =
      Ensures_elim _ (open_task-IsBalanced contracts p code db b) e
  step-IsBalanced (changes_status code p ev reason db db' e) b =
      Ensures_elim _ (apply_status_change-IsBalanced code p ev reason db b) e
  step-IsBalanced (funds p code n db db' e) b =
      Ensures_elim _ (fund_task-IsBalanced p code n db b) e
  step-IsBalanced (refunds p code db db' e) b =
      Ensures_elim _ (refund_task-IsBalanced p code db b) e
  step-IsBalanced (reports a code reason db db' e) b =
      Ensures_elim _ (report_task-IsBalanced a code reason db b) e
  step-IsBalanced (closes_as_platform adm code reason db db' e) b =
      Ensures_elim _ (platform_close-IsBalanced adm code reason db b) e
  step-IsBalanced (dismisses adm id db db' e) b =
      Ensures_elim _ (dismiss_report-IsBalanced adm id db b) e
  step-IsBalanced (closes_reported adm id message db db' e) b =
      Ensures_elim _ (close_reported-IsBalanced adm id message db b) e
  step-IsBalanced (moves_credits id ty n ref allow db db' e) b = still-IsBalanced b (
      Effect-Untouched db' (Effect-still db)
        (Ensures_elim _ (record_entry-Untouched id ty n ref allow db) e))

  -- Of every database that the transactions lead to from one without tasks: each task's settled,
  -- reserved and refunded amounts are within its budget, and its reserved amount is exactly the sum
  -- of its active claims and of its submissions in delivering or uncertain.
  pub Reachable-IsBalanced : (db : Db) → Reachable db → IsBalanced db
  Reachable-IsBalanced db (start now bots memories) = empty-IsBalanced now bots memories
  Reachable-IsBalanced db (next r s) = step-IsBalanced s (Reachable-IsBalanced _ r)
