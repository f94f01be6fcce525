-- ===== src/Repository/Submissions.antt =====
-- internal/repository/task_v1.go, the submissions: tb_task_submission and its append-only events.
use text.Mathlib.Text.{◌==◌ as str_eq}
use kungfu.Base.{
  ℕ, suc, ◌+◌, String, Bool, true, false, ◌&&◌, ◌||◌, not, Option, none, some, List, [], ◌∷◌, map,
  ◌==◌, leb, ltb, if◌then◌else◌, lookup, put, first, fresh, is_some, Table, select, take,
}
use kungfu.Task.{
  SubmissionState, sub_delivering, sub_uncertain, sub_settled, sub_rejected, SubmissionEvent,
  event_submit, same_submission_state, submission_terminal, submission_transition,
}
use kungfu.Tx.{
  Tx, ◌>>=◌, ◌>>◌, pure, fail_if, or_fail, gets, modify, state_conflict, illegal_transition,
  constraint_violation, unique_violation,
}
use kungfu.Tables.{Db, Time, SubmissionRow, SubmissionEventRow, FailureReason}

unfoldable pub is_identity : ℕ → ℕ → String → SubmissionRow → Bool
is_identity task_id agent_id request_key s =
    s.agent_id == agent_id && s.task_id == task_id && str_eq s.request_key request_key

unfoldable pub find_submission_by_identity : ℕ → ℕ → String → Db → Option (ℕ × SubmissionRow)
unfolding is_identity
find_submission_by_identity task_id agent_id request_key db =
    first (is_identity task_id agent_id request_key) db.submissions

pub record NewSubmissionRow : Type 0 where
  pub task_id : ℕ
  pub agent_id : ℕ
  pub request_key : String
  pub payload : List ℕ
  pub payload_hash : String
  pub amount : ℕ
  pub revises : Option ℕ
  pub claim_id : Option ℕ
  pub contract_version : ℕ
  pub harness : Option (List (String × ℕ))

-- COALESCE(MAX(seq), 0) of a submission's events
unfoldable pub max_seq : ℕ → List SubmissionEventRow → ℕ
max_seq submission_id [] = 0
max_seq submission_id (e ∷ es) =
    let rest = max_seq submission_id es in
    if e.submission_id == submission_id && ltb rest e.seq then e.seq else rest

-- Foreign keys, and the unique key (agent, task, request_key).
unfoldable pub insert_submission : NewSubmissionRow → Tx Db ℕ
insert_submission input = do
  db ← gets (λ (db : Db). db)
  fail_if (not (is_some (lookup input.task_id db.tasks))) constraint_violation
  fail_if (not (is_some (lookup input.agent_id db.bots))) constraint_violation
  fail_if (input.amount == 0) constraint_violation
  fail_if (is_some (find_submission_by_identity input.task_id input.agent_id input.request_key db))
      unique_violation
  modify (λ (d : Db). record d {
    submissions =
        (
          fresh d.submissions,
          record {
            task_id = input.task_id;
            agent_id = input.agent_id;
            request_key = input.request_key;
            payload = some input.payload;
            payload_hash = input.payload_hash;
            amount = input.amount;
            state = sub_delivering;
            response_code = none;
            response_body = none;
            failure = none;
            revises = input.revises;
            claim_id = input.claim_id;
            contract_version = input.contract_version;
            harness = input.harness;
            created_at = d.now;
            updated_at = d.now;
            settled_at = none;
          },
        )
        ∷ d.submissions;
    events =
        record {
          submission_id = fresh d.submissions;
          seq = 1;
          from_state = none;
          to_state = sub_delivering;
          cause = event_submit;
          at = d.now;
        }
        ∷ d.events;
  })
  pure (fresh db.submissions)

pub record SetSubmissionStateOpts : Type 0 where
  pub response_code : Option ℕ
  pub response_body : Option (List ℕ)
  pub failure : Option FailureReason

abbrev pub no_opts : SetSubmissionStateOpts
no_opts = record { response_code = none; response_body = none; failure = none }

abbrev pub coalesce {ℓ} : {A : Type ℓ} → Option A → Option A → Option A
coalesce (some a) o = some a
coalesce none o = o

-- The UPDATE of `SetSubmissionState` on the row.
unfoldable pub updated_submission :
    SubmissionRow → SubmissionState → SetSubmissionStateOpts → Time → SubmissionRow
updated_submission s to opts now = record s {
  state = to;
  response_code = coalesce opts.response_code s.response_code;
  response_body = coalesce opts.response_body s.response_body;
  failure = coalesce opts.failure s.failure;
  payload = if submission_terminal to then none else s.payload;
  settled_at = if same_submission_state to sub_settled then some now else s.settled_at;
  updated_at = now;
}

-- The only write of a submission's state: the row and its event in one call.
unfoldable pub set_submission_state :
    ℕ → SubmissionState → SubmissionEvent → SetSubmissionStateOpts → Tx Db (Unit {0})
set_submission_state submission_id from event opts = do
  to ← or_fail (submission_transition from event) illegal_transition
  db ← gets (λ (db : Db). db)
  s ← or_fail (lookup submission_id db.submissions) state_conflict
  fail_if (not (same_submission_state s.state from)) state_conflict
  modify (λ (d : Db). record d {
    submissions = put submission_id (updated_submission s to opts d.now) d.submissions;
    events =
        record {
          submission_id = submission_id;
          seq = max_seq submission_id d.events + 1;
          from_state = some from;
          to_state = to;
          cause = event;
          at = d.now;
        }
        ∷ d.events;
  })

abbrev newer : SubmissionEventRow → Option SubmissionEventRow → Option SubmissionEventRow
newer e none = some e
newer e (some f) = if ltb f.seq e.seq then some e else some f

abbrev older : SubmissionEventRow → Option SubmissionEventRow → Option SubmissionEventRow
older e none = some e
older e (some f) = if leb e.seq f.seq then some e else some f

-- … WHERE submission_id = $1 AND p(to_state) ORDER BY seq DESC LIMIT 1
unfoldable pub last_event :
    (SubmissionState → Bool) → ℕ → List SubmissionEventRow → Option SubmissionEventRow
last_event p submission_id [] = none
last_event p submission_id (e ∷ es) =
    let rest = last_event p submission_id es in
    if e.submission_id == submission_id && p e.to_state then newer e rest else rest

pub record AgentSubmissionCounts : Type 0 where
  pub settled : ℕ
  pub inflight : ℕ
  pub rejected : ℕ
  pub rejected_in_window : ℕ
  pub oldest_rejected_in_window : Option Time

-- `r.at > since` for a rejected submission: the time of its event into `rejected`
unfoldable pub rejected_after : Time → ℕ → SubmissionRow → List SubmissionEventRow → Option Time
rejected_after since submission_id s events =
    if same_submission_state s.state sub_rejected
    then elim (last_event (same_submission_state sub_rejected) submission_id events) [
      | none ↦ none
      | some e ↦ if ltb since e.at then some e.at else none
    ]
    else none

abbrev earlier : Option Time → Option Time → Option Time
earlier none o = o
earlier (some a) none = some a
earlier (some a) (some b) = if leb a b then some a else some b

abbrev tick : Bool → ℕ → ℕ
tick true n = suc n
tick false n = n

-- `CountAgentSubmissions`: the FILTERed aggregates, row by row.
unfoldable pub count_agent_submissions :
    ℕ → ℕ → Time → Table SubmissionRow → List SubmissionEventRow → AgentSubmissionCounts
unfolding rejected_after
count_agent_submissions task_id agent_id since [] events = record {
  settled = 0;
  inflight = 0;
  rejected = 0;
  rejected_in_window = 0;
  oldest_rejected_in_window = none;
}
count_agent_submissions task_id agent_id since ((id, s) ∷ rows) events =
    let c = count_agent_submissions task_id agent_id since rows events in
    if s.task_id == task_id && s.agent_id == agent_id
    then record {
      settled = tick (same_submission_state s.state sub_settled) c.settled;
      inflight = tick (not (submission_terminal s.state)) c.inflight;
      rejected = tick (same_submission_state s.state sub_rejected) c.rejected;
      rejected_in_window = tick (is_some (rejected_after since id s events)) c.rejected_in_window;
      oldest_rejected_in_window =
          earlier (rejected_after since id s events) c.oldest_rejected_in_window;
    }
    else c

-- ORDER BY updated_at DESC, submission_id DESC
unfoldable pub insert_latest : ℕ × SubmissionRow → Table SubmissionRow → Table SubmissionRow
insert_latest x [] = x ∷ []
insert_latest x (y ∷ ys) =
    if ltb y.1.updated_at x.1.updated_at || y.1.updated_at == x.1.updated_at && leb y.0 x.0
    then x ∷ y ∷ ys
    else y ∷ insert_latest x ys

unfoldable pub sort_latest : Table SubmissionRow → Table SubmissionRow
unfolding insert_latest
sort_latest [] = []
sort_latest (x ∷ xs) = insert_latest x (sort_latest xs)

unfoldable pub is_terminal_on : ℕ → SubmissionRow → Bool
is_terminal_on task_id s = s.task_id == task_id && submission_terminal s.state

-- state and failure of the most recent terminal submissions
unfoldable pub recent_terminal_outcomes : ℕ → ℕ → Db → List (SubmissionState × Option FailureReason)
unfolding sort_latest is_terminal_on
recent_terminal_outcomes task_id limit db =
    map (λ (r : ℕ × SubmissionRow). (r.1.state, r.1.failure))
      (take limit (sort_latest (select (is_terminal_on task_id) db.submissions)))

-- the time of the first event into `uncertain`, by seq
unfoldable pub first_event :
    (SubmissionState → Bool) → ℕ → List SubmissionEventRow → Option SubmissionEventRow
first_event p submission_id [] = none
first_event p submission_id (e ∷ es) =
    let rest = first_event p submission_id es in
    if e.submission_id == submission_id && p e.to_state then older e rest else rest

unfoldable pub uncertain_since : ℕ → Db → Option Time
unfolding first_event
uncertain_since submission_id db =
    elim (first_event (same_submission_state sub_uncertain) submission_id db.events) [
      | none ↦ none
      | some e ↦ some e.at
    ]
