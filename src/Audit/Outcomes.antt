-- ===== src/Audit/Outcomes.antt =====
-- internal/service/task_deliver.go: what the outcome of a delivery writes.
use kungfu.Base.{ℕ, ◌+◌, ◌-◌, ◌≡◌, refl, Bool, true, false, some, arith, lookup, ◌∷◌, put, ℤ, pos}
use kungfu.Task.{
  SubmissionState, SubmissionEvent, event_deliver_4xx, event_delivery_failed, submission_transition,
  same_submission_state,
}
use kungfu.Tx.{ok, running}
use kungfu.Tables.{Db, TaskRow, BotRow, SubmissionRow, earn_task, ref_submission}
use kungfu.Repository.{set_submission_state, updated_submission, SetSubmissionStateOpts, max_seq}

-- the database after a submission's state is set
abbrev pub moved :
    ℕ → SubmissionRow → SubmissionState → SubmissionEvent → SetSubmissionStateOpts → Db → Db
moved submission_id s to event opts db = record db {
  submissions = put submission_id (updated_submission s to opts db.now) db.submissions;
  events =
      record {
        submission_id = submission_id;
        seq = max_seq submission_id db.events + 1;
        from_state = some s.state;
        to_state = to;
        cause = event;
        at = db.now;
      }
      ∷ db.events;
}

same_self : (a : SubmissionState) → same_submission_state a a ≡ true
same_self a = ground arith

pub set_state-succeeds :
    (submission_id : ℕ) (s : SubmissionRow) (to : SubmissionState) (event : SubmissionEvent)
    (opts : SetSubmissionStateOpts) (db : Db)
    → lookup submission_id db.submissions ≡ some s
    → submission_transition s.state event ≡ some to
    → set_submission_state submission_id s.state event opts db
      ≡ ok (tt, moved submission_id s to event opts db)
unfolding set_submission_state running
set_state-succeeds submission_id s to event opts db e st = rw (st, e, same_self s.state) refl

-- the events on which the reservation is released
abbrev pub releases : SubmissionEvent → Bool
releases event_deliver_4xx = true
releases event_delivery_failed = true
releases _ = false

-- what settling writes: the counters, the agent's balance and its ledger row
abbrev pub settled_by : ℕ → SubmissionRow → TaskRow → BotRow → ℤ → Db → Db
settled_by submission_id s t bot balance db = record db {
  tasks =
      put s.task_id
        (record t {
          reserved = t.reserved - s.amount;
          settled = t.settled + s.amount;
          updated_at = db.now;
        })
        db.tasks;
  bots = put s.agent_id (record bot { balance = balance; updated_at = db.now }) db.bots;
  transactions =
      record {
        bot_id = s.agent_id;
        txn_type = earn_task;
        amount = pos s.amount;
        balance_after = balance;
        ref = some (ref_submission submission_id);
        created_at = db.now;
      }
      ∷ db.transactions;
}
