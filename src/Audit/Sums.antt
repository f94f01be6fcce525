-- ===== src/Audit/Sums.antt =====
-- internal/task/invariants.go, items 1 and 2 of the spec: what the audit reads of a task.
use kungfu.Base.{
  ℕ, ◌+◌, ◌≤◌, ◌≡◌, refl, Option, none, some, ◌∷◌, ◌==◌, if◌then◌else◌, Table, lookup, put, total,
  fresh, Keyed, arith, lookup-put, total-put, lookup-fresh,
}
use kungfu.Task.{is_active, submission_terminal}
use kungfu.Tables.{Db, TaskRow, ClaimRow, SubmissionRow}

-- n for the task itself, nothing for another
unfoldable pub share : ℕ → ℕ → ℕ → ℕ
share k j n = if k == j then n else 0

abbrev or_zero : (TaskRow → ℕ) → Option TaskRow → ℕ
or_zero f none = 0
or_zero f (some t) = f t

-- a counter of a task
unfoldable pub counter_at : (TaskRow → ℕ) → ℕ → Table TaskRow → ℕ
counter_at f k tasks = or_zero f (lookup k tasks)

unfoldable pub claim_weight : ℕ → ClaimRow → ℕ
unfolding share
claim_weight k c = if is_active c.status then share k c.task_id c.amount else 0

unfoldable pub submission_weight : ℕ → SubmissionRow → ℕ
unfolding share
submission_weight k s = if submission_terminal s.state then 0 else share k s.task_id s.amount

-- SUM(amount) over the active claims of a task
unfoldable pub claim_sum : ℕ → Table ClaimRow → ℕ
unfolding claim_weight
claim_sum k = total (claim_weight k)

-- SUM(amount) over the submissions in delivering or uncertain
unfoldable pub submission_sum : ℕ → Table SubmissionRow → ℕ
unfolding submission_weight
submission_sum k = total (submission_weight k)

-- §10.1 and §10.2 for every task, and that primary keys are unique.
pub record IsBalanced (db : Db) : Type 0 where
  pub tasks_keyed : Keyed db.tasks
  pub claims_keyed : Keyed db.claims
  pub submissions_keyed : Keyed db.submissions
  pub within :
      (k : ℕ)
      → counter_at (λ t. t.settled) k db.tasks
          + counter_at (λ t. t.reserved) k db.tasks
          + counter_at (λ t. t.refunded) k db.tasks
        ≤ counter_at (λ t. t.budget_locked) k db.tasks
  pub backed :
      (k : ℕ)
      → counter_at (λ t. t.reserved) k db.tasks
        ≡ claim_sum k db.claims + submission_sum k db.submissions

-- a weight of one row's insertion
pub claim_sum-cons :
    (k j : ℕ) (c : ClaimRow) (claims : Table ClaimRow)
    → claim_sum k ((j, c) ∷ claims) ≡ claim_weight k c + claim_sum k claims
unfolding claim_sum total
claim_sum-cons k j c claims = refl

pub submission_sum-cons :
    (k j : ℕ) (s : SubmissionRow) (submissions : Table SubmissionRow)
    → submission_sum k ((j, s) ∷ submissions) ≡ submission_weight k s + submission_sum k submissions
unfolding submission_sum total
submission_sum-cons k j s submissions = refl

-- a new task whose counters are zero
pub counter_at-cons :
    (f : TaskRow → ℕ) (k : ℕ) (t : TaskRow) (tasks : Table TaskRow)
    → f t ≡ 0
    → counter_at f k ((fresh tasks, t) ∷ tasks) ≡ counter_at f k tasks
unfolding counter_at lookup
counter_at-cons f k t tasks h = ground (arith, lookup-fresh tasks)

pub share_self : (k n : ℕ) → share k k n ≡ n
unfolding share
share_self k n = ground arith

-- How an update of one row moves what the audit reads.
pub counter_at-put :
    (f : TaskRow → ℕ) (k j : ℕ) (t u : TaskRow) (tasks : Table TaskRow)
    → lookup j tasks ≡ some u
    → counter_at f k (put j t tasks) + share k j (f u) ≡ counter_at f k tasks + share k j (f t)
unfolding counter_at share
counter_at-put f k j t u tasks h = ground (arith, lookup-put j k t u tasks, h)

pub claim_sum-put :
    (k j : ℕ) (c d : ClaimRow) (claims : Table ClaimRow)
    → lookup j claims ≡ some d
    → claim_sum k (put j c claims) + claim_weight k d ≡ claim_sum k claims + claim_weight k c
unfolding claim_sum
claim_sum-put k j c d claims h = total-put (claim_weight k) j c d claims h

pub submission_sum-put :
    (k j : ℕ) (s u : SubmissionRow) (submissions : Table SubmissionRow)
    → lookup j submissions ≡ some u
    → submission_sum k (put j s submissions) + submission_weight k u
      ≡ submission_sum k submissions + submission_weight k s
unfolding submission_sum
submission_sum-put k j s u submissions h = total-put (submission_weight k) j s u submissions h

pub counter_at_self :
    (f : TaskRow → ℕ) (k : ℕ) (t : TaskRow) (tasks : Table TaskRow)
    → lookup k tasks ≡ some t
    → counter_at f k tasks ≡ f t
unfolding counter_at
counter_at_self f k t tasks h = ground arith

pub share_sum :
    (k j a b c d : ℕ) → a + b ≡ c + d → share k j a + share k j b ≡ share k j c + share k j d
unfolding share
share_sum k j a b c d h = ground arith

pub share_zero : (k j : ℕ) → share k j 0 ≡ 0
unfolding share
share_zero k j = ground arith
