-- ===== src/Audit/Balance.antt =====
-- The audit's equations under an effect.
use kungfu.Base.{ℕ, ◌+◌, ◌≤◌, ◌≡◌, arith}
use kungfu.Tables.{Db}
use kungfu.Audit.Sums.{share, counter_at, IsBalanced, share_zero}
use kungfu.Audit.Moves.{Change, still, Effect, task_change}
use kungfu.Audit.Primitives.{HasRoom}

-- What goes to the reservations comes from claims and submissions, task by task.
abbrev pub IsEven : Change → Type 0
IsEven c =
    c.reserved_up + c.claims_down + c.submissions_down
    ≡ c.reserved_down + c.claims_up + c.submissions_up

pub Effect-IsBalanced :
    {c : ℕ → Change} {db db' : Db}
    → IsBalanced db
    → Effect c db db'
    → ((k : ℕ) → IsEven (c k))
    → ((k : ℕ)
        → counter_at (λ t. t.settled) k db.tasks
            + counter_at (λ t. t.reserved) k db.tasks
            + counter_at (λ t. t.refunded) k db.tasks
            + (c k).settled
            + (c k).reserved_up
            + (c k).refunded
          ≤ counter_at (λ t. t.budget_locked) k db.tasks + (c k).budget + (c k).reserved_down)
    → IsBalanced db'
Effect-IsBalanced b e even fits = record {
  tasks_keyed = e.keys.tasks_kept b.tasks_keyed;
  claims_keyed = e.keys.claims_kept b.claims_keyed;
  submissions_keyed = e.keys.submissions_kept b.submissions_keyed;
  within = λ k. omega (arith, e.moves k, fits k, b.within k);
  backed = λ k. omega (arith, e.moves k, even k, b.backed k);
}

-- Room for a task's share is room at every task.
pub HasRoom-share :
    (task_id n k : ℕ) (db : Db)
    → IsBalanced db
    → HasRoom task_id n db
    → counter_at (λ t. t.settled) k db.tasks
        + counter_at (λ t. t.reserved) k db.tasks
        + counter_at (λ t. t.refunded) k db.tasks
        + share k task_id n
      ≤ counter_at (λ t. t.budget_locked) k db.tasks
unfolding share
HasRoom-share task_id n k db b room = ground (arith, b.within k, room.fits)

-- A task's row is rewritten, and none of its counters.
pub zero-IsBalanced :
    (task_id : ℕ) {db db' : Db}
    → IsBalanced db
    → Effect (task_change task_id 0 0 0 0 0) db db'
    → IsBalanced db'
zero-IsBalanced task_id b e =
    Effect-IsBalanced b e (λ k. omega (arith, share_zero k task_id))
      (λ k. omega (arith, b.within k, share_zero k task_id))

pub still-IsBalanced : {db db' : Db} → IsBalanced db → Effect (λ k. still) db db' → IsBalanced db'
still-IsBalanced b e = Effect-IsBalanced b e (λ k. omega arith) (λ k. omega (arith, b.within k))
