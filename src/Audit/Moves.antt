-- ===== src/Audit/Moves.antt =====
-- How each primitive of the repository moves what the audit reads of a task `k`.
use kungfu.Base.{
  ℕ, zero, suc, ◌+◌, ◌≤◌, ◌≡◌, refl, some, lookup, put, Keyed, arith, Keyed-put, ℤ, pos, pos_part,
}
use kungfu.Tables.{Db, TaskRow}
use kungfu.Repository.{positive}
use kungfu.Audit.Sums.{
  share, counter_at, claim_sum, submission_sum, counter_at-put, share_sum, share_zero,
}

-- What is added to a sum of the audit, and what is taken from it.
pub record Change : Type 0 where
  pub budget : ℕ
  pub settled : ℕ
  pub reserved_up : ℕ
  pub reserved_down : ℕ
  pub refunded : ℕ
  pub claims_up : ℕ
  pub claims_down : ℕ
  pub submissions_up : ℕ
  pub submissions_down : ℕ

abbrev pub still : Change
still = record {
  budget = 0;
  settled = 0;
  reserved_up = 0;
  reserved_down = 0;
  refunded = 0;
  claims_up = 0;
  claims_down = 0;
  submissions_up = 0;
  submissions_down = 0;
}

pub record Moves (k : ℕ) (c : Change) (db db' : Db) : Type 0 where
  pub budget_moves :
      counter_at (λ t. t.budget_locked) k db'.tasks
      ≡ counter_at (λ t. t.budget_locked) k db.tasks + c.budget
  pub settled_moves :
      counter_at (λ t. t.settled) k db'.tasks ≡ counter_at (λ t. t.settled) k db.tasks + c.settled
  pub reserved_moves :
      counter_at (λ t. t.reserved) k db'.tasks + c.reserved_down
      ≡ counter_at (λ t. t.reserved) k db.tasks + c.reserved_up
  pub refunded_moves :
      counter_at (λ t. t.refunded) k db'.tasks
      ≡ counter_at (λ t. t.refunded) k db.tasks + c.refunded
  pub claims_move : claim_sum k db'.claims + c.claims_down ≡ claim_sum k db.claims + c.claims_up
  pub submissions_move :
      submission_sum k db'.submissions + c.submissions_down
      ≡ submission_sum k db.submissions + c.submissions_up

-- Unique keys stay unique.
pub record KeepsKeys (db db' : Db) : Type 0 where
  pub tasks_kept : Keyed db.tasks → Keyed db'.tasks
  pub claims_kept : Keyed db.claims → Keyed db'.claims
  pub submissions_kept : Keyed db.submissions → Keyed db'.submissions

pub record Effect (c : ℕ → Change) (db db' : Db) : Type 0 where
  pub moves : (k : ℕ) → Moves k (c k) db db'
  pub keys : KeepsKeys db db'

pub positive_part : (a : ℤ) (n : ℕ) → positive a ≡ some n → n ≡ pos_part a
positive_part a n h = ground arith

pub positive_pos : (a : ℤ) (n : ℕ) → positive a ≡ some n → 1 ≤ n
positive_pos a n h = ground arith

pub positive-pos : (n : ℕ) → 1 ≤ n → positive (pos n) ≡ some n
positive-pos zero h = absurd (omega arith)
positive-pos (suc n) h = refl

-- An update of the row of one task.
abbrev pub task_change : ℕ → (b s ru rd f : ℕ) → ℕ → Change
task_change task_id b s ru rd f k = record still {
  budget = share k task_id b;
  settled = share k task_id s;
  reserved_up = share k task_id ru;
  reserved_down = share k task_id rd;
  refunded = share k task_id f;
}

module _ (task_id : ℕ) (t u : TaskRow) (db : Db) (found : lookup task_id db.tasks ≡ some u) where
  -- one counter of the updated row
  counter_update :
      (f : TaskRow → ℕ) (k up down : ℕ)
      → f t + down ≡ f u + up
      → counter_at f k (put task_id t db.tasks) + share k task_id down
        ≡ counter_at f k db.tasks + share k task_id up
  counter_update f k up down h = omega (
    arith,
    counter_at-put f k task_id t u db.tasks found,
    share_sum k task_id (f t) down (f u) up h,
  )

  pub task_update-Effect :
      (b s ru rd f : ℕ)
      → t.budget_locked ≡ u.budget_locked + b
      → t.settled ≡ u.settled + s
      → t.reserved + rd ≡ u.reserved + ru
      → t.refunded ≡ u.refunded + f
      → Effect (task_change task_id b s ru rd f) db (record db { tasks = put task_id t db.tasks })
  task_update-Effect b s ru rd f eb es er ef = record {
    moves = λ k. record {
      budget_moves =
          omega (
            arith,
            counter_update (λ t. t.budget_locked) k b 0 (omega arith),
            share_zero k task_id,
          );
      settled_moves =
          omega (arith, counter_update (λ t. t.settled) k s 0 (omega arith), share_zero k task_id);
      reserved_moves = counter_update (λ t. t.reserved) k ru rd er;
      refunded_moves =
          omega (arith, counter_update (λ t. t.refunded) k f 0 (omega arith), share_zero k task_id);
      claims_move = refl;
      submissions_move = refl;
    };
    keys = record {
      tasks_kept = λ h. Keyed-put task_id t db.tasks h;
      claims_kept = λ h. h;
      submissions_kept = λ h. h;
    };
  }

-- What the audit reads stays as it is.
pub record Untouched (db db' : Db) : Type 0 where
  pub same_tasks : db'.tasks ≡ db.tasks
  pub same_claims : db'.claims ≡ db.claims
  pub same_submissions : db'.submissions ≡ db.submissions

pub Effect-Untouched :
    {c : ℕ → Change} {db db' : Db} (db'' : Db)
    → Effect c db db'
    → Untouched db' db''
    → Effect c db db''
Effect-Untouched {c} {db} {db'} db'' e u = record {
  moves = λ k. record {
    budget_moves = rw u.same_tasks (e.moves k).budget_moves;
    settled_moves = rw u.same_tasks (e.moves k).settled_moves;
    reserved_moves = rw u.same_tasks (e.moves k).reserved_moves;
    refunded_moves = rw u.same_tasks (e.moves k).refunded_moves;
    claims_move = rw u.same_claims (e.moves k).claims_move;
    submissions_move = rw u.same_submissions (e.moves k).submissions_move;
  };
  keys = record {
    tasks_kept = λ h. rw u.same_tasks (e.keys.tasks_kept h);
    claims_kept = λ h. rw u.same_claims (e.keys.claims_kept h);
    submissions_kept = λ h. rw u.same_submissions (e.keys.submissions_kept h);
  };
}

pub Effect-still : (db : Db) → Effect (λ k. still) db db
Effect-still db = record {
  moves = λ k. record {
    budget_moves = omega arith;
    settled_moves = omega arith;
    reserved_moves = omega arith;
    refunded_moves = omega arith;
    claims_move = omega arith;
    submissions_move = omega arith;
  };
  keys = record { tasks_kept = λ h. h; claims_kept = λ h. h; submissions_kept = λ h. h };
}

pub Effect-zero : (task_id : ℕ) (db : Db) → Effect (task_change task_id 0 0 0 0 0) db db
Effect-zero task_id db = record {
  moves = λ k. record {
    budget_moves = omega (arith, share_zero k task_id);
    settled_moves = omega (arith, share_zero k task_id);
    reserved_moves = omega (arith, share_zero k task_id);
    refunded_moves = omega (arith, share_zero k task_id);
    claims_move = omega arith;
    submissions_move = omega arith;
  };
  keys = (Effect-still db).keys;
}

abbrev pub plus : Change → Change → Change
plus c d = record {
  budget = c.budget + d.budget;
  settled = c.settled + d.settled;
  reserved_up = c.reserved_up + d.reserved_up;
  reserved_down = c.reserved_down + d.reserved_down;
  refunded = c.refunded + d.refunded;
  claims_up = c.claims_up + d.claims_up;
  claims_down = c.claims_down + d.claims_down;
  submissions_up = c.submissions_up + d.submissions_up;
  submissions_down = c.submissions_down + d.submissions_down;
}

pub Moves-plus :
    {k : ℕ} {c d : Change} {db db' db'' : Db}
    → Moves k c db db'
    → Moves k d db' db''
    → Moves k (plus c d) db db''
Moves-plus m n = omega arith

-- Two effects in a row, for the sum of their changes.
pub Effect-plus :
    {c d : ℕ → Change} {db db' db'' : Db}
    → Effect c db db'
    → Effect d db' db''
    → Effect (λ k. plus (c k) (d k)) db db''
Effect-plus e f = record {
  moves = λ k. Moves-plus (e.moves k) (f.moves k);
  keys = record {
    tasks_kept = λ h. f.keys.tasks_kept (e.keys.tasks_kept h);
    claims_kept = λ h. f.keys.claims_kept (e.keys.claims_kept h);
    submissions_kept = λ h. f.keys.submissions_kept (e.keys.submissions_kept h);
  };
}
