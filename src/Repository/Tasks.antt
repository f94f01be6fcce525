-- ===== src/Repository/Tasks.antt =====
-- internal/repository/task_v1.go (tb_task and its contract versions) and task_audience.go.
use text.Mathlib.Text.{◌==◌ as str_eq}
use kungfu.Base.{
  ℕ, ◌+◌, String, Bool, true, false, ◌&&◌, ◌||◌, not, Option, none, some, List, [], ◌∷◌, ◌++◌, map,
  ◌==◌, if◌then◌else◌, lookup, put, first, fresh, is_some,
}
use kungfu.Task.{
  TaskStatus, task_paused, task_closed, TaskEvent, same_task_status, task_transition, Contract,
}
use kungfu.Tx.{
  Tx, ◌>>=◌, ◌>>◌, pure, fail_if, or_fail, gets, modify, state_conflict, illegal_transition,
  constraint_violation, unique_violation,
}
use kungfu.Tables.{Db, TaskRow, VersionRow, Time}

-- `FindTaskByCode`; the one with FOR UPDATE reads the same
unfoldable pub find_task_by_code : String → Db → Option (ℕ × TaskRow)
find_task_by_code code db = first (λ (t : TaskRow). str_eq t.code code) db.tasks

unfoldable pub find_task_contract_version : ℕ → ℕ → List VersionRow → Option Contract
find_task_contract_version task_id version [] = none
find_task_contract_version task_id version (v ∷ vs) =
    if v.version_task_id == task_id && v.version == version
    then some v.version_contract
    else find_task_contract_version task_id version vs

-- the row of a new task, paused and with zeroed counters
abbrev pub new_task : String → ℕ → Contract → Time → TaskRow
new_task code publisher_id contract now = record {
  code = code;
  publisher_id = publisher_id;
  status = task_paused;
  budget_locked = 0;
  settled = 0;
  reserved = 0;
  refunded = 0;
  paused_reason = none;
  closed_reason = none;
  contract = contract;
  contract_version = 1;
  created_at = now;
  updated_at = now;
}

-- A code that is taken violates `uk_task_code`; the publisher is a foreign key.
unfoldable pub insert_task : String → ℕ → Contract → Tx Db ℕ
insert_task code publisher_id contract = do
  db ← gets (λ (db : Db). db)
  fail_if (is_some (find_task_by_code code db)) unique_violation
  fail_if (not (is_some (lookup publisher_id db.bots))) constraint_violation
  modify (λ (d : Db). record d {
    tasks = (fresh d.tasks, new_task code publisher_id contract d.now) ∷ d.tasks;
    versions =
        record { version_task_id = fresh d.tasks; version = 1; version_contract = contract }
        ∷ d.versions;
  })
  pure (fresh db.tasks)

-- The compare-and-swap on the version; a version row that stands already violates its key.
unfoldable pub replace_task_contract : ℕ → ℕ → Contract → Tx Db ℕ
replace_task_contract task_id from_version contract = do
  db ← gets (λ (db : Db). db)
  t ← or_fail (lookup task_id db.tasks) state_conflict
  fail_if (not (t.contract_version == from_version)) state_conflict
  fail_if (is_some (find_task_contract_version task_id (t.contract_version + 1) db.versions))
      unique_violation
  modify (λ (d : Db). record d {
    tasks =
        put task_id
          (record t {
            contract = contract;
            contract_version = t.contract_version + 1;
            updated_at = d.now;
          })
          d.tasks;
    versions =
        record {
          version_task_id = task_id;
          version = t.contract_version + 1;
          version_contract = contract;
        }
        ∷ d.versions;
  })
  pure (t.contract_version + 1)

-- The reason columns are kept only in the status that they explain.
unfoldable pub apply_task_status : ℕ → TaskStatus → TaskEvent → Option String → Tx Db (Unit {0})
apply_task_status task_id from event reason = do
  to ← or_fail (task_transition from event) illegal_transition
  db ← gets (λ (db : Db). db)
  t ← or_fail (lookup task_id db.tasks) state_conflict
  fail_if (not (same_task_status t.status from)) state_conflict
  modify (λ (d : Db). record d {
    tasks =
        put task_id
          (record t {
            status = to;
            paused_reason = if same_task_status to task_paused then reason else none;
            closed_reason = if same_task_status to task_closed then reason else none;
            updated_at = d.now;
          })
          d.tasks;
  })

unfoldable pub insert_task_audience : ℕ → List ℕ → Tx Db (Unit {0})
insert_task_audience task_id agent_ids = modify (λ (d : Db). record d {
  task_audience = map (λ (a : ℕ). (task_id, a)) agent_ids ++ d.task_audience;
})

unfoldable pub is_restricted : ℕ → List (ℕ × ℕ) → Bool
is_restricted task_id [] = false
is_restricted task_id ((t, a) ∷ rows) = if t == task_id then true else is_restricted task_id rows

unfoldable pub is_named : ℕ → ℕ → List (ℕ × ℕ) → Bool
is_named task_id agent_id [] = false
is_named task_id agent_id ((t, a) ∷ rows) =
    if t == task_id && a == agent_id then true else is_named task_id agent_id rows

unfoldable pub task_audience_visible : ℕ → ℕ → Db → Bool
task_audience_visible task_id agent_id db =
    not (is_restricted task_id db.task_audience) || is_named task_id agent_id db.task_audience
