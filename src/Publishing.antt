-- ===== src/Publishing.antt =====
-- internal/service/task_publisher.go and task_deliver.go: refunds, the pause for a receiver's faults, and
-- the versions of a contract.
use kungfu.Base.{
  ℕ, suc, zero, ◌+◌, ◌≤◌, ◌≡◌, refl, true, false, not, ◌||◌, ◌&&◌, none, some, arith, String, List,
  [], ◌∷◌, lookup, lookup-put_self, ltb, ◌==◌, if◌then◌else◌, Bool-cases, inl, inr, is_some, length,
  subst, ◌⊎◌, take, map, Keyed, first-lookup,
}
use kungfu.Task.{
  Contract, task_closed, task_open, task_paused, is_open, event_platform_pause, task_transition,
}
use kungfu.Tx.{
  Ensures, holds, Ensures-ok, Ensures-or_fail, Ensures-fail_if, Ensures-call, Ensures-mask,
  Ensures-last_masked, Ensures-if, Ensures-wrap, Ensures_elim,
}
use kungfu.Tables.{Db, TaskRow}
use kungfu.Repository.{
  find_task_by_code, find_task_contract_version, replace_task_contract, available,
  apply_task_status, refund_task_available, recent_terminal_outcomes,
}
use kungfu.Audit.Primitives.{record_credits-Untouched}
use kungfu.Audit.Publisher.{lock_owned_task-same}
use kungfu.Service.Publisher.{refund_task}
use kungfu.Service.Deliver.{maybe_pause_for_receiver_fault, all_counting}

-- An edit that succeeds can be read back under the version that it answers with, and every earlier
-- version of every task reads as before.
pub replace_task_contract-history :
    (task_id from_version : ℕ) (contract : Contract) (db : Db)
    → Ensures
        (λ v db'.
          (find_task_contract_version task_id v db'.versions ≡ some contract)
          × ((k n : ℕ) (c : Contract)
              → find_task_contract_version k n db.versions ≡ some c
              → find_task_contract_version k n db'.versions ≡ some c))
        (replace_task_contract task_id from_version contract db)
unfolding replace_task_contract find_task_contract_version
replace_task_contract-history task_id from_version contract db = Ensures-ok _ _ _ (
    Ensures-or_fail _ _ _ _ λ t e. Ensures-fail_if _ _ _ _ λ g.
      Ensures-fail_if _ _ _ _
        λ free. Ensures-ok _ _ _ (holds (ground arith, λ k n c h. kept k n c t free h)))
  where
    kept :
        (k n : ℕ) (c : Contract) (t : TaskRow)
        → is_some (find_task_contract_version task_id (t.contract_version + 1) db.versions) ≡ false
        → find_task_contract_version k n db.versions ≡ some c
        → (if task_id == k && (t.contract_version + 1) == n
            then some contract
            else find_task_contract_version k n db.versions)
          ≡ some c
    kept k n c t free h = elim (Bool-cases (task_id == k && (t.contract_version + 1) == n)) [
      | inl y ↦
          let same_task : task_id ≡ k = ground arith in
          let same_version : t.contract_version + 1 ≡ n = ground arith in
          let taken : find_task_contract_version task_id (t.contract_version + 1) db.versions
              ≡ some c =
            rw (same_task, same_version) h in
          absurd (ground arith)
      | inr n ↦ rw n h
    ]

refund_row :
    (task_id publisher_id : ℕ) (db : Db)
    → Ensures
        (λ n db'.
          (t : TaskRow) × (lookup task_id db.tasks ≡ some t)
          × (n ≡ available t)
          × (1 ≤ n
              → (t' : TaskRow) × (lookup task_id db'.tasks ≡ some t')
                × (t'.refunded ≡ t.refunded + available t)
                × (available t' ≡ 0)))
        (refund_task_available task_id publisher_id db)
unfolding refund_task_available
refund_row task_id publisher_id db = Ensures-ok _ _ _ (
    Ensures-or_fail _ _ _ _ λ t e.
      Ensures-if (available t == 0) _ _ _
        (λ z. holds (t, e, ground arith, λ p. absurd (omega arith)))
        λ z. Ensures-ok _ _ _ (
          Ensures-wrap _ _ λ v db' r.
            let same = Ensures_elim _ (record_credits-Untouched publisher_id _ _ _ _) r in
            holds (
              t,
              e,
              refl,
              λ p. (
                record t { refunded = t.refunded + available t; updated_at = db.now },
                rw same.same_tasks (lookup-put_self task_id _ t db.tasks e),
                refl,
                omega arith,
              ),
            )))

refunded_from :
    (t u t' : TaskRow)
    → u ≡ t
    → t'.refunded ≡ u.refunded + available u
    → t'.refunded ≡ t.refunded + available t
refunded_from t u t' same h = subst (λ x. t'.refunded ≡ x.refunded + available x) same h

-- Where task keys are unique, a refund that succeeds is of a closed task with nothing reserved; it
-- adds all that is available of the budget, which is more than nothing, to the refunded amount, and
-- leaves nothing available.
pub refund_task_lem :
    (publisher_id : ℕ) (code : String) (db : Db)
    → Keyed db.tasks
    → Ensures
        (λ _ db'.
          (task_id : ℕ) × (t t' : TaskRow) × (find_task_by_code code db ≡ some (task_id, t))
          × (t.status ≡ task_closed)
          × (t.reserved ≡ 0)
          × (1 ≤ available t)
          × (lookup task_id db'.tasks ≡ some t')
          × (t'.refunded ≡ t.refunded + available t)
          × (available t' ≡ 0))
        (refund_task publisher_id code db)
unfolding refund_task find_task_by_code
refund_task_lem publisher_id code db keyed = Ensures-call _ _ λ (task_id, t) db₁ e₁.
    let (same, found) = Ensures_elim _ (lock_owned_task-same publisher_id code db) e₁ in
    let row : lookup task_id db₁.tasks ≡ some t =
      rw same (first-lookup _ task_id t db.tasks keyed found) in
    Ensures-fail_if _ _ _ _ λ c. Ensures-fail_if _ _ _ _ λ r. Ensures-fail_if _ _ _ _ λ z.
      Ensures-mask _ _ _ λ n db₂ e₂.
        let (u, eu, all, done) = Ensures_elim _ (refund_row task_id publisher_id db₁) e₂ in
        let is_t : u ≡ t = cc (eu, row) in
        let some_left : 1 ≤ available t = ground arith in
        let (t', et', refunded, none_left) = done (rw (all, is_t) some_left) in
        holds (
          task_id,
          t,
          t',
          found,
          ground arith,
          ground arith,
          some_left,
          et',
          refunded_from t u t' is_t refunded,
          none_left,
        )

paused_row :
    (task_id : ℕ) (t : TaskRow) (db : Db)
    → lookup task_id db.tasks ≡ some t
    → Ensures
        (λ _ db'.
          lookup task_id db'.tasks
          ≡ some (record t {
            status = task_paused;
            paused_reason = some "RECEIVER_FAULT";
            closed_reason = none;
            updated_at = db.now;
          }))
        (apply_task_status task_id task_open event_platform_pause (some "RECEIVER_FAULT") db)
unfolding apply_task_status task_transition
paused_row task_id t db e = Ensures-or_fail _ _ _ _ λ to st. Ensures-ok _ _ _ (
    Ensures-or_fail _ _ _ _ λ u eu. Ensures-fail_if _ _ _ _ λ g.
      let is_paused : to ≡ task_paused = ground arith in
      let same : u ≡ t = cc (eu, e) in
      holds (rw (same, is_paused) (lookup-put_self task_id _ t db.tasks e)))

length-map-take : {A B : Type 0} (f : A → B) (n : ℕ) (xs : List A) → length (map f (take n xs)) ≤ n
unfolding take
length-map-take f zero xs = omega arith
length-map-take f (suc n) [] = omega arith
length-map-take f (suc n) (x ∷ xs) = omega (arith, length-map-take f n xs)

recent_terminal_outcomes_bound :
    (task_id n : ℕ) (db : Db) → length (recent_terminal_outcomes task_id n db) ≤ n
unfolding recent_terminal_outcomes
recent_terminal_outcomes_bound task_id n db = length-map-take _ n _

-- A call of the platform's pause that succeeds has written nothing, or the task was open, its five
-- most recent final submissions all failed for a reason of the receiver's, and the task is paused
-- with that reason.
pub maybe_pause_lem :
    (task_id : ℕ) (db : Db)
    → Ensures
        (λ _ db'.
          (db' ≡ db)
          ⊎ ((t : TaskRow) × (lookup task_id db.tasks ≡ some t)
              × (t.status ≡ task_open)
              × (length (recent_terminal_outcomes task_id 5 db) ≡ 5)
              × (all_counting (recent_terminal_outcomes task_id 5 db) ≡ true)
              × (lookup task_id db'.tasks
                  ≡ some (record t {
                    status = task_paused;
                    paused_reason = some "RECEIVER_FAULT";
                    closed_reason = none;
                    updated_at = db.now;
                  }))))
        (maybe_pause_for_receiver_fault task_id db)
unfolding maybe_pause_for_receiver_fault
maybe_pause_lem task_id db = Ensures-ok _ _ _ (
    Ensures-or_fail _ _ _ _ λ t e.
      Ensures-if
        (not (is_open t.status)
          || ltb (length (recent_terminal_outcomes task_id 5 db)) 5
          || not (all_counting (recent_terminal_outcomes task_id 5 db)))
        _ _ _ (λ _. holds (inl refl))
        λ go. Ensures-last_masked _ _ λ u db' r.
          let full : length (recent_terminal_outcomes task_id 5 db) ≤ 5 =
            recent_terminal_outcomes_bound task_id 5 db in
          let opened : t.status ≡ task_open = ground arith in
          inr (
            t,
            e,
            opened,
            ground arith,
            ground arith,
            Ensures_elim _ (paused_row task_id t db e) r,
          ))
