-- ===== src/Slots.antt =====
-- internal/service/task_submit.go, `slotsFor`, against the reservations of
-- internal/repository/task_v1.go that a claim or a submission without one makes and gives back.
use kungfu.Base.{
  ℕ, ◌+◌, ◌-◌, ◌≤◌, ◌<◌, ◌≡◌, ◌⊎◌, refl, sym, true, false, some, inl, inr, arith, lookup, put,
  lookup-put_self, leb, Bool-cases, ℤ,
}
use kungfu.Task.{Contract}
use native.Mathlib.Nat.{div-eq_of_lt, add-div_left}
use kungfu.Tx.{running, ok, err, no_available_budget}
use kungfu.Tables.{Db, Time, TaskRow}
use kungfu.Repository.{positive, available, reserve_task_amount, release_task_reservation}
use kungfu.Service.Limits.{slots_for}
use kungfu.Audit.Moves.{positive_pos}

abbrev with_reserved : ℕ → TaskRow → Time → TaskRow
with_reserved n t now = record t { reserved = n; updated_at = now }

abbrev with_task : ℕ → TaskRow → Db → Db
with_task task_id t db = record db { tasks = put task_id t db.tasks }

-- no slot, and no reservation
abbrev pub IsFull : ℕ → TaskRow → Contract → ℕ → Db → Type 0
IsFull task_id t contract p db =
    (slots_for t contract ≡ 0)
    × (t.budget_locked < t.settled + t.reserved + t.refunded + p)
    × (reserve_task_amount task_id contract.price db ≡ err no_available_budget)

-- a reservation takes one slot, and its release gives it back
abbrev pub IsTaken : ℕ → TaskRow → Contract → ℕ → Db → Type 0
IsTaken task_id t contract p db =
    (taken released : Db) × (t₁ t₂ : TaskRow) × (t.settled + t.reserved + t.refunded + p
      ≤ t.budget_locked)
    × (reserve_task_amount task_id contract.price db ≡ ok (tt, taken))
    × (lookup task_id taken.tasks ≡ some t₁)
    × (slots_for t₁ contract + 1 ≡ slots_for t contract)
    × (release_task_reservation task_id contract.price taken ≡ ok (tt, released))
    × (lookup task_id released.tasks ≡ some t₂)
    × (slots_for t₂ contract ≡ slots_for t contract)

reserve-full :
    (task_id : ℕ) (amount : ℤ) (n : ℕ) (t : TaskRow) (db : Db)
    → positive amount ≡ some n
    → lookup task_id db.tasks ≡ some t
    → leb n (available t) ≡ false
    → reserve_task_amount task_id amount db ≡ err no_available_budget
unfolding reserve_task_amount running
reserve-full task_id amount n t db a l g = rw (a, l, g) refl

reserve-made :
    (task_id : ℕ) (amount : ℤ) (n : ℕ) (t : TaskRow) (db : Db)
    → positive amount ≡ some n
    → lookup task_id db.tasks ≡ some t
    → leb n (available t) ≡ true
    → reserve_task_amount task_id amount db
      ≡ ok (tt, with_task task_id (with_reserved (t.reserved + n) t db.now) db)
unfolding reserve_task_amount running
reserve-made task_id amount n t db a l g = rw (a, l, g) refl

release-made :
    (task_id : ℕ) (amount : ℤ) (n : ℕ) (t : TaskRow) (db : Db)
    → positive amount ≡ some n
    → lookup task_id db.tasks ≡ some t
    → n ≤ t.reserved
    → release_task_reservation task_id amount db
      ≡ ok (tt, with_task task_id (with_reserved (t.reserved - n) t db.now) db)
unfolding release_task_reservation running
release-made task_id amount n t db a l g =
    let enough : leb n t.reserved ≡ true = ground (arith, g) in rw (a, l, enough) refl

slots-few :
    (t : TaskRow) (contract : Contract) (p : ℕ)
    → positive contract.price ≡ some p
    → available t < p
    → slots_for t contract ≡ 0
unfolding slots_for
slots-few t contract p e l = rw e (div-eq_of_lt l)

-- the price less, one slot less
slots-one :
    (t s : TaskRow) (contract : Contract) (p : ℕ)
    → positive contract.price ≡ some p
    → 1 ≤ p
    → p + available s ≡ available t
    → slots_for s contract + 1 ≡ slots_for t contract
unfolding slots_for
slots-one t s contract p e l a = rw (e, sym a) (sym (add-div_left (available s) l))

slots-same :
    (t s : TaskRow) (contract : Contract)
    → available s ≡ available t
    → slots_for s contract ≡ slots_for t contract
unfolding slots_for
slots-same t s contract a = rw a refl

-- For a task in the database and a contract with a positive price: either what is settled, reserved and
-- refunded leaves less than the price of the budget, there is no slot, and reserving the price fails with
-- NO_AVAILABLE_BUDGET; or it leaves the price, reserving it succeeds and leaves exactly one slot less,
-- and releasing it again succeeds and leaves as many slots as before.
pub reserve_task_amount-slots_for :
    (task_id : ℕ) (t : TaskRow) (contract : Contract) (p : ℕ) (db : Db)
    → positive contract.price ≡ some p
    → lookup task_id db.tasks ≡ some t
    → IsFull task_id t contract p db ⊎ IsTaken task_id t contract p db
reserve_task_amount-slots_for task_id t contract p db e l =
    let price : 1 ≤ p = positive_pos contract.price p e in
    elim (Bool-cases (leb p (available t))) [
      | inl y ↦
          let t₁ = with_reserved (t.reserved + p) t db.now in
          let t₂ = with_reserved (t₁.reserved - p) t₁ db.now in
          let taken = with_task task_id t₁ db in
          let l₁ = lookup-put_self task_id t₁ t db.tasks l in
          inr (
            taken,
            with_task task_id t₂ taken,
            t₁,
            t₂,
            ground (arith, y, price),
            reserve-made task_id contract.price p t db e l y,
            l₁,
            slots-one t t₁ contract p e price (ground (arith, y, price)),
            release-made task_id contract.price p t₁ taken e l₁ (omega arith),
            lookup-put_self task_id t₂ t₁ taken.tasks l₁,
            slots-same t t₂ contract (ground arith),
          )
      | inr n ↦ inl (
        slots-few t contract p e (ground (arith, n)),
        ground (arith, n, price),
        reserve-full task_id contract.price p t db e l n,
      )
    ]
