-- ===== src/Audit/Sweep.antt =====
-- internal/service/task_claim.go: a pass of the reclaimer over the expired claims.
use kungfu.Base.{
  ℕ, suc, zero, ◌≤◌, ◌≡◌, refl, ap, ◌∙◌, Bool, true, false, not, ◌||◌, none, some, arith, List, [],
  ◌∷◌, map, lookup, put, put-cases, lookup-put, select, take, length, ltb, ◌==◌, Bool-cases,
  Option-cases, inl, inr, subst, Table, is_some,
}
use kungfu.Task.{is_active, claim_expired}
use kungfu.Tx.{ok, after, or_fail, Ensures_elim}
use kungfu.Tables.{Db, Time, TaskRow, ClaimRow}
use kungfu.Repository.{
  is_expired_active, insert_by_expiry, sort_by_expiry, list_expired_active_claims,
}
use kungfu.Service.Claim.{expire_one, expire_all, expire_claims, counted}
use kungfu.Audit.Sums.{IsBalanced}
use kungfu.Audit.Claims.{expire_one-IsBalanced}
use kungfu.Audit.Exits.{expire_one-succeeds, released_from, expired_claim}

-- The audit's equations, and of every claim that its amount is positive and its task there.
pub record IsSound (db : Db) : Type 0 where
  pub balanced : IsBalanced db
  pub claims_checked :
      (id : ℕ) (c : ClaimRow)
      → lookup id db.claims ≡ some c
      → (1 ≤ c.amount) × (is_some (lookup c.task_id db.tasks) ≡ true)

-- what is still due is what was due, but for the claim of one transaction
abbrev Leaves : Time → ℕ → Db → Db → Type 0
Leaves now id db db' =
    (j : ℕ) (c : ClaimRow)
    → lookup j db'.claims ≡ some c
    → is_expired_active now c ≡ true
    → ((id == j) ≡ false) × (lookup j db.claims ≡ some c)

abbrev Step : Time → ℕ → Db → Type 0
Step now id db =
    (b : Bool) × (db' : Db) × (expire_one now id db ≡ ok (b, db'))
    × IsSound db'
    × Leaves now id db db'

not_both : (b : Bool) → b ≡ false → b ≡ true → ⊥
not_both b p q = ground arith

abbrev dead_row : ClaimRow → Db → ClaimRow
dead_row c db = record c { status = claim_expired; updated_at = db.now }

skip_absent :
    (now : Time) (id : ℕ) (db : Db) → IsSound db → lookup id db.claims ≡ none → Step now id db
unfolding expire_one after
skip_absent now id db s e = (false, db, rw e refl, s, λ j c f due. (ground arith, f))

undue_apart :
    (now : Time) (id j : ℕ) (c d : ClaimRow) (db : Db)
    → lookup id db.claims ≡ some c
    → lookup j db.claims ≡ some d
    → is_expired_active now c ≡ false
    → is_expired_active now d ≡ true
    → (id == j) ≡ false
undue_apart now id j c d db e f undue due = elim (Bool-cases (id == j)) [
  | inl y ↦
      let at : id ≡ j = ground arith in
      let row : lookup j db.claims ≡ some c = subst (λ i. lookup i db.claims ≡ some c) at e in
      let same : c ≡ d = cc (row, f) in
      absurd (not_both (is_expired_active now c) undue (rw same due))
  | inr n ↦ n
]

skip_undue :
    (now : Time) (id : ℕ) (c : ClaimRow) (db : Db)
    → IsSound db
    → lookup id db.claims ≡ some c
    → is_expired_active now c ≡ false
    → Step now id db
unfolding expire_one after or_fail is_expired_active
skip_undue now id c db s e undue =
    let (p, there) = s.claims_checked id c e in
    elim (Option-cases (lookup c.task_id db.tasks)) [
      | inl gone ↦ absurd (ground arith)
      | inr (t, et) ↦
          let skip : not (is_active c.status) || ltb now c.expires_at ≡ true = ground arith in
          (
            false,
            db,
            rw (e, et, skip) refl,
            s,
            λ j d f due. (undue_apart now id j c d db e f undue due, f),
          )
    ]

still_there :
    (k j : ℕ) (w t : TaskRow) (db : Db)
    → lookup k db.tasks ≡ some t
    → is_some (lookup j db.tasks) ≡ true
    → is_some (lookup j (put k w db.tasks)) ≡ true
still_there k j w t db e h = ground (arith, lookup-put k j w t db.tasks e)

expire_due :
    (now : Time) (id : ℕ) (c : ClaimRow) (db : Db)
    → IsSound db
    → lookup id db.claims ≡ some c
    → is_expired_active now c ≡ true
    → Step now id db
unfolding is_expired_active
expire_due now id c db s e due =
    let (p, there) = s.claims_checked id c e in
    let (t, et, enough, done) =
      expire_one-succeeds now id c db s.balanced e (ground arith) (ground arith) p in
    let db' = released_from c.task_id t c.amount (expired_claim id c db) in
    (
      true,
      db',
      done,
      record {
        balanced = Ensures_elim _ (expire_one-IsBalanced now id db s.balanced) done;
        claims_checked = λ j d f. elim (put-cases id j (dead_row c db) c d db.claims e f) [
          | inl (same, new) ↦ rw new (p, still_there c.task_id c.task_id _ t db et there)
          | inr (other, old) ↦
              let (q, seen) = s.claims_checked j d old in
              (q, still_there c.task_id d.task_id _ t db et seen)
        ];
      },
      λ j d f due'. elim (put-cases id j (dead_row c db) c d db.claims e f) [
        | inl (same, new) ↦ absurd (not_both (is_expired_active now d) (rw new refl) due')
        | inr (other, old) ↦ (other, old)
      ],
    )

step_of : (now : Time) (id : ℕ) (db : Db) → IsSound db → Step now id db
step_of now id db s = elim (Option-cases (lookup id db.claims)) [
  | inl gone ↦ skip_absent now id db s gone
  | inr (c, e) ↦ elim (Bool-cases (is_expired_active now c)) [
    | inl due ↦ expire_due now id c db s e due
    | inr undue ↦ skip_undue now id c db s e undue
  ]
]

abbrev pub has : ℕ → List ℕ → Bool
has j [] = false
has j (i ∷ is) = i == j || has j is

sweep :
    (now : Time) (ids : List ℕ) (n : ℕ) (db : Db)
    → IsSound db
    → (m : ℕ) × (db' : Db) × (expire_all now ids n db ≡ (m, true, db'))
      × IsSound db'
      × ((j : ℕ) (c : ClaimRow)
          → lookup j db'.claims ≡ some c
          → is_expired_active now c ≡ true
          → (has j ids ≡ false) × (lookup j db.claims ≡ some c))
unfolding expire_all
sweep now [] n db s = (n, db, refl, s, λ j c f due. (refl, f))
sweep now (id ∷ ids) n db s =
    let (b, db₁, e, s₁, leaves) = step_of now id db s in
    let (m, db', e', s', rest) = sweep now ids (counted b n) db₁ s₁ in
    (
      m,
      db',
      rw (expire_all, e) e',
      s',
      λ j c f due.
          let (unlisted, f₁) = rest j c f due in
          let (apart, f₀) = leaves j c f₁ due in (rw (apart, unlisted) refl, f₀),
    )

abbrev ids : Table ClaimRow → List ℕ
ids = map (λ (r : ℕ × ClaimRow). r.0)

has-select :
    (p : ClaimRow → Bool) (j : ℕ) (c : ClaimRow) (t : Table ClaimRow)
    → lookup j t ≡ some c
    → p c ≡ true
    → has j (ids (select p t)) ≡ true
unfolding lookup select
has-select p j c [] e h = absurd (ground arith)
has-select p j c ((i, x) ∷ t) e h = ground (arith, has-select p j c t)

has-insert_by_expiry :
    (j : ℕ) (x : ℕ × ClaimRow) (l : Table ClaimRow)
    → has j (ids (insert_by_expiry x l)) ≡ (x.0 == j || has j (ids l))
unfolding insert_by_expiry
has-insert_by_expiry j x [] = refl
has-insert_by_expiry j x (y ∷ l) = ground (arith, has-insert_by_expiry j x l)

has-sort_by_expiry : (j : ℕ) (l : Table ClaimRow) → has j (ids (sort_by_expiry l)) ≡ has j (ids l)
unfolding sort_by_expiry
has-sort_by_expiry j [] = refl
has-sort_by_expiry j (x ∷ l) = rw (has-insert_by_expiry, has-sort_by_expiry j l) refl

length-insert_by_expiry :
    (x : ℕ × ClaimRow) (l : Table ClaimRow) → length (insert_by_expiry x l) ≡ suc (length l)
unfolding insert_by_expiry
length-insert_by_expiry x [] = refl
length-insert_by_expiry x (y ∷ l) = ground (arith, length-insert_by_expiry x l)

length-sort_by_expiry : (l : Table ClaimRow) → length (sort_by_expiry l) ≡ length l
unfolding sort_by_expiry
length-sort_by_expiry [] = refl
length-sort_by_expiry (x ∷ l) = rw (length-insert_by_expiry, length-sort_by_expiry l) refl

take_all : (n : ℕ) (l : Table ClaimRow) → length l ≤ n → take n l ≡ l
unfolding take
take_all zero [] h = refl
take_all zero (x ∷ l) h = absurd (omega arith)
take_all (suc n) [] h = refl
take_all (suc n) (x ∷ l) h = ap (λ r. x ∷ r) (take_all n l (omega arith))

length-select : (p : ClaimRow → Bool) (t : Table ClaimRow) → length (select p t) ≤ length t
unfolding select
length-select p [] = omega arith
length-select p ((i, x) ∷ t) = ground (arith, length-select p t)

due_listed :
    (now : Time) (limit j : ℕ) (c : ClaimRow) (db : Db)
    → length db.claims ≤ limit
    → lookup j db.claims ≡ some c
    → is_expired_active now c ≡ true
    → has j (list_expired_active_claims now limit db) ≡ true
unfolding list_expired_active_claims
due_listed now limit j c db fits e due =
    let selected = select (is_expired_active now) db.claims in
    let enough : length (sort_by_expiry selected) ≤ limit =
      rw length-sort_by_expiry (omega (arith, length-select (is_expired_active now) db.claims)) in
    rw (take_all limit (sort_by_expiry selected) enough)
      (has-sort_by_expiry j selected ∙ has-select (is_expired_active now) j c db.claims e due)

-- Where the audit's equations hold, and every claim has a positive amount and its task, a pass of
-- the reclaimer whose batch is as large as the table of claims ends without an error and leaves no
-- active claim whose time is over.
pub expire_claims_complete :
    (now : Time) (batch : ℕ) (db : Db)
    → IsSound db
    → 1 ≤ batch
    → length db.claims ≤ batch
    → (m : ℕ) × (db' : Db) × (expire_claims now batch db ≡ (m, true, db'))
      × IsSound db'
      × ((j : ℕ) (c : ClaimRow) → lookup j db'.claims ≡ some c → is_expired_active now c ≡ false)
unfolding expire_claims
expire_claims_complete now batch db s p fits =
    let positive : (batch == 0) ≡ false = ground arith in
    let (m, db', e, s', left) = sweep now (list_expired_active_claims now batch db) 0 db s in
    (
      m,
      db',
      rw positive e,
      s',
      λ j c f. elim (Bool-cases (is_expired_active now c)) [
        | inl due ↦
            let (unlisted, f₀) = left j c f due in
            absurd (
              not_both (has j (list_expired_active_claims now batch db)) unlisted
                (due_listed now batch j c db fits f₀ due))
        | inr undue ↦ undue
      ],
    )
