-- ===== src/Reclaim.antt =====
-- internal/service/task_claim.go: ClaimTask called again by the same agent.
use kungfu.Base.{
  ℕ, ◌<◌, ◌≡◌, refl, sym, ap, ◌∙◌, Bool, true, false, ◌||◌, Option, none, some, arith, String, List,
  [], ◌∷◌, lookup, put, first, first-put, Keyed, Keyed-put, first-lookup, subst, ltb, ◌==◌,
  if◌then◌else◌, Bool-cases, inl, inr, eq_refl, ℤ, fresh,
}
use kungfu.Task.{is_open, is_active, ClaimStatus, ClaimEvent}
use kungfu.Tx.{
  ok, Ensures, holds, failed, Ensures-ok, Ensures-or_fail, Ensures-fail_if, Ensures-call,
  Ensures-mask, Ensures-last_masked, Ensures-if, Ensures_elim, Ensures-map, running,
}
use kungfu.Tables.{Db, Time, TaskRow, ClaimRow, HarnessPin}
use kungfu.Repository.{
  find_task_by_code, find_active_claim, holds_active_claim, task_audience_visible,
  apply_claim_status, release_task_reservation, reserve_task_amount, insert_claim, NewClaimRow,
  or_active, insert_claim_harness_revisions,
}
use kungfu.Service.Limits.{require_task_audience}
use kungfu.Service.Claim.{claim_task, issue_claim, expire_claim, claim_or_issue}
use kungfu.Audit.Claims.{require_task_audience-same, check_rejection_limit-same}

-- What a claim sees of the tasks and the audience, and that it stays.
record Frame (db db' : Db) : Type 0 where
  pub same_audience : db'.task_audience ≡ db.task_audience
  pub keyed : Keyed db.tasks → Keyed db'.tasks
  pub task_stays :
      (code : String) (k : ℕ) (t : TaskRow)
      → Keyed db.tasks
      → find_task_by_code code db ≡ some (k, t)
      → (t' : TaskRow) × (find_task_by_code code db' ≡ some (k, t'))
        × (t'.publisher_id ≡ t.publisher_id)
        × (t'.status ≡ t.status)

same_tasks-Frame :
    (db db' : Db) → db'.task_audience ≡ db.task_audience → db'.tasks ≡ db.tasks → Frame db db'
unfolding find_task_by_code
same_tasks-Frame db db' ea et = record {
  same_audience = ea;
  keyed = λ h. rw et h;
  task_stays = λ code k t h f. (t, rw et f, refl, refl);
}

Frame-trans : (db db' db'' : Db) → Frame db db' → Frame db' db'' → Frame db db''
Frame-trans db db' db'' e f = record {
  same_audience = f.same_audience ∙ e.same_audience;
  keyed = λ h. f.keyed (e.keyed h);
  task_stays = λ code k t h g.
      let (t', g', p', s') = e.task_stays code k t h g in
      let (t'', g'', p'', s'') = f.task_stays code k t' (e.keyed h) g' in
      (t'', g'', p'' ∙ p', s'' ∙ s');
}

kept_field :
    {A : Type 0} (p : TaskRow → Bool) (g : TaskRow → A) (k task_id : ℕ) (t u w : TaskRow) (db : Db)
    → Keyed db.tasks
    → lookup task_id db.tasks ≡ some u
    → first p db.tasks ≡ some (k, t)
    → g w ≡ g u
    → g (if k == task_id then w else t) ≡ g t
kept_field p g k task_id t u w db h e f same = elim (Bool-cases (k == task_id)) [
  | inl y ↦
      let at : k ≡ task_id = ground arith in
      let row : lookup task_id db.tasks ≡ some t =
        subst (λ i. lookup i db.tasks ≡ some t) at (first-lookup p k t db.tasks h f) in
      let is_t : u ≡ t = cc (e, row) in rw (y, sym is_t) same
  | inr n ↦ rw n refl
]

task_put-Frame :
    (task_id : ℕ) (u w : TaskRow) (db : Db)
    → lookup task_id db.tasks ≡ some u
    → w.code ≡ u.code
    → w.publisher_id ≡ u.publisher_id
    → w.status ≡ u.status
    → Frame db (record db { tasks = put task_id w db.tasks })
unfolding find_task_by_code
task_put-Frame task_id u w db e ec ep es = record {
  same_audience = refl;
  keyed = λ h. Keyed-put task_id w db.tasks h;
  task_stays = λ code k t h f. (
    if k == task_id then w else t,
    first-put _ k task_id t u w db.tasks h e (rw ec refl) f,
    kept_field _ (λ r. r.publisher_id) k task_id t u w db h e f ep,
    kept_field _ (λ r. r.status) k task_id t u w db h e f es,
  );
}

release-Frame :
    (task_id : ℕ) (amount : ℤ) (db : Db)
    → Ensures (λ _ db'. Frame db db') (release_task_reservation task_id amount db)
unfolding release_task_reservation
release-Frame task_id amount db = Ensures-or_fail _ _ _ _ λ n p. Ensures-ok _ _ _ (
    Ensures-or_fail _ _ _ _
      λ t e. Ensures-fail_if _ _ _ _ λ g. holds (task_put-Frame task_id t _ db e refl refl refl))

reserve-Frame :
    (task_id : ℕ) (amount : ℤ) (db : Db)
    → Ensures
        (λ _ db'. Frame db db' × (db'.claims ≡ db.claims))
        (reserve_task_amount task_id amount db)
unfolding reserve_task_amount
reserve-Frame task_id amount db = Ensures-or_fail _ _ _ _ λ n p. Ensures-ok _ _ _ (
    Ensures-or_fail _ _ _ _ λ t e.
      Ensures-fail_if _ _ _ _ λ g. holds (task_put-Frame task_id t _ db e refl refl refl, refl))

status-Frame :
    (claim_id : ℕ) (from : ClaimStatus) (event : ClaimEvent) (db : Db)
    → Ensures (λ _ db'. Frame db db') (apply_claim_status claim_id from event db)
unfolding apply_claim_status
status-Frame claim_id from event db = Ensures-or_fail _ _ _ _ λ to st. Ensures-ok _ _ _ (
    Ensures-or_fail _ _ _ _
      λ d e. Ensures-fail_if _ _ _ _ λ g. holds (same_tasks-Frame db _ refl refl))

pins-Frame :
    (claim_id : ℕ) (ps : List HarnessPin) (db : Db)
    → Ensures
        (λ _ db'. Frame db db' × (db'.claims ≡ db.claims))
        (insert_claim_harness_revisions claim_id ps db)
unfolding insert_claim_harness_revisions
pins-Frame claim_id [] db = holds (same_tasks-Frame db db refl refl, refl)
pins-Frame claim_id (p ∷ ps) db = Ensures-ok _ _ _ (
    Ensures-fail_if _ _ _ _ λ g. Ensures-ok _ _ _ (
      Ensures-map _ (λ _ db' (f, c). (Frame-trans db _ db' (same_tasks-Frame db _ refl refl) f, c))
        (pins-Frame claim_id ps _)))

abbrev new_claim : NewClaimRow → ℕ → Db → ClaimRow
new_claim input n db = record {
  task_id = input.task_id;
  agent_id = input.agent_id;
  contract_version = input.contract_version;
  expires_at = input.expires_at;
  deadline = input.deadline;
  amount = n;
  status = or_active input.status;
  created_at = db.now;
  updated_at = db.now;
}

-- the new claim stands in front
insert-Frame :
    (input : NewClaimRow) (db : Db)
    → is_active (or_active input.status) ≡ true
    → Ensures
        (λ id db'.
          (c : ClaimRow) × Frame db db'
          × (find_active_claim input.task_id input.agent_id db' ≡ some (id, c))
          × (lookup id db'.claims ≡ some c))
        (insert_claim input db)
unfolding insert_claim find_active_claim holds_active_claim first lookup
insert-Frame input db active = Ensures-ok _ _ _ (
    Ensures-fail_if _ _ _ _ λ ft. Ensures-fail_if _ _ _ _ λ fa. Ensures-or_fail _ _ _ _ λ n p.
      Ensures-fail_if _ _ _ _ λ u. Ensures-ok _ _ _ (
        holds (
          new_claim input n db,
          same_tasks-Frame db _ refl refl,
          rw (eq_refl input.task_id, eq_refl input.agent_id, active) refl,
          rw (eq_refl (fresh db.claims)) refl,
        )))

expire-Frame :
    (claim_id : ℕ) (c : ClaimRow) (task_id : ℕ) (db : Db)
    → Ensures (λ _ db'. Frame db db') (expire_claim claim_id c task_id db)
unfolding expire_claim
expire-Frame claim_id c task_id db = Ensures-mask _ _ _ λ u db₁ e₁.
    Ensures-last_masked _ _ λ v db₂ e₂.
      Frame-trans db db₁ db₂ (Ensures_elim _ (status-Frame claim_id _ _ db) e₁)
        (Ensures_elim _ (release-Frame task_id _ db₁) e₂)

-- What a successful claim leaves: the tasks as a second claim sees them, and the claim to be found.
abbrev Claimed : ℕ → ℕ → Db → ℕ × ClaimRow → Db → Type 0
Claimed task_id agent_id db r db' = Frame db db' × (find_active_claim task_id agent_id db' ≡ some r)

find_same :
    (task_id agent_id : ℕ) (db db' : Db)
    → db'.claims ≡ db.claims
    → find_active_claim task_id agent_id db' ≡ find_active_claim task_id agent_id db
unfolding find_active_claim
find_same task_id agent_id db db' e = rw e refl

issue_claim-Claimed :
    (agent_id task_id : ℕ) (t : TaskRow) (now : Time) (db : Db)
    → Ensures (λ r db'. Claimed task_id agent_id db r db') (issue_claim agent_id task_id t now db)
unfolding issue_claim
issue_claim-Claimed agent_id task_id t now db = Ensures-ok _ _ _ (
    Ensures-call _ _ λ u db₀ e₀.
      let same = Ensures_elim _ (check_rejection_limit-same _ t.contract now db) e₀ in
      let same_db : Frame db db₀ = rw same (same_tasks-Frame db db refl refl) in
      Ensures-fail_if _ _ _ _ λ g. Ensures-mask _ _ _ λ claim_id db₁ e₁.
        Ensures-mask _ _ _ λ v db₂ e₂. Ensures-mask _ _ _ λ w db₃ e₃. Ensures-ok _ _ _ (
          Ensures-or_fail _ _ _ _ λ c found.
            let (new, f₁, active, row) = Ensures_elim _ (insert-Frame _ db₀ refl) e₁ in
            let (f₂, c₂) = Ensures_elim _ (pins-Frame claim_id _ db₁) e₂ in
            let (f₃, c₃) = Ensures_elim _ (reserve-Frame task_id t.contract.price db₂) e₃ in
            let row₃ : lookup claim_id db₃.claims ≡ some new = rw (c₃, c₂) row in
            let is_new : c ≡ new = cc (row₃, found) in
            holds (
              Frame-trans db db₀ db₃ same_db
                  (Frame-trans db₀ db₁ db₃ f₁ (Frame-trans db₁ db₂ db₃ f₂ f₃)),
              rw is_new (find_same task_id agent_id db₁ db₃ (c₃ ∙ c₂) ∙ active),
            )))

claim_or_issue-Claimed :
    (found : Option (ℕ × ClaimRow)) (agent_id task_id : ℕ) (t : TaskRow) (now : Time) (db : Db)
    → find_active_claim task_id agent_id db ≡ found
    → Ensures
        (λ r db'. Claimed task_id agent_id db r db')
        (claim_or_issue found agent_id task_id t now db)
claim_or_issue-Claimed none agent_id task_id t now db e =
    issue_claim-Claimed agent_id task_id t now db
claim_or_issue-Claimed (some (id, c)) agent_id task_id t now db e =
    Ensures-if (ltb now c.expires_at) _ _ _ (λ _. holds (same_tasks-Frame db db refl refl, e))
      λ _. Ensures-call _ _ λ u db₁ e₁.
        Ensures-map _
          (λ r db' (f, active).
            (Frame-trans db db₁ db' (Ensures_elim _ (expire-Frame id c task_id db) e₁) f, active))
          (issue_claim-Claimed agent_id task_id t now db₁)

visible_same :
    (task_id agent_id : ℕ) (db db' : Db)
    → db'.task_audience ≡ db.task_audience
    → task_audience_visible task_id agent_id db' ≡ task_audience_visible task_id agent_id db
unfolding task_audience_visible
visible_same task_id agent_id db db' e = rw e refl

-- what a second claim needs to find
abbrev Again : ℕ → String → ℕ × ClaimRow → Db → Type 0
Again agent_id code r db' =
    (task_id : ℕ) × (t : TaskRow) × (find_task_by_code code db' ≡ some (task_id, t))
    × ((t.publisher_id == agent_id || task_audience_visible task_id agent_id db') ≡ true)
    × (is_open t.status ≡ true)
    × ((t.publisher_id == agent_id) ≡ false)
    × (find_active_claim task_id agent_id db' ≡ some r)

audience_true :
    (task_id : ℕ) (t : TaskRow) (agent_id : ℕ) (db : Db)
    → Ensures
        (λ _ db'. (t.publisher_id == agent_id || task_audience_visible task_id agent_id db) ≡ true)
        (require_task_audience task_id t agent_id db)
unfolding require_task_audience
audience_true task_id t agent_id db =
    elim (Bool-cases (t.publisher_id == agent_id || task_audience_visible task_id agent_id db)) [
      | inl y ↦ rw y (holds refl)
      | inr n ↦ rw n failed
    ]

claim_task-Again :
    (agent_id : ℕ) (code : String) (now : Time) (db : Db)
    → Keyed db.tasks
    → Ensures (λ r db'. Again agent_id code r db') (claim_task agent_id code now db)
unfolding claim_task
claim_task-Again agent_id code now db keyed = Ensures-ok _ _ _ (
    Ensures-or_fail _ _ _ _ λ (task_id, t) e. Ensures-call _ _ λ u db₁ e₁.
      let same = Ensures_elim _ (require_task_audience-same task_id t agent_id db) e₁ in
      let seen = Ensures_elim _ (audience_true task_id t agent_id db) e₁ in
      let found : find_active_claim task_id agent_id db₁ ≡ find_active_claim task_id agent_id db =
        rw same refl in
      Ensures-fail_if _ _ _ _ λ o. Ensures-fail_if _ _ _ _ λ p.
        Ensures-map _
          (λ r db' (f, active).
            let (t', e', pub', st') = f.task_stays code task_id t (rw same keyed) (rw same e) in
            let vis =
              visible_same task_id agent_id db db'
                (f.same_audience ∙ ap (λ (d : Db). d.task_audience) same) in
            (task_id, t', e', rw (pub', vis) seen, rw st' (ground arith), rw pub' p, active))
          (claim_or_issue-Claimed (find_active_claim task_id agent_id db) agent_id task_id t now db₁
            found))

-- Where task keys are unique and a claim has succeeded, the same agent claiming the task again
-- before the claim expires gets the same claim, and nothing is written.
pub claim_task-again :
    (agent_id : ℕ) (code : String) (now now' : Time) (r : ℕ × ClaimRow) (db db' : Db)
    → Keyed db.tasks
    → claim_task agent_id code now db ≡ ok (r, db')
    → now' < r.1.expires_at
    → claim_task agent_id code now' db' ≡ ok (r, db')
unfolding claim_task require_task_audience running
claim_task-again agent_id code now now' r db db' keyed e live =
    let (task_id, t, found, seen, opened, other, active) =
      Ensures_elim _ (claim_task-Again agent_id code now db keyed) e in
    let early : ltb now' r.1.expires_at ≡ true = ground arith in
    rw (found, seen, opened, other, active, early) refl
