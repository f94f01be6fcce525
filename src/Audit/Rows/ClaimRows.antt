-- ===== src/Audit/Rows/ClaimRows.antt =====
-- The effect of a write of a claim or its pins on what the audit reads.
use kungfu.Base.{
  ℕ, ◌≡◌, refl, some, List, [], ◌∷◌, if◌then◌else◌, lookup, put, arith, lookup-fresh, Keyed-put,
  pos_part,
}
use kungfu.Task.{ClaimStatus, ClaimEvent, is_active, claim_transition}
use kungfu.Tx.{Ensures, holds, Ensures-ok, Ensures-or_fail, Ensures-fail_if, Ensures-map}
use kungfu.Tables.{Db, ClaimRow, Time, HarnessPin}
use kungfu.Repository.{
  apply_claim_status, NewClaimRow, insert_claim, or_active, renew_claim_row,
  insert_claim_harness_revisions,
}
use kungfu.Audit.Sums.{share, claim_weight, claim_sum-put, claim_sum-cons}
use kungfu.Audit.Moves.{Change, still, Effect, positive_part, Untouched}

-- A claim's row is rewritten.
abbrev pub claim_change : ClaimRow → ClaimRow → ℕ → Change
claim_change before after k = record still {
  claims_down = claim_weight k before;
  claims_up = claim_weight k after;
}

pub claim_update-Effect :
    (claim_id : ℕ) (c d : ClaimRow) (db : Db)
    → lookup claim_id db.claims ≡ some d
    → Effect (claim_change d c) db (record db { claims = put claim_id c db.claims })
claim_update-Effect claim_id c d db e = record {
  moves = λ k. record {
    budget_moves = omega arith;
    settled_moves = omega arith;
    reserved_moves = omega arith;
    refunded_moves = omega arith;
    claims_move = claim_sum-put k claim_id c d db.claims e;
    submissions_move = omega arith;
  };
  keys = record {
    tasks_kept = λ h. h;
    claims_kept = λ h. Keyed-put claim_id c db.claims h;
    submissions_kept = λ h. h;
  };
}

pub apply_claim_status-Effect :
    (claim_id : ℕ) (from : ClaimStatus) (event : ClaimEvent) (c : ClaimRow) (db : Db)
    → lookup claim_id db.claims ≡ some c
    → Ensures
        (λ _ db'.
          (to : ClaimStatus) × (claim_transition from event ≡ some to)
          × Effect (claim_change c (record c { status = to })) db db')
        (apply_claim_status claim_id from event db)
unfolding apply_claim_status claim_weight
apply_claim_status-Effect claim_id from event c db found = Ensures-or_fail _ _ _ _ λ to st.
    Ensures-ok _ _ _
      (Ensures-or_fail _ _ _ _ λ d e. Ensures-fail_if _ _ _ _ λ g. holds (to, st, updated to d e))
  where
    updated :
        (to : ClaimStatus) (d : ClaimRow)
        → lookup claim_id db.claims ≡ some d
        → Effect (claim_change c (record c { status = to })) db (record db {
          claims = put claim_id (record d { status = to; updated_at = db.now }) db.claims;
        })
    updated to d e =
        let same : d ≡ c = cc (found, e) in
        rw same
          (claim_update-Effect claim_id (record c { status = to; updated_at = db.now }) c db found)

renewed-Effect :
    (claim_id : ℕ) (at : Time) (c : ClaimRow) (db : Db)
    → lookup claim_id db.claims ≡ some c
    → Effect
        (λ k. still)
        db
        (record db {
          claims = put claim_id (record c { expires_at = at; updated_at = db.now }) db.claims;
        })
unfolding claim_weight
renewed-Effect claim_id at c db e = record {
  moves = λ k. record {
    budget_moves = omega arith;
    settled_moves = omega arith;
    reserved_moves = omega arith;
    refunded_moves = omega arith;
    claims_move = omega (arith, claim_sum-put k claim_id _ c db.claims e);
    submissions_move = omega arith;
  };
  keys = record {
    tasks_kept = λ h. h;
    claims_kept = λ h. Keyed-put claim_id _ db.claims h;
    submissions_kept = λ h. h;
  };
}

pub renew_claim_row-Effect :
    (claim_id : ℕ) (from : ClaimStatus) (at : Time) (db : Db)
    → Ensures (λ _ db'. Effect (λ k. still) db db') (renew_claim_row claim_id from at db)
unfolding renew_claim_row
renew_claim_row-Effect claim_id from at db = Ensures-or_fail _ _ _ _ λ to st. Ensures-ok _ _ _ (
    Ensures-or_fail _ _ _ _
      λ c e. Ensures-fail_if _ _ _ _ λ g. holds (renewed-Effect claim_id at c db e))

-- A new claim counts if it is born active.
pub insert_claim-Effect :
    (input : NewClaimRow) (db : Db)
    → Ensures
        (λ id db'.
          Effect
            (λ k. record still {
              claims_up =
                  if is_active (or_active input.status)
                  then share k input.task_id (pos_part input.amount)
                  else 0;
            })
            db
            db')
        (insert_claim input db)
unfolding insert_claim claim_weight
insert_claim-Effect input db = Ensures-ok _ _ _ (
    Ensures-fail_if _ _ _ _ λ ft. Ensures-fail_if _ _ _ _ λ fa. Ensures-or_fail _ _ _ _ λ n p.
      Ensures-fail_if _ _ _ _ λ u. Ensures-ok _ _ _ (
        holds (record {
          moves = λ k. record {
            budget_moves = omega arith;
            settled_moves = omega arith;
            reserved_moves = omega arith;
            refunded_moves = omega arith;
            claims_move = rw claim_sum-cons (rw (positive_part _ n p) (omega arith));
            submissions_move = omega arith;
          };
          keys = record {
            tasks_kept = λ h. h;
            claims_kept = λ h. (lookup-fresh db.claims, h);
            submissions_kept = λ h. h;
          };
        })))

pub insert_claim_harness_revisions-Untouched :
    (claim_id : ℕ) (ps : List HarnessPin) (db : Db)
    → Ensures (λ _ db'. Untouched db db') (insert_claim_harness_revisions claim_id ps db)
unfolding insert_claim_harness_revisions
insert_claim_harness_revisions-Untouched claim_id [] db =
    holds (record { same_tasks = refl; same_claims = refl; same_submissions = refl })
insert_claim_harness_revisions-Untouched claim_id (p ∷ ps) db = Ensures-ok _ _ _ (
    Ensures-fail_if _ _ _ _ λ g. Ensures-ok _ _ _ (
      Ensures-map _
        (λ _ db' u. record {
          same_tasks = u.same_tasks;
          same_claims = u.same_claims;
          same_submissions = u.same_submissions;
        })
        (insert_claim_harness_revisions-Untouched claim_id ps _)))
